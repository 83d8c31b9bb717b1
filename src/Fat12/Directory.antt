-- ===== src/Fat12/Directory.antt =====
-- The search of the root directory.
use pso.Base.{
  ℕ, zero, suc, ◌+◌, ◌≤◌, ◌<◌, ◌&&◌, Bool, true, false, none, some, List, ◌∷◌, ◌++◌, ◌≡◌, ◌≢◌, ◌⊎◌,
  inl, inr, refl, ◌∙◌, sym, arith, Bool-cases, length, subst,
}
use pso.LibStr.Compare.{prefix}
use pso.Fat12.Names.{IsName, IsEntry, found_iff, both_iff}
use pso.Fat12.{Fat12, find_file, DirEntry, is_file, found, find_loop}

-- Whether `fat12_find_file` takes entry `j`.
abbrev pub passes : (ℕ → DirEntry) → List ℕ → ℕ → Bool
passes dir name j = is_file (dir j) && found name (dir j)

true-ne-false : true ≢ false
true-ne-false e = ground (arith, e)

later :
    (t : ℕ → Bool) (i j : ℕ)
    → t i ≡ false
    → ((k : ℕ) → i + 1 ≤ k → k < j → t k ≡ false)
    → (k : ℕ) → i ≤ k
    → k < j
    → t k ≡ false
later t i j e h k a b = elim (split i k a) [
  | inl x ↦ subst (λ y. t y ≡ false) x e
  | inr x ↦ h k x b
]
  where
    split : (i k : ℕ) → i ≤ k → (i ≡ k) ⊎ (i + 1 ≤ k)
    split i k a = ground (arith, a)

-- What the loop finds from `i` on: the first entry that passes the test, or nothing.
find_loop_lem :
    (n i : ℕ) (dir : ℕ → DirEntry) (name : List ℕ)
    → ((j : ℕ) × ((i ≤ j)
          × ((j < i + n)
              × ((find_loop n i dir name ≡ some (dir j))
                  × ((passes dir name j ≡ true)
                      × ((k : ℕ) → i ≤ k → k < j → passes dir name k ≡ false))))))
      ⊎ ((find_loop n i dir name ≡ none)
          × ((k : ℕ) → i ≤ k → k < i + n → passes dir name k ≡ false))
unfolding find_loop
find_loop_lem zero i dir name = inr (refl, λ k a b. absurd (omega (arith, a, b)))
find_loop_lem (suc n) i dir name = elim (Bool-cases (is_file (dir i) && found name (dir i))) [
  | inl e ↦
      rw e
        (inl (i, (omega arith, (omega arith, (refl, (e, λ k a b. absurd (omega (arith, a, b))))))))
  | inr e ↦ elim (find_loop_lem n (i + 1) dir name) [
    | inl (j, (a, (b, (p, (q, r))))) ↦
        rw e (
          inl
            (j, (omega (arith, a), (omega (arith, b), (p, (q, later (passes dir name) i j e r))))))
    | inr (p, r) ↦
        rw e (inr (p, λ k a b. later (passes dir name) i (i + 1 + n) e r k a (omega (arith, b))))
  ]
]

-- An entry whose name begins with `base`, and with extension `ext`.
abbrev pub Wanted : List ℕ → List ℕ → DirEntry → Type 0
Wanted base ext e = (base ≡ prefix (length base) e.filename) × (prefix 3 ext ≡ e.extension)

module _ (base ext : List ℕ) (dir : ℕ → DirEntry) (h : IsName base ext) where
  taken :
      (j : ℕ)
      → (is_file (dir j) ≡ true → IsEntry (dir j))
      → passes dir (base ++ 0x2E ∷ ext) j ≡ true
      → (is_file (dir j) ≡ true) × Wanted base ext (dir j)
  taken j k e = let (x, y) = (both_iff _ _).0 e in (x, (found_iff base ext (dir j) h (k x)).0 y)

  passed :
      (j : ℕ)
      → (is_file (dir j) ≡ true → IsEntry (dir j))
      → passes dir (base ++ 0x2E ∷ ext) j ≡ false
      → is_file (dir j) ≡ true
      → ¬ Wanted base ext (dir j)
  passed j k e f w =
      true-ne-false (sym ((both_iff _ _).1 (f, (found_iff base ext (dir j) h (k f)).1 w)) ∙ e)

-- The search of the root directory for a name with a point. It ends with the first entry that is a
-- file, whose name begins with the part before the point and whose extension is the part behind
-- it, or there is no such entry and it reports that. The name need not be the whole of the part
-- before the point.
pub find_file-first :
    (fat : Fat12) (base ext : List ℕ)
    → IsName base ext
    → ((j : ℕ)
        → j < fat.boot_sect.max_root_entries
        → is_file (fat.cache.root_dir j) ≡ true
        → IsEntry (fat.cache.root_dir j))
    → ((j : ℕ) × ((j < fat.boot_sect.max_root_entries)
          × ((find_file fat (base ++ 0x2E ∷ ext) ≡ some (fat.cache.root_dir j))
              × ((is_file (fat.cache.root_dir j) ≡ true)
                  × (Wanted base ext (fat.cache.root_dir j)
                      × ((k : ℕ)
                          → k < j
                          → is_file (fat.cache.root_dir k) ≡ true
                          → ¬ Wanted base ext (fat.cache.root_dir k)))))))
      ⊎ ((find_file fat (base ++ 0x2E ∷ ext) ≡ none)
          × ((k : ℕ)
              → k < fat.boot_sect.max_root_entries
              → is_file (fat.cache.root_dir k) ≡ true
              → ¬ Wanted base ext (fat.cache.root_dir k)))
unfolding find_file
find_file-first fat base ext h all =
    let dir = fat.cache.root_dir in
    let n = fat.boot_sect.max_root_entries in
    elim (find_loop_lem n 0 dir (base ++ 0x2E ∷ ext)) [
      | inl (j, (a, (b, (p, (q, r))))) ↦
          (let l : j < n = omega (arith, b) in
            let (x, y) = taken base ext dir h j (all j l) q in
            inl (
              j,
              (
                l,
                (
                  p,
                  (
                    x,
                    (
                      y,
                      λ k c.
                          passed base ext dir h k (all k (omega (arith, c, l)))
                            (r k (omega arith) c),
                    ),
                  ),
                ),
              ),
            ))
      | inr (p, r) ↦
          inr (p, λ k c. passed base ext dir h k (all k c) (r k (omega arith) (omega (arith, c))))
    ]
