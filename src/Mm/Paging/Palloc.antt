-- ===== src/Mm/Paging/Palloc.antt =====
-- Which page `sys_palloc` hands out.
use pso.Base.{
  ℕ, zero, suc, ◌+◌, ◌*◌, ◌≤◌, ◌<◌, ◌≡◌, ◌⊎◌, refl, sym, ap, ◌∙◌, subst, Bool, true, false, inl,
  inr, Bool-cases, not, ◌&&◌, Option, none, some, if◌then◌else◌, arith,
}
use pso.Mm.{Entry, Mm, page_size}
use pso.Mm.Paging.{
  is_present, is_requested, size_bit, set_entry, requested, find_free, take_free, palloc_loop,
  sys_palloc,
}

-- An entry that is neither present nor requested.
abbrev pub untouched : Entry → Bool
untouched e = not (is_present e) && not (is_requested e)

-- Whether page `j` of the table of entry `i` can be handed out: in a table that is there, its entry is
-- neither present nor requested; where there is none, the entry of the directory is not requested.
abbrev pub is_available : ℕ → ℕ → ℕ → Mm → Bool
is_available cr3 i j m =
    let d = m.tables cr3 i in
    if is_present d
    then not (d.attr size_bit) && untouched (m.tables d.base j)
    else not (is_requested d)

-- The page marked as requested: in its table, or where there is none in the directory.
abbrev pub marked : ℕ → ℕ → ℕ → Mm → Mm
marked cr3 i j m =
    let d = m.tables cr3 i in
    if is_present d
    then set_entry d.base j (requested (m.tables d.base j)) m
    else set_entry cr3 i (requested d) m

-- The first untouched entry from `j` on, `n` of them.
abbrev Found : ℕ → ℕ → (ℕ → Entry) → Option ℕ → Type 0
Found n j t none = (k : ℕ) → j ≤ k → k < j + n → untouched (t k) ≡ false
Found n j t (some k) =
    (j ≤ k)
    × (k < j + n)
    × (untouched (t k) ≡ true)
    × ((l : ℕ) → j ≤ l → l < k → untouched (t l) ≡ false)

split_first : (i j : ℕ) → i ≤ j → (j ≡ i) ⊎ (i + 1 ≤ j)
split_first i j a = ground (arith, a)

later :
    (n j : ℕ) (t : ℕ → Entry) (r : Option ℕ)
    → untouched (t j) ≡ false
    → Found n (j + 1) t r
    → Found (suc n) j t r
later n j t none e h = λ k a b. elim (split_first j k a) [
  | inl q ↦ ap (λ x. untouched (t x)) q ∙ e
  | inr c ↦ h k c (omega (arith, b))
]
later n j t (some k) e (a, b, c, d) = (
  omega (arith, a),
  omega (arith, b),
  c,
  λ l x y. elim (split_first j l x) [ inl q ↦ ap (λ z. untouched (t z)) q ∙ e | inr z ↦ d l z y ],
)

find_free-Found : (n j : ℕ) (t : ℕ → Entry) → Found n j t (find_free n j t)
unfolding find_free
find_free-Found zero j t = λ k a b. absurd (omega (arith, a, b))
find_free-Found (suc n) j t = elim (Bool-cases (untouched (t j))) [
  | inl e ↦ rw e (omega arith, omega arith, e, λ l a b. absurd (omega (arith, a, b)))
  | inr e ↦ rw e (later n j t (find_free n (j + 1) t) e (find_free-Found n (j + 1) t))
]

-- No page of the table of entry `i` can be handed out.
abbrev pub IsUsedUp : ℕ → ℕ → Mm → Type 0
IsUsedUp cr3 i m = (j : ℕ) → j < 1024 → is_available cr3 i j m ≡ false

-- The answer to a request, over the entries of the directory from `i` on, `n` of them: the lowest page
-- that can be handed out, marked as requested, or `NULL` when there is none.
pub data IsAnswer (n i cr3 : ℕ) (m : Mm) : ℕ × Mm → Type 0 where
  exhausted : ((a : ℕ) → i ≤ a → a < i + n → IsUsedUp cr3 a m) → IsAnswer n i cr3 m (0, m)
  granted :
      (a b : ℕ)
      → i ≤ a
      → a < i + n
      → b < 1024
      → is_available cr3 a b m ≡ true
      → ((c : ℕ) → i ≤ c → c < a → IsUsedUp cr3 c m)
      → ((d : ℕ) → d < b → is_available cr3 a d m ≡ false)
      → IsAnswer n i cr3 m (page_size * 1024 * a + page_size * b, marked cr3 a b m)

answer_later :
    (n i cr3 : ℕ) (m : Mm) (r : ℕ × Mm)
    → IsUsedUp cr3 i m
    → IsAnswer n (i + 1) cr3 m r
    → IsAnswer (suc n) i cr3 m r
answer_later n i cr3 m r u (exhausted h) = exhausted (λ a x y. elim (split_first i a x) [
  | inl q ↦ subst (λ z. IsUsedUp cr3 z m) (sym q) u
  | inr z ↦ h a z (omega (arith, y))
])
answer_later n i cr3 m r u (granted a b x y l v h k) =
    granted a b (omega (arith, x)) (omega (arith, y)) l v
      (λ c s t. elim (split_first i c s) [
        | inl q ↦ subst (λ z. IsUsedUp cr3 z m) (sym q) u
        | inr z ↦ h c z t
      ])
      k

-- What is seen of a page, by the entry of its table.
in_table :
    (cr3 i j : ℕ) (m : Mm)
    → is_present (m.tables cr3 i) ≡ true
    → (m.tables cr3 i).attr size_bit ≡ false
    → is_available cr3 i j m ≡ untouched (m.tables (m.tables cr3 i).base j)
in_table cr3 i j m p s = rw (p, s) refl

in_big :
    (cr3 i : ℕ) (m : Mm)
    → is_present (m.tables cr3 i) ≡ true
    → (m.tables cr3 i).attr size_bit ≡ true
    → IsUsedUp cr3 i m
in_big cr3 i m p s j l = rw (p, s) refl

in_none :
    (cr3 i j : ℕ) (m : Mm)
    → is_present (m.tables cr3 i) ≡ false
    → is_available cr3 i j m ≡ not (is_requested (m.tables cr3 i))
in_none cr3 i j m p = rw p refl

-- The table of entry `i` is searched.
table_answer :
    (n i cr3 : ℕ) (m : Mm) (o : Option ℕ) (rest : ℕ × Mm)
    → is_present (m.tables cr3 i) ≡ true
    → (m.tables cr3 i).attr size_bit ≡ false
    → Found 1024 0 (m.tables (m.tables cr3 i).base) o
    → IsAnswer n (i + 1) cr3 m rest
    → IsAnswer (suc n) i cr3 m (take_free i (m.tables cr3 i).base o rest m)
table_answer n i cr3 m none rest p s f r =
    answer_later n i cr3 m rest
      (λ j l. in_table cr3 i j m p s ∙ f j (omega arith) (omega (arith, l))) r
table_answer n i cr3 m (some k) rest p s (a, b, c, d) r =
    subst (λ z. IsAnswer (suc n) i cr3 m (page_size * 1024 * i + page_size * k, z))
      (marked_there cr3 i k m p)
      (granted i k (omega arith) (omega arith) (omega (arith, b)) (in_table cr3 i k m p s ∙ c)
        (λ x y z. absurd (omega (arith, y, z)))
        (λ x y. in_table cr3 i x m p s ∙ d x (omega arith) y))
  where
    marked_there :
        (cr3 i k : ℕ) (m : Mm)
        → is_present (m.tables cr3 i) ≡ true
        → marked cr3 i k m
          ≡ set_entry (m.tables cr3 i).base k (requested (m.tables (m.tables cr3 i).base k)) m
    marked_there cr3 i k m p = rw p refl

-- There is no table at entry `i`, and none has been requested.
none_answer :
    (n i cr3 : ℕ) (m : Mm)
    → is_present (m.tables cr3 i) ≡ false
    → is_requested (m.tables cr3 i) ≡ false
    → IsAnswer
        (suc n)
        i
        cr3
        m
        (page_size * 1024 * i, set_entry cr3 i (requested (m.tables cr3 i)) m)
none_answer n i cr3 m p q =
    subst (λ z. IsAnswer (suc n) i cr3 m (page_size * 1024 * i, z)) (marked_here cr3 i m p)
      (subst (λ v. IsAnswer (suc n) i cr3 m (v, marked cr3 i 0 m)) (whole i)
        (granted i 0 (omega arith) (omega arith) (omega arith) (in_none cr3 i 0 m p ∙ ap not q)
          (λ x y z. absurd (omega (arith, y, z))) (λ x y. absurd (omega (arith, y)))))
  where
    whole : (i : ℕ) → page_size * 1024 * i + page_size * 0 ≡ page_size * 1024 * i
    whole i = omega arith

    marked_here :
        (cr3 i : ℕ) (m : Mm)
        → is_present (m.tables cr3 i) ≡ false
        → marked cr3 i 0 m ≡ set_entry cr3 i (requested (m.tables cr3 i)) m
    marked_here cr3 i m p = rw p refl

palloc_loop-IsAnswer : (n i cr3 : ℕ) (m : Mm) → IsAnswer n i cr3 m (palloc_loop n i cr3 m)
unfolding palloc_loop
palloc_loop-IsAnswer zero i cr3 m = exhausted (λ a x y. absurd (omega (arith, x, y)))
palloc_loop-IsAnswer (suc n) i cr3 m =
    let d = m.tables cr3 i in
    let r = palloc_loop-IsAnswer n (i + 1) cr3 m in
    elim (Bool-cases (is_present d)) [
      | inl p ↦ (elim (Bool-cases (d.attr size_bit)) [
        | inl s ↦ rw (p, s) (answer_later n i cr3 m _ (in_big cr3 i m p s) r)
        | inr s ↦
            rw (p, s)
              (table_answer n i cr3 m (find_free 1024 0 (m.tables d.base)) _ p s
                (find_free-Found 1024 0 (m.tables d.base)) r)
      ])
      | inr p ↦ (elim (Bool-cases (is_requested d)) [
        | inl q ↦ rw (p, q) (answer_later n i cr3 m _ (λ j l. in_none cr3 i j m p ∙ ap not q) r)
        | inr q ↦ rw (p, q) (none_answer n i cr3 m p q)
      ])
    ]

-- Requests ask for no page frame: which are in use does not change.
pub IsAnswer-frames :
    (n i cr3 : ℕ) (m : Mm) (r : ℕ × Mm)
    → IsAnswer n i cr3 m r
    → (r.1.usr_pf_info ≡ m.usr_pf_info) × (r.1.kernel_pf_info ≡ m.kernel_pf_info)
IsAnswer-frames n i cr3 m r (exhausted h) = (refl, refl)
IsAnswer-frames n i cr3 m r (granted a b x y l v h k) =
    elim (Bool-cases (is_present (m.tables cr3 a))) [
      | inl p ↦ rw p (refl, refl)
      | inr p ↦ rw p (refl, refl)
    ]

-- `sys_palloc` hands out the lowest page above the first 4 MB that can be handed out, and marks as
-- requested its entry in its table, or where there is no table the directory's; it returns `NULL`, and
-- changes nothing, when there is no such page. It takes no page frame, whether there is a free one or
-- not.
pub sys_palloc-IsAnswer :
    (cr3 : ℕ) (m : Mm)
    → IsAnswer 1023 1 cr3 m (sys_palloc cr3 m)
      × ((sys_palloc cr3 m).1.usr_pf_info ≡ m.usr_pf_info)
      × ((sys_palloc cr3 m).1.kernel_pf_info ≡ m.kernel_pf_info)
unfolding sys_palloc
sys_palloc-IsAnswer cr3 m =
    let h = palloc_loop-IsAnswer 1023 1 cr3 m in
    let (a, b) = IsAnswer-frames 1023 1 cr3 m (palloc_loop 1023 1 cr3 m) h in (h, a, b)
