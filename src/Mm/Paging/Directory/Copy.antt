-- ===== src/Mm/Paging/Directory/Copy.antt =====
-- What the loop of `mm_dir_fork` needs and leaves, round by round.
use pso.Base.{
  ℕ, zero, suc, ◌+◌, ◌≤◌, ◌<◌, ◌≡◌, ◌≢◌, refl, sym, ap, ◌∙◌, subst, true, false, inl, inr, ◌⊎◌,
  if◌then◌else◌, arith,
}
use pso.Mm.{FrameInfo, Entry, Mm}
use pso.Mm.Paging.{is_present}
use pso.Mm.Paging.Directory.Step.{kernel_frame, IsPair, IsCopied, IsStepped}
use pso.Mm.Paging.Kept.{Taken, IsKernelPage, Grows}

-- The number of present entries among the `n` from `i` on: the tables to copy.
abbrev pub table_count : ℕ → ℕ → (ℕ → Entry) → ℕ
table_count zero i dir = 0
table_count (suc n) i dir =
    let rest = table_count n (i + 1) dir in if is_present (dir i) then suc rest else rest

-- The next `n` requests of the kernel are granted, with its own frames.
abbrev pub HasFrames : ℕ → FrameInfo → Type 0
HasFrames zero pfi = Unit
HasFrames (suc n) pfi =
    ((kernel_frame pfi).0 ≢ 0)
    × IsKernelPage (kernel_frame pfi).0
    × HasFrames n (kernel_frame pfi).1

-- A table of the directory `old`: a frame in use, and none of the two directories.
abbrev pub IsTableOf : Mm → ℕ → ℕ → ℕ → Type 0
IsTableOf m old new t = Taken m t × (t ≢ old) × (t ≢ new)

-- The entries from `i` on, `n` of them, of the directory `old` can be copied to `new`.
pub record IsForkable (n i old new : ℕ) (dir : ℕ → Entry) (m : Mm) : Type 0 where
  pub dirs : Taken m old × Taken m new × (old ≢ new)
  pub tables :
      (j : ℕ) → i ≤ j → j < i + n → is_present (dir j) ≡ true → IsTableOf m old new (dir j).base
  pub distinct :
      (j k : ℕ)
      → i ≤ j
      → j < k
      → k < i + n
      → is_present (dir j) ≡ true
      → is_present (dir k) ≡ true
      → (dir j).base ≢ (dir k).base

-- No present entry from `i` on, `n` of them, leads to the frame `u`.
abbrev pub IsNoTable : ℕ → ℕ → (ℕ → Entry) → ℕ → Type 0
IsNoTable n i dir u = (j : ℕ) → i ≤ j → j < i + n → is_present (dir j) ≡ true → u ≢ (dir j).base

-- They have been copied, and nothing else that is in use has changed.
pub record IsForked (n i new : ℕ) (dir : ℕ → Entry) (m m' : Mm) : Type 0 where
  pub grows : Grows m m'
  pub copied :
      (j : ℕ)
      → i ≤ j
      → j < i + n
      → is_present (dir j) ≡ true
      → IsCopied m (dir j) (m.tables (dir j).base) (m'.tables new j) m'
  pub absent :
      (j : ℕ) → i ≤ j → j < i + n → is_present (dir j) ≡ false → m'.tables new j ≡ m.tables new j
  pub before : (j : ℕ) → j < i → m'.tables new j ≡ m.tables new j
  pub same : (u : ℕ) → Taken m u → u ≢ new → IsNoTable n i dir u → m'.tables u ≡ m.tables u

-- The end of the loop.
pub none_left : (i new : ℕ) (dir : ℕ → Entry) (m : Mm) → IsForked 0 i new dir m m
none_left i new dir m = record {
  grows = record { taken = λ u x. x };
  copied = λ j a b p. absurd (omega arith);
  absent = λ j a b p. absurd (omega arith);
  before = λ j a. refl;
  same = λ u x d t. refl;
}

-- An entry that is not present is passed over.
pub skipped-IsForkable :
    (n i old new : ℕ) (dir : ℕ → Entry) (m : Mm)
    → IsForkable (suc n) i old new dir m
    → IsForkable n (i + 1) old new dir m
skipped-IsForkable n i old new dir m f = record {
  dirs = f.dirs;
  tables = λ j a b p. f.tables j (omega arith) (omega arith) p;
  distinct = λ j k a l b p q. f.distinct j k (omega arith) l (omega arith) p q;
}

-- The first entry, or one behind it.
split_first : (i j : ℕ) → i ≤ j → (j ≡ i) ⊎ (i + 1 ≤ j)
split_first i j a = ground (arith, a)

pub skipped-IsForked :
    (n i new : ℕ) (dir : ℕ → Entry) (m m' : Mm)
    → is_present (dir i) ≡ false
    → IsForked n (i + 1) new dir m m'
    → IsForked (suc n) i new dir m m'
skipped-IsForked n i new dir m m' q f = record {
  grows = f.grows;
  copied = λ j a b p. elim (split_first i j a) [
    | inl e ↦ absurd (cc (p, q, ap (λ k. is_present (dir k)) e))
    | inr h ↦ f.copied j h (omega arith) p
  ];
  absent = λ j a b p. elim (split_first i j a) [
    | inl e ↦ f.before j (omega (arith, e))
    | inr h ↦ f.absent j h (omega arith) p
  ];
  before = λ j a. f.before j (omega arith);
  same = λ u x d t. f.same u x d (λ j a b p. t j (omega arith) (omega arith) p);
}

-- What stands behind a round: the tables that are still to be copied are as before.
pub stepped-IsForkable :
    (n i old new : ℕ) (dir : ℕ → Entry) (m m₃ : Mm)
    → IsForkable (suc n) i old new dir m
    → Grows m m₃
    → IsForkable n (i + 1) old new dir m₃
stepped-IsForkable n i old new dir m m₃ f g =
    let f' = skipped-IsForkable n i old new dir m f in
    let (x, y, d) = f'.dirs in
    record {
      dirs = (g.taken old x, g.taken new y, d);
      tables = λ j a b p. grown j (f'.tables j a b p);
      distinct = f'.distinct;
    }
  where
    grown : (j : ℕ) → IsTableOf m old new (dir j).base → IsTableOf m₃ old new (dir j).base
    grown j (x, d, e) = (g.taken (dir j).base x, d, e)

-- A copy that was made stays when neither of its tables is written to.
IsCopied-kept :
    (m m₃ m' : Mm) (e c c' : Entry) (t : ℕ → Entry)
    → c' ≡ c
    → m'.tables e.base ≡ m₃.tables e.base
    → m'.tables c.base ≡ m₃.tables c.base
    → IsCopied m e t c m₃
    → IsCopied m e t c' m'
IsCopied-kept m m₃ m' e c c' t q a b h =
    subst (λ z. IsCopied m e t z m') (sym q)
      record {
        attr = h.attr;
        fresh = h.fresh;
        entries = λ k l.
            subst (λ z. IsPair (t k) (z k) (m'.tables c.base k)) (sym a)
              (subst (λ z. IsPair (t k) (m₃.tables e.base k) (z k)) (sym b) (h.entries k l));
      }

-- A copy that is made from a later memory is one from an earlier one.
pub IsCopied-earlier :
    (m m₃ m' : Mm) (e c : Entry) (t t' : ℕ → Entry)
    → Grows m m₃
    → t' ≡ t
    → IsCopied m₃ e t' c m'
    → IsCopied m e t c m'
IsCopied-earlier m m₃ m' e c t t' g q h =
    subst (λ z. IsCopied m e z c m') q
      record { attr = h.attr; fresh = λ x. h.fresh (g.taken c.base x); entries = h.entries }

-- A round on a present entry, and the rounds behind it.
pub stepped-IsForked :
    (n i old new : ℕ) (dir : ℕ → Entry) (m m₃ m' : Mm)
    → is_present (dir i) ≡ true
    → IsForkable (suc n) i old new dir m
    → IsStepped i new (dir i) m m₃
    → IsForked n (i + 1) new dir m₃ m'
    → IsForked (suc n) i new dir m m'
stepped-IsForked n i old new dir m m₃ m' here f st r =
    let c = m₃.tables new i in
    let (base, _, base_new) = f.tables i (omega arith) (omega arith) here in
    let (_, new_taken, _) = f.dirs in
    let first : IsCopied m (dir i) (m.tables (dir i).base) (m'.tables new i) m' =
      IsCopied-kept m m₃ m' (dir i) c (m'.tables new i) (m.tables (dir i).base)
        (r.before i (omega arith))
        (r.same (dir i).base (st.grows.taken (dir i).base base) base_new
          (λ j a b p. f.distinct i j (omega arith) (omega (arith, a)) (omega (arith, b)) here p))
        (r.same c.base st.own (λ q. st.copied.fresh (subst (Taken m) (sym q) new_taken))
          (λ j a b p q.
            (let (y, _, _) = f.tables j (omega (arith, a)) (omega (arith, b)) p in
              st.copied.fresh (subst (Taken m) (sym q) y))))
        st.copied in
    record {
      grows = record { taken = λ u x. r.grows.taken u (st.grows.taken u x) };
      copied = λ j a b p. elim (split_first i j a) [
        | inl e ↦
            subst (λ k. IsCopied m (dir k) (m.tables (dir k).base) (m'.tables new k) m') (sym e)
              first
        | inr h ↦
            (let (y, _, z) = f.tables j a b p in
              IsCopied-earlier m m₃ m' (dir j) (m'.tables new j) (m.tables (dir j).base)
                (m₃.tables (dir j).base) st.grows
                (st.same (dir j).base y z
                  (λ q. f.distinct i j (omega arith) (omega (arith, h)) b here p (sym q)))
                (r.copied j h (omega (arith, b)) p))
      ];
      absent = λ j a b p. elim (split_first i j a) [
        | inl e ↦ absurd (cc (p, here, ap (λ k. is_present (dir k)) e))
        | inr h ↦ r.absent j h (omega (arith, b)) p ∙ st.others j (omega (arith, h))
      ];
      before = λ j a. r.before j (omega (arith, a)) ∙ st.others j (omega (arith, a));
      same = λ u x d t.
          r.same u (st.grows.taken u x) d (λ j a b p. t j (omega (arith, a)) (omega (arith, b)) p)
          ∙ st.same u x d (t i (omega arith) (omega arith) here);
    }
