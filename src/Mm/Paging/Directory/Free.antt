-- ===== src/Mm/Paging/Directory/Free.antt =====
-- What freeing a table leaves of its entries.
use pso.Base.{
  ℕ, zero, suc, ◌+◌, ◌*◌, ◌<◌, ◌≡◌, ◌≢◌, refl, ap, ◌∙◌, Bool, true, false, ◌&&◌, ◌||◌, not, ◌==◌,
  if◌then◌else◌, ltb, leb, ◌^◌, arith, Bool-cases, inl, inr, subst, ==_refl,
}
use pso.Mm.{Entry, Mm, mm_mem_free, page_size, usr_mem_start}
use pso.Mm.Paging.{is_present, with_bit, p_bit, mm_times_mapped, times_loop}
use pso.Mm.Paging.Directory.{in_use, free_entry, free_loop, mm_table_free}

free_tables : (page : ℕ) (m : Mm) → (mm_mem_free page m).tables ≡ m.tables
unfolding mm_mem_free
free_tables page m = elim (Bool-cases (ltb page usr_mem_start || leb (2 ^ 31) page)) [
  | inl e ↦ rw e refl
  | inr e ↦ rw e refl
]

module _ (task_cr3 : ℕ → ℕ) where
  -- Two memories whose entries lead to the same frames.
  abbrev SameBases : Mm → Mm → Type 0
  SameBases m m' = (f j : ℕ) → (m'.tables f j).base ≡ (m.tables f j).base

  times_same :
      (n i frame d k : ℕ) (m m' : Mm)
      → SameBases m m'
      → times_loop n i task_cr3 frame d k m' ≡ times_loop n i task_cr3 frame d k m
  unfolding times_loop
  times_same zero i frame d k m m' s = refl
  times_same (suc n) i frame d k m m' s =
      rw
        (
          times_same n (i + 1) frame d k m m' s,
          s (task_cr3 i) d,
          s (m.tables (task_cr3 i) d).base k,
        )
        refl

  -- Whether a round is to free the page of its entry: it is present, and it is neither shared nor to be
  -- copied on write, or no more than one task maps it.
  abbrev pub frees : ℕ → ℕ → ℕ → Mm → Bool
  frees t d i m =
      let e = m.tables t i in
      e.attr 0 && not ((e.attr 9 || e.attr 10) && ltb 1 (mm_times_mapped task_cr3 e.base d i m))

  entry_after :
      (t d i : ℕ) (m : Mm) (f j : ℕ)
      → (free_entry task_cr3 t d i m).tables f j ≡ (
          if frees t d i m && (f == t && j == i)
          then with_bit p_bit false (m.tables t i)
          else m.tables f j)
  unfolding free_entry
  entry_after t d i m f j = elim (Bool-cases (is_present (m.tables t i))) [
    | inl e ↦ elim (Bool-cases (in_use task_cr3 (m.tables t i) d i m)) [
      | inl g ↦ rw (e, g) refl
      | inr g ↦ rw (e, g, free_tables ((m.tables t i).base * page_size) m) (ground arith)
    ]
    | inr e ↦ rw e refl
  ]

  keeps_base :
      (b : Bool) (f j t i : ℕ) (m : Mm)
      → (if b && (f == t && j == i) then with_bit p_bit false (m.tables t i) else m.tables f j).base
        ≡ (m.tables f j).base
  keeps_base b f j t i m = elim (Bool-cases (b && (f == t && j == i))) [
    | inl e ↦ rw e (
        ap (λ x. (m.tables x i).base) (left b f t (j == i) e)
        ∙ ap (λ x. (m.tables f x).base) (right b (f == t) j i e))
    | inr e ↦ rw e refl
  ]
    where
      left : (b : Bool) (f t : ℕ) (c : Bool) → (b && (f == t && c)) ≡ true → t ≡ f
      left b f t c e = ground (arith, e)

      right : (b c : Bool) (j i : ℕ) → (b && (c && j == i)) ≡ true → i ≡ j
      right b c j i e = ground (arith, e)

  same_bases : (t d i : ℕ) (m : Mm) → SameBases m (free_entry task_cr3 t d i m)
  same_bases t d i m f j =
      ap (λ e. e.base) (entry_after t d i m f j) ∙ keeps_base (frees t d i m) f j t i m

  times_after :
      (t d i frame k : ℕ) (m : Mm)
      → mm_times_mapped task_cr3 frame d k (free_entry task_cr3 t d i m)
        ≡ mm_times_mapped task_cr3 frame d k m
  unfolding mm_times_mapped
  times_after t d i frame k m =
      times_same 32 0 frame d k m (free_entry task_cr3 t d i m) (same_bases t d i m)

  pub other_entry :
      (t d i k : ℕ) (m : Mm) → k ≢ i → (free_entry task_cr3 t d i m).tables t k ≡ m.tables t k
  other_entry t d i k m n =
      entry_after t d i m t k ∙ rw (differs (frees t d i m) (t == t) k i n) refl
    where
      differs : (b c : Bool) (k i : ℕ) → k ≢ i → (b && (c && k == i)) ≡ false
      differs b c k i n = ground (arith, n)

  abbrev pub Freed : ℕ → ℕ → ℕ → Mm → Entry
  Freed t d k m = if frees t d k m then with_bit p_bit false (m.tables t k) else m.tables t k

  at_entry :
      (t d i k : ℕ) (m : Mm) → i ≡ k → (free_entry task_cr3 t d i m).tables t k ≡ Freed t d k m
  at_entry t d i k m e =
      subst (λ k. (free_entry task_cr3 t d i m).tables t k ≡ Freed t d k m) e
        (entry_after t d i m t i ∙ rw (==_refl t, ==_refl i, and_true (frees t d i m)) refl)
    where
      and_true : (b : Bool) → (b && true) ≡ b
      and_true b = ground arith

  loop_lem :
      (n i t d : ℕ) (m : Mm) (k : ℕ)
      → (free_loop task_cr3 n i t d m).tables t k
        ≡ (if leb i k && ltb k (i + n) then Freed t d k m else m.tables t k)
  unfolding free_loop
  loop_lem zero i t d m k = rw (nothing i k) refl
    where
      nothing : (i k : ℕ) → (leb i k && ltb k (i + zero)) ≡ false
      nothing i k = ground arith
  loop_lem (suc n) i t d m k =
      let m' = free_entry task_cr3 t d i m in
      elim (Bool-cases (k == i)) [
        | inl e ↦
            loop_lem n (i + 1) t d m' k
            ∙ rw (before i k n e, within i k n e) (at_entry t d i k m (is_same k i e))
        | inr e ↦
            (let x = not_same k i e in
              loop_lem n (i + 1) t d m' k
              ∙ rw
                  (
                    behind i k n e,
                    other_entry t d i k m x,
                    times_after t d i (m.tables t k).base k m,
                  )
                  refl)
      ]
    where
      before : (i k n : ℕ) → (k == i) ≡ true → (leb (i + 1) k && ltb k (i + 1 + n)) ≡ false
      before i k n e = ground (arith, e)

      within : (i k n : ℕ) → (k == i) ≡ true → (leb i k && ltb k (i + suc n)) ≡ true
      within i k n e = ground (arith, e)

      behind :
          (i k n : ℕ)
          → (k == i) ≡ false
          → (leb (i + 1) k && ltb k (i + 1 + n)) ≡ (leb i k && ltb k (i + suc n))
      behind i k n e = ground (arith, e)

      is_same : (k i : ℕ) → (k == i) ≡ true → i ≡ k
      is_same k i e = ground (arith, e)

      not_same : (k i : ℕ) → (k == i) ≡ false → k ≢ i
      not_same k i e = ground (arith, e)

  inside_table : (k : ℕ) → k < 1024 → (leb 0 k && ltb k (0 + 1024)) ≡ true
  inside_table k l = ground (arith, l)

  pub entries_lem :
      (t d : ℕ) (m : Mm) (k : ℕ)
      → k < 1024
      → (mm_table_free task_cr3 t d m).tables t k ≡ Freed t d k m
  unfolding mm_table_free
  entries_lem t d m k l = loop_lem 1024 0 t d m k ∙ rw (inside_table k l) refl

  -- A round on another entry changes nothing of whether an entry is freed.
  pub frees_same :
      (t d i k : ℕ) (m : Mm) → k ≢ i → frees t d k (free_entry task_cr3 t d i m) ≡ frees t d k m
  frees_same t d i k m n =
      rw (other_entry t d i k m n, times_after t d i (m.tables t k).base k m) refl
