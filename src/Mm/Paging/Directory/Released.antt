-- ===== src/Mm/Paging/Directory/Released.antt =====
-- Which page frames the freeing of a table gives back.
use pso.Base.{
  ℕ, zero, suc, ◌+◌, ◌-◌, ◌*◌, ◌/◌, ◌%◌, ◌^◌, ◌≤◌, ◌<◌, ◌≡◌, ◌≢◌, refl, ap, ◌∙◌, Bool, true, false,
  ◌&&◌, ◌||◌, ◌==◌, if◌then◌else◌, ltb, leb, sub32, arith, Bool-cases, inl, inr,
}
use pso.Mm.{FrameInfo, Mm, put_bit, frame_index, mm_mem_free, page_size, usr_mem_start}
use pso.Mm.Frames.{used}
use pso.Mm.Paging.{is_present}
use pso.Mm.Paging.Directory.{in_use, free_entry, free_loop}
use pso.Mm.Paging.Directory.Free.{frees, frees_same, other_entry}

-- Clearing the bit of frame `x` of an array.
put_clears :
    (x u : ℕ) (pfi : FrameInfo)
    → used (put_bit (x / 32) (x % 32) false pfi) u ≡ (if u == x then false else used pfi u)
put_clears x u pfi = ground arith

is_kernel :
    (b u : ℕ)
    → 1024 + u < 2 ^ 19
    → (ltb (b * page_size) usr_mem_start || leb (2 ^ 31) (b * page_size)) ≡ true
    → (b == 1024 + u) ≡ false
is_kernel b u l e = ground (arith, l, e)

user_index :
    (b : ℕ)
    → (ltb (b * page_size) usr_mem_start || leb (2 ^ 31) (b * page_size)) ≡ false
    → (1024 ≤ b) × (frame_index (sub32 (b * page_size) usr_mem_start) ≡ b - 1024)
user_index b e = (ground (arith, e), ground (arith, e))

moved_by : (b u : ℕ) → 1024 ≤ b → (u == b - 1024) ≡ (b == 1024 + u)
moved_by b u l = ground (arith, l)

-- Giving back frame `b`: the user's frame `u` is free then if it is that one, and else as before.
free_used :
    (b u : ℕ) (m : Mm)
    → 1024 + u < 2 ^ 19
    → used (mm_mem_free (b * page_size) m).usr_pf_info u
      ≡ (if b == 1024 + u then false else used m.usr_pf_info u)
unfolding mm_mem_free
free_used b u m l =
    elim (Bool-cases (ltb (b * page_size) usr_mem_start || leb (2 ^ 31) (b * page_size))) [
      | inl e ↦ rw (e, is_kernel b u l e) refl
      | inr e ↦
          (let (x, y) = user_index b e in
            rw e (
              put_clears (frame_index (sub32 (b * page_size) usr_mem_start)) u m.usr_pf_info
              ∙ ap (λ i. if u == i then false else used m.usr_pf_info u) y
              ∙ ap (λ z. if z then false else used m.usr_pf_info u) (moved_by b u x)))
    ]

module _ (task_cr3 : ℕ → ℕ) (t d u : ℕ) (bound : 1024 + u < 2 ^ 19) where
  -- Whether a round gives back the user's frame `u`.
  abbrev gives : ℕ → Mm → Bool
  gives i m = frees task_cr3 t d i m && (m.tables t i).base == 1024 + u

  round_used :
      (i : ℕ) (m : Mm)
      → used (free_entry task_cr3 t d i m).usr_pf_info u
        ≡ (if gives i m then false else used m.usr_pf_info u)
  unfolding free_entry
  round_used i m = elim (Bool-cases (is_present (m.tables t i))) [
    | inl e ↦ elim (Bool-cases (in_use task_cr3 (m.tables t i) d i m)) [
      | inl g ↦ rw (e, g) refl
      | inr g ↦ rw (e, g) (free_used (m.tables t i).base u m bound)
    ]
    | inr e ↦ rw e refl
  ]

  gives_same : (i k : ℕ) (m : Mm) → k ≢ i → gives k (free_entry task_cr3 t d i m) ≡ gives k m
  gives_same i k m n = rw (frees_same task_cr3 t d i k m n, other_entry task_cr3 t d i k m n) refl

  kept :
      (n i : ℕ) (m : Mm)
      → ((k : ℕ) → i ≤ k → k < i + n → gives k m ≡ false)
      → used (free_loop task_cr3 n i t d m).usr_pf_info u ≡ used m.usr_pf_info u
  unfolding free_loop
  kept zero i m h = refl
  kept (suc n) i m h =
      kept n (i + 1) (free_entry task_cr3 t d i m) (λ k a b.
        gives_same i k m (λ e. omega (arith, a, e)) ∙ h k (omega (arith, a)) (omega (arith, b)))
      ∙ round_used i m
      ∙ ap (λ z. if z then false else used m.usr_pf_info u) (h i (omega arith) (omega arith))

-- What freeing table `t` leaves: which of its entries are present, and which of the user's page frames
-- are in use.
pub record IsFreed (task_cr3 : ℕ → ℕ) (t d : ℕ) (m m' : Mm) : Type 0 where
  pub entries :
      (k : ℕ)
      → k < 1024
      → m'.tables t k ≡ (
          if frees task_cr3 t d k m
          then record (m.tables t k) { attr = λ i. if i == 0 then false else (m.tables t k).attr i }
          else m.tables t k)
  pub given_back :
      (k u : ℕ)
      → k < 1024
      → 1024 + u < 2 ^ 19
      → frees task_cr3 t d k m ≡ true
      → (m.tables t k).base ≡ 1024 + u
      → used m'.usr_pf_info u ≡ false
  pub kept :
      (u : ℕ)
      → 1024 + u < 2 ^ 19
      → ((k : ℕ) → k < 1024 → frees task_cr3 t d k m ≡ true → (m.tables t k).base ≢ 1024 + u)
      → used m'.usr_pf_info u ≡ used m.usr_pf_info u
