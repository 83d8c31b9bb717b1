-- ===== src/Mm/Paging/Kept.antt =====
-- What mapping a page leaves alone: every frame in use but the directory and the table.
use pso.Base.{
  ℕ, ◌+◌, ◌-◌, ◌*◌, ◌/◌, ◌%◌, ◌^◌, ◌≤◌, ◌<◌, ◌≡◌, ◌≢◌, ◌⊎◌, inl, inr, refl, sym, ap, ◌∙◌, subst,
  true, false, ◌||◌, ◌==◌, update, arith, ==_refl, ==_ne,
}
use pso.Mm.{
  FrameInfo, Entry, Mm, mm_mem_kalloc, page_frame_info_alloc, krn_mem_start, usr_mem_start,
  no_entry, page_size,
}
use pso.Mm.Frames.{used, Outcome, full, given, page_frame_info_alloc-Outcome}
use pso.Mm.Paging.{ind_td, ind_tp, set_entry, frame_of}

-- A page of the user, or a page frame of the kernel that is in use.
abbrev pub Taken : Mm → ℕ → Type 0
Taken m u = (1024 ≤ u) ⊎ ((256 ≤ u) × (u < 1024) × (used m.kernel_pf_info (u - 256) ≡ true))

-- A page below those of the user. When the kernel's own frames are used up, the search for a free one
-- goes on behind the array, and hands out pages above.
abbrev pub IsKernelPage : ℕ → Type 0
IsKernelPage page = page < usr_mem_start

-- Every frame in use stays in use.
pub record Grows (m m' : Mm) : Type 0 where
  pub taken : (u : ℕ) → Taken m u → Taken m' u

pub set_entry-other :
    (t i u : ℕ) (e : Entry) (m : Mm) → u ≢ t → (set_entry t i e m).tables u ≡ m.tables u
set_entry-other t i u e m d = rw (==_ne u t d) refl

pub set_entry_self :
    (t i : ℕ) (e : Entry) (m : Mm) → (set_entry t i e m).tables t ≡ update (m.tables t) i e
set_entry_self t i e m = rw (==_refl t) refl

pub frame_of-same :
    (v c : ℕ) (m m' : Mm)
    → m'.tables c ≡ m.tables c
    → m'.tables (m.tables c (ind_td v)).base ≡ m.tables (m.tables c (ind_td v)).base
    → frame_of v c m' ≡ frame_of v c m
frame_of-same v c m m' p q =
    ap (λ r. (m'.tables (r (ind_td v)).base (ind_tp v)).base) p ∙ ap (λ r. (r (ind_tp v)).base) q

-- What `mm_mem_kalloc` leaves: a page that was free and is cleared, or `NULL` and page 0 cleared.
pub record Allocated (m : Mm) (r : ℕ × Mm) : Type 0 where
  pub grows : Grows m r.1
  pub same : (u : ℕ) → Taken m u → r.1.tables u ≡ m.tables u
  pub fresh : r.0 ≢ 0 → (Taken m (r.0 / page_size) → ⊥) × Taken r.1 (r.0 / page_size)
  pub below : r.0 / page_size < 1024

Taken-ne_zero : (m : Mm) (u : ℕ) → Taken m u → u ≢ 0
Taken-ne_zero m u (inl h) e = omega arith
Taken-ne_zero m u (inr (a, b, c)) e = omega arith

-- The frame that an allocation hands out was free before, and is in use then.
module _ (m : Mm) (k : ℕ) (pfi : FrameInfo)
    (b : IsKernelPage ((krn_mem_start + k * page_size) % 2 ^ 32)) (lt : k + 32 < 32 * 96)
    (free : used m.kernel_pf_info k ≡ false)
    (h : (i : ℕ) → used pfi i ≡ (i == k || used m.kernel_pf_info i)) where
  given-lt : k < 768
  given-lt = omega arith

  given_frame : (krn_mem_start + k * page_size) % 2 ^ 32 / page_size ≡ 256 + k
  given_frame = let lt = given-lt in omega arith

  given-free : Taken m (256 + k) → ⊥
  given-free (inl a) = let lt = given-lt in omega arith
  given-free (inr (x, y, z)) =
      let e : 256 + k - 256 ≡ k = omega arith in cc (sym (ap (used m.kernel_pf_info) e) ∙ z, free)

  given-Grows : (t : ℕ → ℕ → Entry) → Grows m (record m { kernel_pf_info = pfi; tables = t })
  given-Grows t = record {
    taken = λ u x. elim x [
      | inl a ↦ inl a
      | inr (a, c, d) ↦ inr (a, c, h (u - 256) ∙ rw d (ground arith))
    ];
  }

  given-Taken :
      (t : ℕ → ℕ → Entry) → Taken (record m { kernel_pf_info = pfi; tables = t }) (256 + k)
  given-Taken t =
      let e : 256 + k - 256 ≡ k = omega arith in
      let lt = given-lt in
      inr (omega arith, omega arith, ap (used pfi) e ∙ h k ∙ rw (==_refl k) refl)

kalloc_result :
    (m : Mm) (r : ℕ × FrameInfo)
    → IsKernelPage r.0
    → Outcome m.kernel_pf_info 96 krn_mem_start r
    → Allocated m (
      r.0,
      record m { kernel_pf_info = r.1; tables = update m.tables (r.0 / page_size) (λ i. no_entry) },
    )
kalloc_result m (page, pfi) b (full h) = record {
  grows = record { taken = λ u t. t };
  same = λ u t. rw (==_ne u 0 (Taken-ne_zero m u t)) refl;
  fresh = λ n. absurd (n refl);
  below = omega arith;
}
kalloc_result m (page, pfi) b (given k pfi' lt free h) =
    let e = given_frame m k pfi b lt free h in
    let small = given-lt m k pfi b lt free h in
    let t =
      update m.tables ((krn_mem_start + k * page_size) % 2 ^ 32 / page_size) (λ i. no_entry) in
    record {
      grows = given-Grows m k pfi b lt free h t;
      same = λ u x.
          rw (==_ne u _ (λ d. given-free m k pfi b lt free h (subst (Taken m) (d ∙ e) x))) refl;
      fresh = λ n. (
        λ x. given-free m k pfi b lt free h (subst (Taken m) e x),
        subst (Taken (record m { kernel_pf_info = pfi; tables = t })) (sym e)
            (given-Taken m k pfi b lt free h t),
      );
      below = omega (arith, e, small);
    }

pub mm_mem_kalloc-Allocated :
    (m : Mm) → IsKernelPage (mm_mem_kalloc m).0 → Allocated m (mm_mem_kalloc m)
unfolding mm_mem_kalloc
mm_mem_kalloc-Allocated m b =
    kalloc_result m (page_frame_info_alloc m.kernel_pf_info 96 krn_mem_start) b
      (page_frame_info_alloc-Outcome m.kernel_pf_info 96 krn_mem_start)
