-- ===== src/Mm/Frames.antt =====
-- Page frames: what `page_frame_info_alloc` hands out, and `mm_mem_free` takes back.
use pso.Base.{
  ℕ, zero, suc, ◌+◌, ◌-◌, ◌*◌, ◌/◌, ◌%◌, ◌^◌, ◌≤◌, ◌<◌, ◌≡◌, ◌≢◌, refl, sym, ap, ◌∙◌, subst, Bool,
  true, false, ◌||◌, ◌==◌, if◌then◌else◌, leb, ltb, sub32, arith, Bool-cases, inl, inr,
}
use pso.Mm.{
  Bits, FrameInfo, Mm, put_bit, occupied, skip_occupied, first_clear, page_frame_info_alloc,
  mm_mem_alloc, frame_index, mm_mem_free, usr_mem_start, page_size,
}

-- Whether page frame number `k` of an array is in use.
abbrev pub used : FrameInfo → ℕ → Bool
used pfi k = pfi (k / 32) (k % 32)

same_of : (a b : ℕ) → (a == b) ≡ true → a ≡ b
same_of a b h = ground (arith, h)

occupied_all : (n i : ℕ) (w : Bits) → occupied n w ≡ true → i < n → w i ≡ true
unfolding occupied
occupied_all zero i w h b = absurd (omega (arith, b))
occupied_all (suc n) i w h b = elim (Bool-cases (i == n)) [
  | inl e ↦ subst (λ k. w k ≡ true) (sym (same_of i n e)) (ground (arith, h))
  | inr e ↦ occupied_all n i w (ground (arith, h)) (ground (arith, e, b))
]

clear_bit : (n : ℕ) (w : Bits) → occupied n w ≡ false → (k : ℕ) × (k < n) × (w k ≡ false)
unfolding occupied
clear_bit zero w h = absurd (ground (arith, h))
clear_bit (suc n) w h = elim (Bool-cases (w n)) [
  | inl e ↦ let (k, b, c) = clear_bit n w (ground (arith, h, e)) in (k, omega (arith, b), c)
  | inr e ↦ (n, omega arith, e)
]

clear_at_other : (w : Bits) (i k : ℕ) → w i ≡ true → w k ≡ false → i ≢ k
clear_at_other w i k e c f = ground (arith, subst (λ x. w x ≡ true) f e, c)

-- The scan for a clear bit stops at one when there is one.
first_clear_lem :
    (n i k : ℕ) (w : Bits)
    → i ≤ k
    → k < i + n
    → w k ≡ false
    → (first_clear n i w < i + n) × (w (first_clear n i w) ≡ false)
unfolding first_clear
first_clear_lem zero i k w a b c = absurd (omega (arith, a, b))
first_clear_lem (suc n) i k w a b c = elim (Bool-cases (w i)) [
  | inl e ↦ rw e (
      let d = clear_at_other w i k e c in
      let (p, q) = first_clear_lem n (i + 1) k w (omega (arith, a, d)) (omega (arith, b)) c in
      (omega (arith, p), q))
  | inr e ↦ rw e (omega arith, e)
]

-- Where the scan for a word that is not full stops: behind words that are full, and before the limit
-- only behind a word that is not.
record IsStop (n i : ℕ) (pfi : FrameInfo) (r : ℕ) : Type 0 where
  pub above : r < i + n → i < r
  pub below : r ≤ i + n
  pub full : (j : ℕ) → i ≤ j → suc j < r → occupied 32 (pfi j) ≡ true
  pub room : r < i + n → occupied 32 (pfi (r - 1)) ≡ false

skip_occupied-IsStop : (n i : ℕ) (pfi : FrameInfo) → IsStop n i pfi (skip_occupied n i pfi)
unfolding skip_occupied
skip_occupied-IsStop zero i pfi = record {
  above = λ b. absurd (omega (arith, b));
  below = omega arith;
  full = λ j a b. absurd (omega (arith, a, b));
  room = λ b. absurd (omega (arith, b));
}
skip_occupied-IsStop (suc n) i pfi = elim (Bool-cases (occupied 32 (pfi i))) [
  | inl e ↦
      let s = skip_occupied-IsStop n (i + 1) pfi in
      rw e record {
        above = λ b. omega (arith, s.above (omega (arith, b)));
        below = omega (arith, s.below);
        full = λ j a b. elim (Bool-cases (i == j)) [
          | inl f ↦ subst (λ k. occupied 32 (pfi k) ≡ true) (ground (arith, f)) e
          | inr f ↦ s.full j (ground (arith, a, f)) b
        ];
        room = λ b. s.room (omega (arith, b));
      }
  | inr e ↦ rw e record {
    above = λ b. omega arith;
    below = omega arith;
    full = λ j a b. absurd (omega (arith, a, b));
    room = λ b. subst (λ k. occupied 32 (pfi k) ≡ false) (omega arith) e;
  }
]

-- The outcome of an allocation: nothing changes when no frame is free below the last word of the
-- array, and otherwise one that was free is in use afterwards, with the address of that frame.
pub data Outcome (pfi : FrameInfo) (limit offset : ℕ) : ℕ × FrameInfo → Type 0 where
  full : ((k : ℕ) → k + 32 < 32 * limit → used pfi k ≡ true) → Outcome pfi limit offset (0, pfi)
  given :
      (k : ℕ) (pfi' : FrameInfo)
      → k + 32 < 32 * limit
      → used pfi k ≡ false
      → ((i : ℕ) → used pfi' i ≡ (i == k || used pfi i))
      → Outcome pfi limit offset ((offset + k * page_size) % 2 ^ 32, pfi')

used_put :
    (j b k : ℕ) (v : Bool) (pfi : FrameInfo)
    → b < 32
    → used (put_bit j b v pfi) k ≡ (if k == j * 32 + b then v else used pfi k)
used_put j b k v pfi h = ground (arith, h)

below_of : (a b : ℕ) → leb a b ≡ false → b < a
below_of a b h = ground (arith, h)

grant :
    (pfi : FrameInfo) (limit offset j b : ℕ)
    → b < 32
    → suc j < limit
    → pfi j b ≡ false
    → Outcome pfi limit offset ((offset + (j * 32 + b) * page_size) % 2 ^ 32, put_bit j b true pfi)
grant pfi limit offset j b h c e =
    given (j * 32 + b) (put_bit j b true pfi) (omega (arith, h, c))
      (ap (λ x. pfi x ((j * 32 + b) % 32)) (omega (arith, h)) ∙ ap (pfi j) (omega (arith, h)) ∙ e)
      (λ i. used_put j b i true pfi h ∙ ground arith)

refuse :
    (pfi : FrameInfo) (limit r k : ℕ)
    → IsStop limit 0 pfi r
    → limit ≤ r
    → k + 32 < 32 * limit
    → used pfi k ≡ true
refuse pfi limit r k s h b =
    occupied_all 32 (k % 32) (pfi (k / 32)) (s.full (k / 32) (omega arith) (omega (arith, h, b)))
      (omega arith)

-- `page_frame_info_alloc` hands out a free frame below the last word of the array, marks it as in use
-- and touches no other; it answers `NULL`, and changes nothing, only when there is no such frame.
pub page_frame_info_alloc-Outcome :
    (pfi : FrameInfo) (limit offset : ℕ)
    → Outcome pfi limit offset (page_frame_info_alloc pfi limit offset)
unfolding page_frame_info_alloc
page_frame_info_alloc-Outcome pfi limit offset =
    let r = skip_occupied limit 0 pfi in
    let s = skip_occupied-IsStop limit 0 pfi in
    elim (Bool-cases (leb limit r)) [
      | inl e ↦ rw e (full (λ k b. refuse pfi limit r k s (ground (arith, e)) b))
      | inr e ↦ rw e (
          let c = below_of limit r e in
          let (k, b, d) = clear_bit 32 (pfi (r - 1)) (s.room (omega (arith, c))) in
          let (p, q) = first_clear_lem 32 0 k (pfi (r - 1)) (omega arith) b d in
          grant pfi limit offset (r - 1) (first_clear 32 0 (pfi (r - 1))) p
            (omega (arith, c, s.above (omega (arith, c)))) q)
    ]

-- Frame `k` is found again from the address of its page, up to 2 GB.
index_of_given :
    (k : ℕ)
    → k < 523264
    → frame_index (sub32 ((usr_mem_start + k * page_size) % 2 ^ 32) usr_mem_start) ≡ k
index_of_given k h = ground (arith, h)

in_user :
    (k : ℕ)
    → k < 523264
    → (ltb ((usr_mem_start + k * page_size) % 2 ^ 32) usr_mem_start
        || leb (2 ^ 31) ((usr_mem_start + k * page_size) % 2 ^ 32))
      ≡ false
in_user k h = ground (arith, h)

restored :
    (k i : ℕ) (f g : FrameInfo)
    → ((i : ℕ) → used f i ≡ (i == k || used g i))
    → used g k ≡ false
    → (if i == k then false else used f i) ≡ used g i
restored k i f g h e = elim (Bool-cases (i == k)) [
  | inl d ↦ rw d (sym (ap (used g) (same_of i k d) ∙ e))
  | inr d ↦ rw (d, h i) (rw d refl)
]

release :
    (m : Mm) (r : ℕ × FrameInfo)
    → Outcome m.usr_pf_info m.usr_pf_limit usr_mem_start r
    → m.usr_pf_limit ≤ 16352
    → r.0 ≢ 0
    → (i : ℕ)
    → (used (mm_mem_free r.0 (record m { usr_pf_info = r.1 })).usr_pf_info i ≡ used m.usr_pf_info i)
      × ((mm_mem_free r.0 (record m { usr_pf_info = r.1 })).kernel_pf_info ≡ m.kernel_pf_info)
unfolding mm_mem_free
release m (page, pfi) (full h) b n i = absurd (n refl)
release m (page, pfi) (given k pfi' c e h) b n i =
    rw (in_user k (omega (arith, b, c)), index_of_given k (omega (arith, b, c)))
      (
        used_put (k / 32) (k % 32) i false pfi' (omega arith)
            ∙ ap (λ x. if i == x then false else used pfi' i) (omega arith)
            ∙ restored k i pfi' m.usr_pf_info h e,
        refl,
      )

-- Releasing the user page that an allocation has just handed out gives back the state of every frame,
-- of the user's and of the kernel's, on a machine with at most 2 GB.
pub mm_mem_free-mm_mem_alloc :
    (m : Mm)
    → m.usr_pf_limit ≤ 16352
    → (mm_mem_alloc m).0 ≢ 0
    → (i : ℕ)
    → (used (mm_mem_free (mm_mem_alloc m).0 (mm_mem_alloc m).1).usr_pf_info i
        ≡ used m.usr_pf_info i)
      × ((mm_mem_free (mm_mem_alloc m).0 (mm_mem_alloc m).1).kernel_pf_info ≡ m.kernel_pf_info)
unfolding mm_mem_alloc
mm_mem_free-mm_mem_alloc m b n i =
    release m (page_frame_info_alloc m.usr_pf_info m.usr_pf_limit usr_mem_start)
      (page_frame_info_alloc-Outcome m.usr_pf_info m.usr_pf_limit usr_mem_start) b n i
