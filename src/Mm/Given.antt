-- ===== src/Mm/Given.antt =====
-- The pages of the user that are handed out, each once.
use pso.Base.{
  ℕ, ◌+◌, ◌/◌, ◌≤◌, ◌≡◌, ◌≢◌, refl, sym, ap, ◌∙◌, true, false, ◌||◌, ◌==◌, arith, ==_refl,
}
use pso.Mm.{FrameInfo, Mm, mm_mem_alloc, page_frame_info_alloc, usr_mem_start, page_size}
use pso.Mm.Frames.{used, Outcome, full, given, page_frame_info_alloc-Outcome}

-- A user page that is handed out, `k` of them into the user's memory.
pub record IsGiven (k : ℕ) (m m' : Mm) (frame : ℕ) : Type 0 where
  pub place : frame ≡ 1024 + k
  pub free : used m.usr_pf_info k ≡ false
  pub marked : (i : ℕ) → used m'.usr_pf_info i ≡ (i == k || used m.usr_pf_info i)
  pub limit : m'.usr_pf_limit ≤ 32736

user_result :
    (m : Mm) (r : ℕ × FrameInfo)
    → m.usr_pf_limit ≤ 32736
    → Outcome m.usr_pf_info m.usr_pf_limit usr_mem_start r
    → r.0 ≢ 0
    → (k : ℕ) × IsGiven k m (record m { usr_pf_info = r.1 }) (r.0 / page_size)
user_result m (page, pfi) lim (full h) n = absurd (n refl)
user_result m (page, pfi) lim (given k pfi' lt free h) n =
    (k, record { place = omega arith; free = free; marked = h; limit = lim })

pub mm_mem_alloc-IsGiven :
    (m : Mm)
    → m.usr_pf_limit ≤ 32736
    → (mm_mem_alloc m).0 ≢ 0
    → (k : ℕ) × IsGiven k m (mm_mem_alloc m).1 ((mm_mem_alloc m).0 / page_size)
unfolding mm_mem_alloc
mm_mem_alloc-IsGiven m lim n =
    user_result m (page_frame_info_alloc m.usr_pf_info m.usr_pf_limit usr_mem_start) lim
      (page_frame_info_alloc-Outcome m.usr_pf_info m.usr_pf_limit usr_mem_start) n

-- Two requests with one in between give two pages.
pub given_apart :
    (i j k : ℕ) (m m₁ m₂ m₃ : Mm) (f g h : ℕ)
    → IsGiven i m m₁ f
    → IsGiven j m₁ m₂ g
    → IsGiven k m₂ m₃ h
    → h ≢ f
given_apart i j k m m₁ m₂ m₃ f g h one two three e =
    let same : k ≡ i = omega (arith, one.place, three.place) in
    let mine : used m₁.usr_pf_info i ≡ true = one.marked i ∙ rw (==_refl i) refl in
    let still : used m₂.usr_pf_info i ≡ true = two.marked i ∙ rw mine (ground arith) in
    cc (sym (ap (used m₂.usr_pf_info) same) ∙ three.free, still)
