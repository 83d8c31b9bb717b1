-- ===== src/Mm/Init/Start.antt =====
-- The state in which `mm_init` leaves memory and processor.
use pso.Base.{
  ℕ, ◌+◌, ◌*◌, ◌/◌, ◌^◌, ◌≤◌, ◌<◌, ◌≡◌, ◌≢◌, refl, ap, ◌∙◌, true, false, some, none, Option, ltb,
  arith, ==_ne,
}
use pso.Mm.{
  FrameInfo, put_bit, Mm, no_entry, page_size, usr_mem_start, mm_mem_kalloc, page_frame_info_alloc,
}
use pso.Mm.Frames.{used}
use pso.Mm.Paging.{mm_page_map}
use pso.Mm.Paging.Directory.{mm_dir_new}
use pso.Mm.Paging.Directory.New.{first_4_mb}
use pso.Sem.{sem_new}
use pso.Mm.Init.{Ram, Control, Started, activate_paging, activate_pse, cleared, init_with, mm_init}
use pso.Mm.Init.Detect.{IsMemory, memory_detect-IsEnd}

-- What is there when the memory has `limit` words.
pub record IsStarted (limit : ℕ) (s : Started) : Type 0 where
  pub in_memory : (k : ℕ) → k < 32 * s.mm.usr_pf_limit → (1024 + k + 1) * 1024 ≤ limit
  pub user_free : (k : ℕ) → k < 32736 * 32 → used s.mm.usr_pf_info k ≡ false
  pub kernel_free : (k : ℕ) → 0 < k → k < 24 * 32 → used s.mm.kernel_pf_info k ≡ false
  pub dir : s.kernel_dir ≡ 256
  pub dir_used : used s.mm.kernel_pf_info 0 ≡ true
  pub first : s.mm.tables 256 0 ≡ first_4_mb
  pub empty : (i : ℕ) → i ≢ 0 → s.mm.tables 256 i ≡ no_entry
  pub paging : (s.control.cr0 31 ≡ true) × (s.control.cr4 4 ≡ true) × (s.control.cr3 ≡ 0x10_0000)
  pub semaphore : s.dir_free_sem ≡ sem_new 1

cleared-used : (size k : ℕ) (pfi : FrameInfo) → k / 32 < size → used (cleared size pfi) k ≡ false
cleared-used size k pfi lt = let e : ltb (k / 32) size ≡ true = ground arith in rw e refl

other_bit : (k : ℕ) (pfi : FrameInfo) → 0 < k → used (put_bit 0 0 true pfi) k ≡ used pfi k
other_bit k pfi pos = ground arith

init_with-IsStarted :
    (limit e : ℕ) (c : Control) (m : Mm) → e ≤ limit → IsStarted limit (init_with (e * 4) c m)
unfolding init_with mm_dir_new mm_page_map mm_mem_kalloc page_frame_info_alloc activate_paging
    activate_pse
init_with-IsStarted limit e c m le = record {
  in_memory = λ k lt. omega arith;
  user_free = λ k lt. cleared-used (32736 * 4) k m.usr_pf_info (omega arith);
  kernel_free = λ k pos lt.
      other_bit k (cleared (24 * 4) m.kernel_pf_info) pos
      ∙ cleared-used (24 * 4) k m.kernel_pf_info (omega arith);
  dir = refl;
  dir_used = refl;
  first = refl;
  empty = λ i d. rw (==_ne i 0 d) refl;
  paging = (refl, refl, refl);
  semaphore = refl;
}

-- On a machine whose memory ends behind the first 4 MB and a step before 4 GB, `mm_init` ends. Every
-- page that can be handed out to a user then lies in the memory; all frames of user and kernel are
-- free, but for the kernel's directory, which maps the first 4 MB to themselves and nothing else;
-- paging with pages of 4 MB is on, with that directory; and the semaphore of `mm_dir_free` has one
-- place.
pub mm_init-IsStarted :
    (fuel limit : ℕ) (r : Ram) (c : Control) (m : Mm)
    → IsMemory limit r
    → 2 ^ 20 ≤ limit
    → limit + page_size ≤ 2 ^ 30
    → limit < 2 ^ 20 + fuel
    → (s : Started) × (mm_init fuel r c m ≡ some s) × IsStarted limit s
unfolding mm_init
mm_init-IsStarted fuel limit r c m h low high f =
    let (e, r', found, end) =
      memory_detect-IsEnd fuel (usr_mem_start / 4) page_size limit r (omega arith) h low f in
    (
      init_with (e * 4) c m,
      ap
          (λ o. elim o as (λ x. Option Started) [
            | none ↦ none
            | some (word, r'') ↦ some (init_with (word * 4) c m)
          ])
          found,
      init_with-IsStarted limit e c m end.inside,
    )
