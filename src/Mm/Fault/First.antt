-- ===== src/Mm/Fault/First.antt =====
-- The first access to a page that `sys_palloc` has handed out.
use pso.Base.{ℕ, ◌/◌, ◌≡◌, ◌≢◌}
use pso.Mm.{Mm, mm_mem_alloc, mm_mem_kalloc, page_size}
use pso.Mm.Paging.{frame_of}
use pso.Mm.Paging.Map.{IsMapped}
use pso.Mm.Fault.{resumed, isr_page_fault}

-- The fault resumes the task, and the address leads to the page frame that was asked for.
abbrev pub IsServed : (ℕ → ℕ) → ℕ → ℕ → ℕ → Mm → Type 0
IsServed task_cr3 error_code v c m =
    (m' : Mm) × (isr_page_fault task_cr3 error_code v c m ≡ resumed m')
    × IsMapped v c m'
    × (frame_of v c m' ≡ (mm_mem_alloc m).0 / page_size)

-- There is a page frame for a page, and one of the kernel's for a table, which is not the directory.
pub record HasFrame (c : ℕ) (m : Mm) : Type 0 where
  pub page : (mm_mem_alloc m).0 ≢ 0
  pub table : (mm_mem_kalloc (mm_mem_alloc m).1).0 ≢ 0
  pub apart : (mm_mem_kalloc (mm_mem_alloc m).1).0 / page_size ≢ c
