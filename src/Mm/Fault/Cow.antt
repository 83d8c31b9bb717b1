-- ===== src/Mm/Fault/Cow.antt =====
-- What a write to a page that is copied on write leads to.
use pso.Base.{ℕ, ◌/◌, ◌≡◌, ◌≢◌, refl, true, false, ==_ne}
use pso.Mm.{Mm, mm_mem_alloc, page_size}
use pso.Mm.Paging.{is_present, is_requested, ind_td, ind_tp, frame_of, usr_std_attr}
use pso.Mm.Paging.Map.{IsMapped, present, mm_page_map_lem}
use pso.Mm.Fault.{resumed, isr_page_fault, fault_entry}

-- A fault on a page that was asked for and is not there yet, in a table that is there, maps a new
-- page and resumes the task, when there is a page: the address is mapped afterwards.
pub isr_page_fault-requested :
    (task_cr3 : ℕ → ℕ) (error_code address cr3 : ℕ) (m : Mm)
    → is_present (m.tables cr3 (ind_td address)) ≡ true
    → (m.tables cr3 (ind_td address)).base ≢ cr3
    → is_present (m.tables (m.tables cr3 (ind_td address)).base (ind_tp address)) ≡ false
    → is_requested (m.tables (m.tables cr3 (ind_td address)).base (ind_tp address)) ≡ true
    → (mm_mem_alloc m).0 ≢ 0
    → (m' : Mm) × (isr_page_fault task_cr3 error_code address cr3 m ≡ resumed m')
      × IsMapped address cr3 m'
      × (frame_of address cr3 m' ≡ (mm_mem_alloc m).0 / page_size)
unfolding isr_page_fault fault_entry mm_mem_alloc
isr_page_fault-requested task_cr3 error_code address cr3 m p d q r n =
    let (page, m₁) = mm_mem_alloc m in
    let (m', e, i, f) =
      mm_page_map_lem address cr3 (page / page_size) usr_std_attr m₁ (present p d) in
    (m', rw (p, q, r, ==_ne page 0 n, e) refl, i, f)
