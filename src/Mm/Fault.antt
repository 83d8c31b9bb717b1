-- ===== src/Mm/Fault.antt =====
-- Page faults: `isr_page_fault_c` and `mm_copy_on_write_page` of tp1/src/kernel/mm.c. The processor's
-- registers cr2, cr3 and the error code are arguments; a directory, a table and a page are given by
-- the numbers of their page frames.
pub mod Cow
pub mod Copy
pub mod Private
pub mod First
mod Examples
use pso.Base.{ℕ, ◌+◌, ◌*◌, ◌/◌, Bool, true, false, ◌&&◌, ◌==◌, if◌then◌else◌, Option, none, some}
use pso.Mm.{Entry, Mm, mm_mem_alloc, mm_mem_kalloc, mm_mem_free, page_size}
use pso.Mm.Paging.{
  is_present, is_requested, is_copy_on_write, ind_td, ind_tp, with_bit, rw_bit, cow_bit, set_entry,
  entry_for, usr_std_attr, mm_page_map, mm_copy_vf, mm_times_mapped,
}

-- How a copy on write ends: the entry is updated, there is no page for the copy, or the temporary
-- page could not be mapped, which the code does not notice.
pub data CowResult : Type 0 where
  updated : Mm → CowResult
  no_page : CowResult
  unmapped : CowResult

abbrev pub after_copy : ℕ → ℕ → ℕ → Option Mm → CowResult
after_copy t i page none = unmapped
after_copy t i page (some m) = updated (set_entry t i (entry_for (page / page_size) usr_std_attr) m)

-- `mm_copy_on_write_page` on entry `table_index` of the table in frame `t`.
unfoldable pub mm_copy_on_write_page : (ℕ → ℕ) → ℕ → ℕ → ℕ → ℕ → Mm → CowResult
mm_copy_on_write_page task_cr3 cr3 t dir_index table_index m =
    let e = m.tables t table_index in
    let (page, m') = mm_mem_alloc m in
    if mm_times_mapped task_cr3 e.base dir_index table_index m == 1
    then updated (set_entry t table_index (with_bit rw_bit true (with_bit cow_bit false e)) m)
    else if page == 0
    then no_page
    else after_copy t table_index page (
        mm_copy_vf (dir_index * (page_size * 1024) + table_index * page_size) (page / page_size) cr3
          m')

-- How the handler ends: it returns to the task, with the memory; it ends the task with `sys_exit`,
-- which does not return; it shows the panic screen, behind which nothing is followed here; or a copy
-- on write ended in one of the two ways that leave the entry alone.
pub data Fault : Type 0 where
  resumed : Mm → Fault
  exits : Mm → Fault
  panics : Fault
  not_copied : Fault

abbrev pub fault_of : CowResult → Fault
fault_of (updated m) = resumed m
fault_of no_page = not_copied
fault_of unmapped = not_copied

-- Where a page cannot be mapped, a request of the kernel's has failed, and that has cleared page 0.
abbrev pub resumed_or : Mm → Option Mm → Fault
resumed_or m none = resumed (mm_mem_kalloc m).1
resumed_or m (some m') = resumed m'

-- The second half of the handler, on the entry of the table. There, a page that cannot be mapped is
-- lost: the result of `mm_page_map` is not looked at.
unfoldable pub fault_entry : (ℕ → ℕ) → ℕ → ℕ → ℕ → Mm → Fault
fault_entry task_cr3 error_code address cr3 m =
    let t = (m.tables cr3 (ind_td address)).base in
    let e = m.tables t (ind_tp address) in
    let (usr_page, m') = mm_mem_alloc m in
    if is_present e
    then (if is_copy_on_write e && error_code == 7
        then fault_of (mm_copy_on_write_page task_cr3 cr3 t (ind_td address) (ind_tp address) m)
        else resumed m)
    else if is_requested e
    then (if usr_page == 0
        then exits m
        else resumed_or m' (mm_page_map address cr3 (usr_page / page_size) false usr_std_attr m'))
    else resumed m

abbrev pub fault_mapped : (ℕ → ℕ) → ℕ → ℕ → ℕ → ℕ → Mm → Option Mm → Fault
fault_mapped task_cr3 error_code address cr3 usr_page m none =
    exits (mm_mem_free usr_page (mm_mem_kalloc m).1)
fault_mapped task_cr3 error_code address cr3 usr_page m (some m') =
    fault_entry task_cr3 error_code address cr3 m'

-- `isr_page_fault_c`
unfoldable pub isr_page_fault : (ℕ → ℕ) → ℕ → ℕ → ℕ → Mm → Fault
unfolding fault_entry
isr_page_fault task_cr3 error_code address cr3 m =
    let d = m.tables cr3 (ind_td address) in
    let (usr_page, m') = mm_mem_alloc m in
    if is_present d
    then fault_entry task_cr3 error_code address cr3 m
    else if is_requested d
    then (if usr_page == 0
        then exits m
        else fault_mapped task_cr3 error_code address cr3 usr_page m'
            (mm_page_map address cr3 (usr_page / page_size) false usr_std_attr m'))
    else panics
