-- ===== src/Mm/Paging.antt =====
-- Directories and tables: the part of tp1/src/kernel/mm.c that maps, unmaps, shares, copies and
-- faults pages. A directory or table is given by the number of its page frame, and so is a page,
-- where the code has its address; a pointer to an entry is a frame and an index. The parameter
-- `task_cr3` is the field `cr3` of `task_table`, 0 where a task has none.
pub mod Map
pub mod Kept
pub mod Mapping
pub mod Fork
pub mod Palloc
pub mod Directory
use pso.Base.{
  ℕ, zero, suc, ◌+◌, ◌*◌, ◌/◌, ◌%◌, ◌^◌, Bool, true, false, ◌&&◌, ◌||◌, not, ◌==◌, if◌then◌else◌,
  update, Option, none, some,
}
use pso.Mm.{Bits, Entry, Mm, mm_mem_alloc, mm_mem_kalloc, mm_mem_free, no_entry, page_size}

-- The bits of the attributes: `MM_ATTR_P`, `MM_ATTR_RW` (also `MM_ATTR_REQ`), `MM_ATTR_US`,
-- `MM_ATTR_SZ_4M`, `MM_ATTR_SH` and `MM_ATTR_COW`.
abbrev pub p_bit : ℕ
p_bit = 0

abbrev pub rw_bit : ℕ
rw_bit = 1

abbrev pub us_bit : ℕ
us_bit = 2

abbrev pub size_bit : ℕ
size_bit = 7

abbrev pub sh_bit : ℕ
sh_bit = 9

abbrev pub cow_bit : ℕ
cow_bit = 10

abbrev pub is_present : Entry → Bool
is_present e = e.attr p_bit

abbrev pub is_requested : Entry → Bool
is_requested e = e.attr rw_bit

abbrev pub is_shared : Entry → Bool
is_shared e = e.attr sh_bit

abbrev pub is_copy_on_write : Entry → Bool
is_copy_on_write e = e.attr cow_bit

-- `|=` and `&= ~` with one bit of an entry.
abbrev pub with_bit : ℕ → Bool → Entry → Entry
with_bit i v e = record e { attr = update e.attr i v }

-- `USR_STD_ATTR`
abbrev pub usr_std_attr : Bits
usr_std_attr i = i == rw_bit || i == us_bit

-- `MM_ATTR_RW | MM_ATTR_US_S`, and `MM_ATTR_REQ`
abbrev pub rw_attr : Bits
rw_attr i = i == rw_bit

-- An address' indices into the directory and the table.
abbrev pub ind_td : ℕ → ℕ
ind_td virtual = virtual / 2 ^ 22

abbrev pub ind_tp : ℕ → ℕ
ind_tp virtual = virtual / 2 ^ 12 % 1024

abbrev pub set_entry : ℕ → ℕ → Entry → Mm → Mm
set_entry f i e m = record m { tables = update m.tables f (update (m.tables f) i e) }

-- An entry for frame `base`: `base | attr | 1`.
abbrev pub entry_for : ℕ → Bits → Entry
entry_for base attr = record { attr = λ i. attr i || i == p_bit; base = base }

-- The part of `mm_page_map` that finds the table of the page, or asks for one; `none` is `NULL`.
unfoldable pub find_table : ℕ → ℕ → Bits → Mm → Option Mm
find_table virtual cr3 attr m =
    if is_present (m.tables cr3 (ind_td virtual))
    then some m
    else (let (page, m') = mm_mem_kalloc m in
        if page == 0
        then none
        else some (set_entry cr3 (ind_td virtual) (entry_for (page / page_size) attr) m'))

-- The last writes of `mm_page_map`: the entry in the table.
abbrev pub write_entry : ℕ → ℕ → ℕ → Bits → Mm → Mm
write_entry virtual cr3 frame attr m =
    set_entry (m.tables cr3 (ind_td virtual)).base (ind_tp virtual) (entry_for frame attr) m

abbrev pub map_into : ℕ → ℕ → ℕ → Bits → Option Mm → Option Mm
map_into virtual cr3 frame attr none = none
map_into virtual cr3 frame attr (some m) = some (write_entry virtual cr3 frame attr m)

-- `mm_page_map`; `none` is `NULL`. For a page of 4 MB the source joins the address and the attributes
-- with `&`, and no bit is in both masks: the entry is `MM_ATTR_SZ_4M | 1` whatever they are.
unfoldable pub mm_page_map : ℕ → ℕ → ℕ → Bool → Bits → Mm → Option Mm
unfolding find_table
mm_page_map virtual cr3 frame big attr m =
    if big
    then some (
        set_entry cr3 (ind_td virtual) record { attr = λ i. i == size_bit || i == p_bit; base = 0 }
          m)
    else map_into virtual cr3 frame attr (find_table virtual cr3 attr m)

-- `mm_page_free`: the frame that was mapped, if one was.
unfoldable pub mm_page_free : ℕ → ℕ → Mm → Option ℕ × Mm
mm_page_free virtual cr3 m =
    let d = m.tables cr3 (ind_td virtual) in
    if d.attr size_bit
    then (some d.base, set_entry cr3 (ind_td virtual) (with_bit p_bit false d) m)
    else if is_present d
    then (let e = m.tables d.base (ind_tp virtual) in
        (some e.base, set_entry d.base (ind_tp virtual) (with_bit p_bit false e) m))
    else (none, m)

-- `mm_times_mapped`, the tasks from `i` on, `n` of them. Neither entry is tested for being present.
pub times_loop : ℕ → ℕ → (ℕ → ℕ) → ℕ → ℕ → ℕ → Mm → ℕ
times_loop zero i task_cr3 frame dir_index table_index m = 0
times_loop (suc n) i task_cr3 frame dir_index table_index m =
    let rest = times_loop n (i + 1) task_cr3 frame dir_index table_index m in
    let d = m.tables (task_cr3 i) dir_index in
    if not (task_cr3 i == 0) && (m.tables d.base table_index).base == frame then rest + 1 else rest

unfoldable pub mm_times_mapped : (ℕ → ℕ) → ℕ → ℕ → ℕ → Mm → ℕ
unfolding times_loop
mm_times_mapped task_cr3 frame dir_index table_index m =
    times_loop 32 0 task_cr3 frame dir_index table_index m

-- `mm_dir_unmap`
unfoldable pub mm_dir_unmap : ℕ → ℕ → Mm → Mm
mm_dir_unmap virtual cr3 m =
    set_entry cr3 (ind_td virtual) (with_bit p_bit false (m.tables cr3 (ind_td virtual))) m

-- One round of `mm_page_fork`, on the entries of the two tables: those of the parent and the child.
abbrev pub fork_entry : Entry → Entry → Entry × Entry
fork_entry e child =
    if is_present e
    then (let e' = if is_shared e then e else with_bit rw_bit false (with_bit cow_bit true e) in
        (e', e'))
    else (e, child)

-- The loop of `mm_page_fork`, with `n` entries left, on the two tables' frames.
pub fork_loop : ℕ → ℕ → ℕ → ℕ → Mm → Mm
fork_loop zero i page_table new_table m = m
fork_loop (suc n) i page_table new_table m =
    let (e, child) = fork_entry (m.tables page_table i) (m.tables new_table i) in
    fork_loop n (i + 1) page_table new_table
      (set_entry new_table i child (set_entry page_table i e m))

-- `mm_page_fork`
unfoldable pub mm_page_fork : ℕ → ℕ → Mm → Mm
unfolding fork_loop
mm_page_fork page_table new_table m = fork_loop 1024 0 page_table new_table m

-- `mm_share_page`
unfoldable pub mm_share_page : ℕ → ℕ → Mm → Mm
mm_share_page page cr3 m =
    let t = (m.tables cr3 (ind_td page)).base in
    set_entry t (ind_tp page) (with_bit sh_bit true (m.tables t (ind_tp page))) m

-- The frame in the two entries that an address selects. Whether they are present, and whether the
-- directory's is one of 4 MB, is not looked at.
abbrev pub frame_of : ℕ → ℕ → Mm → ℕ
frame_of virtual cr3 m = (m.tables (m.tables cr3 (ind_td virtual)).base (ind_tp virtual)).base

-- `KERNEL_TEMP_PAGE`
abbrev pub kernel_temp_page : ℕ
kernel_temp_page = 0xFFFF_F000

-- `mm_copy_vf` for a whole page: the copy goes through the temporary page. Where the temporary page
-- cannot be mapped, the code does not notice; nothing is said of it then.
unfoldable pub mm_copy_vf : ℕ → ℕ → ℕ → Mm → Option Mm
unfolding mm_page_map
mm_copy_vf virtual frame cr3 m = elim (mm_page_map kernel_temp_page cr3 frame false rw_attr m) [
  | none ↦ none
  | some m₁ ↦
      (let m₂ = record m₁ {
        tables = update m₁.tables frame (m₁.tables (frame_of virtual cr3 m₁));
      } in
        some (mm_page_free kernel_temp_page cr3 m₂).1)
]

-- The loop of `sys_palloc` over a table: the first entry from `j` on, of `n`, that is neither present
-- nor requested.
unfoldable pub find_free : ℕ → ℕ → (ℕ → Entry) → Option ℕ
find_free zero j t = none
find_free (suc n) j t =
    let rest = find_free n (j + 1) t in
    if not (is_present (t j)) && not (is_requested (t j)) then some j else rest

-- `.attr = MM_ATTR_REQ`
abbrev pub requested : Entry → Entry
requested e = record e { attr = rw_attr }

abbrev pub take_free : ℕ → ℕ → Option ℕ → ℕ × Mm → Mm → ℕ × Mm
take_free i table none rest m = rest
take_free i table (some j) rest m =
    (page_size * 1024 * i + page_size * j, set_entry table j (requested (m.tables table j)) m)

-- The loop of `sys_palloc` over the directory, from entry `i` on, `n` of them.
unfoldable pub palloc_loop : ℕ → ℕ → ℕ → Mm → ℕ × Mm
palloc_loop zero i cr3 m = (0, m)
palloc_loop (suc n) i cr3 m =
    let rest = palloc_loop n (i + 1) cr3 m in
    let d = m.tables cr3 i in
    if is_present d
    then (if not (d.attr size_bit)
        then take_free i d.base (find_free 1024 0 (m.tables d.base)) rest m
        else rest)
    else if not (is_requested d)
    then (page_size * 1024 * i, set_entry cr3 i (requested d) m)
    else rest

-- `sys_palloc`: the virtual address, 0 for `NULL`.
unfoldable pub sys_palloc : ℕ → Mm → ℕ × Mm
sys_palloc cr3 m = palloc_loop 1023 1 cr3 m
