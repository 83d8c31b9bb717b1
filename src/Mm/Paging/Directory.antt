-- ===== src/Mm/Paging/Directory.antt =====
-- Making, copying and freeing whole directories: `mm_dir_new`, `mm_dir_fork`, `mm_dir_free` and
-- `mm_table_free` of mm.c. The semaphore around `mm_dir_free`, in which nothing blocks, is left out.
pub mod Free
pub mod Released
pub mod Step
pub mod New
pub mod Copy
pub mod Whole
mod Examples
use pso.Base.{
  ℕ, zero, suc, ◌+◌, ◌-◌, ◌*◌, ◌/◌, Bool, true, false, ◌&&◌, ◌||◌, ◌==◌, if◌then◌else◌, ltb, Option,
  none, some,
}
use pso.Mm.{Entry, Mm, mm_mem_kalloc, mm_mem_free, page_size}
use pso.Mm.Paging.{
  is_present, is_shared, is_copy_on_write, with_bit, p_bit, usr_std_attr, set_entry, mm_page_map,
  mm_times_mapped, mm_page_fork,
}

-- `mm_dir_new`: the frame of the directory. The first 4 MB are mapped to themselves.
unfoldable pub mm_dir_new : Mm → Option ℕ × Mm
unfolding mm_page_map
mm_dir_new m =
    let (page, m') = mm_mem_kalloc m in
    if page == 0
    then (none, m')
    else elim (mm_page_map 0 (page / page_size) 0 true usr_std_attr m') [
      | none ↦ (some (page / page_size), m')
      | some m'' ↦ (some (page / page_size), m'')
    ]

module _ (task_cr3 : ℕ → ℕ) where
  -- Whether the page of an entry is left alone: another task uses it.
  abbrev pub in_use : Entry → ℕ → ℕ → Mm → Bool
  in_use e dir_index i m =
      (is_shared e || is_copy_on_write e) && ltb 1 (mm_times_mapped task_cr3 e.base dir_index i m)

  -- One round of `mm_table_free`, on entry `i` of table `t`.
  unfoldable pub free_entry : ℕ → ℕ → ℕ → Mm → Mm
  free_entry t dir_index i m =
      let e = m.tables t i in
      let freed = set_entry t i (with_bit p_bit false e) (mm_mem_free (e.base * page_size) m) in
      if is_present e then (if in_use e dir_index i m then m else freed) else m

  -- The loop, with `n` entries left from `i` on, and `mm_table_free`.
  unfoldable pub free_loop : ℕ → ℕ → ℕ → ℕ → Mm → Mm
  unfolding free_entry
  free_loop zero i t dir_index m = m
  free_loop (suc n) i t dir_index m = free_loop n (i + 1) t dir_index (free_entry t dir_index i m)

  unfoldable pub mm_table_free : ℕ → ℕ → Mm → Mm
  mm_table_free t dir_index m = free_loop 1024 0 t dir_index m

  -- One round of `mm_dir_free`, on entry `i` of directory `d`.
  unfoldable pub free_table : ℕ → ℕ → Mm → Mm
  unfolding mm_table_free
  free_table d i m =
      let e = m.tables d i in
      let m₁ = mm_table_free e.base i m in
      let m₂ = set_entry d i (with_bit p_bit false (m₁.tables d i)) m₁ in
      if is_present e then mm_mem_free (e.base * page_size) m₂ else m

  unfoldable pub dir_loop : ℕ → ℕ → ℕ → Mm → Mm
  unfolding free_table
  dir_loop zero i d m = m
  dir_loop (suc n) i d m = dir_loop n (i + 1) d (free_table d i m)

  -- `mm_dir_free`
  unfoldable pub mm_dir_free : ℕ → Mm → Mm
  mm_dir_free d m =
      let m₁ = dir_loop 1023 1 d m in
      mm_mem_free (d * page_size) (set_entry d 0 (with_bit p_bit false (m₁.tables d 0)) m₁)

  -- The loop of `mm_dir_fork`, with `n` entries left from `i` on.
  unfoldable pub fork_dir_loop : ℕ → ℕ → ℕ → ℕ → Mm → Option ℕ × Mm
  fork_dir_loop zero i old new m = (some new, m)
  fork_dir_loop (suc n) i old new m =
      let e = m.tables old i in
      let (page, m₁) = mm_mem_kalloc m in
      let table = page / page_size in
      let m₂ = set_entry new i (record { attr = e.attr; base = table }) m₁ in
      let skipped = fork_dir_loop n (i + 1) old new m in
      let copied = fork_dir_loop n (i + 1) old new (mm_page_fork e.base table m₂) in
      if is_present e then (if page == 0 then (none, mm_dir_free new m₁) else copied) else skipped

  -- `mm_dir_fork`
  unfoldable pub mm_dir_fork : ℕ → Mm → Option ℕ × Mm
  unfolding mm_dir_new
  mm_dir_fork cr3 m =
      let (new, m₁) = mm_dir_new m in
      elim new [ none ↦ (none, m₁) | some d ↦ fork_dir_loop 1023 1 cr3 d m₁ ]
