-- ===== src/Loader/Process/Ready.antt =====
-- What `loader_load` has when its pages are given, and what it leaves.
use pso.Base.{ℕ, ◌+◌, ◌-◌, ◌*◌, ◌≤◌, ◌<◌, ◌≡◌, ◌≢◌, ap, true, false, List, get_elem?, some, none}
use pso.Mm.{Bits, Mm, mm_mem_kalloc}
use pso.Mm.Paging.{is_present, ind_td, size_bit, kernel_temp_page, frame_of, mm_page_map}
use pso.Mm.Paging.Kept.{Taken, IsKernelPage}
use pso.Mm.Paging.Mapping.{table_of, IsTable}
use pso.Loader.Process.{PsoFile, Space, stack_0_virtual, word_entry, map_page}
use pso.Loader.Process.Pages.{word_at}

-- The pages that a load has been given, while the directory `c` runs. The temporary page and the
-- stacks have tables in the two directories, and the program goes where the new directory has none.
pub record IsReady (c start : ℕ) (s : Space) : Type 0 where
  pub running : Taken s.mm c × (c < 1024)
  pub temp_present : is_present (s.mm.tables c (ind_td kernel_temp_page)) ≡ true
  pub temp_small : (s.mm.tables c (ind_td kernel_temp_page)).attr size_bit ≡ false
  pub temp : IsTable s.mm c (table_of kernel_temp_page c s.mm)
  pub dir : IsTable s.mm c s.dir
  pub dir_ne_temp : s.dir ≢ table_of kernel_temp_page c s.mm
  pub stacks : IsTable s.mm s.dir (table_of stack_0_virtual s.dir s.mm)
  pub stacks_ne_running : table_of stack_0_virtual s.dir s.mm ≢ c
  pub stacks_ne_temp : table_of stack_0_virtual s.dir s.mm ≢ table_of kernel_temp_page c s.mm
  pub pages : (1024 ≤ s.stack0) × (1024 ≤ s.page) × (s.stack0 ≢ s.page)
  pub elsewhere : ind_td start ≢ ind_td stack_0_virtual
  pub absent : is_present (s.mm.tables s.dir (ind_td start)) ≡ false
  pub room : ((mm_mem_kalloc s.mm).0 ≢ 0) × IsKernelPage (mm_mem_kalloc s.mm).0

-- What a load of `size` bytes leaves.
pub record IsLoaded (c size : ℕ) (stack : List ℕ) (f : PsoFile) (s : Space) (m : Mm) : Type 0 where
  pub stack_words :
      (j w : ℕ) → get_elem? stack j ≡ some w → m.tables s.stack0 (1023 - j) ≡ word_entry w
  pub program : (k : ℕ) → 4 * k + 4 ≤ size → m.tables s.page k ≡ word_at f.bytes k
  pub program_mapped : frame_of f.mem_start s.dir m ≡ s.page
  pub stacks_mapped :
      (v : ℕ) → ind_td v ≡ ind_td stack_0_virtual → frame_of v s.dir m ≡ frame_of v s.dir s.mm
  pub others : (u : ℕ) → 1024 ≤ u → u ≢ s.stack0 → u ≢ s.page → m.tables u ≡ s.mm.tables u

pub map_page-some :
    (v c frame : ℕ) (attr : Bits) (m m' : Mm)
    → mm_page_map v c frame false attr m ≡ some m'
    → map_page v c frame attr m ≡ m'
unfolding map_page
map_page-some v c frame attr m m' e =
    ap (λ o. elim o as (λ x. Mm) [ none ↦ (mm_mem_kalloc m).1 | some k ↦ k ]) e
