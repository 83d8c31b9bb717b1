-- ===== src/Loader/Process/Granted.antt =====
-- The requests for frames: pages of the user, each handed out once, and the new directory.
use pso.Base.{◌≤◌, ◌≢◌}
use pso.Mm.{Mm, mm_mem_kalloc, mm_mem_alloc}
use pso.Mm.Paging.Directory.{mm_dir_new}
use pso.Mm.Paging.Kept.{IsKernelPage}
use pso.Loader.Process.{load_space}

-- The memory behind each of the requests.
abbrev pub dir₁ : Mm → Mm
dir₁ m = (mm_dir_new m).1

abbrev pub page₂ : Mm → Mm
page₂ m = (mm_mem_alloc (dir₁ m)).1

abbrev pub stack₃ : Mm → Mm
stack₃ m = (mm_mem_alloc (page₂ m)).1

abbrev pub stack₄ : Mm → Mm
stack₄ m = (mm_mem_alloc (stack₃ m)).1

-- Every request of a load is granted: three frames of the kernel's, for the directory and two tables,
-- and three pages of the user's.
pub record HasRoom (m : Mm) : Type 0 where
  pub limit : m.usr_pf_limit ≤ 32736
  pub directory : ((mm_mem_kalloc m).0 ≢ 0) × IsKernelPage (mm_mem_kalloc m).0
  pub page : (mm_mem_alloc (dir₁ m)).0 ≢ 0
  pub stack3 : (mm_mem_alloc (page₂ m)).0 ≢ 0
  pub stack0 : (mm_mem_alloc (stack₃ m)).0 ≢ 0
  pub stacks : ((mm_mem_kalloc (dir₁ m)).0 ≢ 0) × IsKernelPage (mm_mem_kalloc (dir₁ m)).0
  pub program :
      ((mm_mem_kalloc (load_space m).mm).0 ≢ 0) × IsKernelPage (mm_mem_kalloc (load_space m).mm).0
