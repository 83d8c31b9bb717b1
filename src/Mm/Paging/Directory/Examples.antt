-- ===== src/Mm/Paging/Directory/Examples.antt =====
-- Copying a directory with one table.
use pso.Base.{
  ℕ, suc, ◌≡◌, refl, sym, ap, ◌∙◌, subst, true, false, inr, some, if◌then◌else◌, ◌==◌, ◌||◌, arith,
}
use pso.Mm.{Mm, no_entry, page_frame_info_alloc}
use pso.Mm.Paging.{entry_for, usr_std_attr, is_present}
use pso.Mm.Paging.Kept.{Taken}
use pso.Mm.Paging.Directory.{mm_dir_fork}
use pso.Mm.Paging.Directory.Copy.{HasFrames, table_count}
use pso.Mm.Paging.Directory.Whole.{IsDirectory, IsChild, mm_dir_fork-IsChild}

-- Directory 256 has its table 257 at entry 5, and there the user's page 1030 at entry 3.
abbrev memory : Mm
memory = record {
  kernel_pf_info = λ j b. if j == 0 then b == 0 || b == 1 else false;
  usr_pf_info = λ j b. if j == 0 then b == 6 else false;
  usr_pf_limit = 4;
  tables = λ f i.
      if f == 256
      then (if i == 5 then entry_for 257 usr_std_attr else no_entry)
      else if f == 257
      then (if i == 3 then entry_for 1030 usr_std_attr else no_entry)
      else no_entry;
}

only_five : (j : ℕ) → is_present (memory.tables 256 j) ≡ true → j ≡ 5
only_five j p = ground (arith, p)

table_there : (j : ℕ) → is_present (memory.tables 256 j) ≡ true → (memory.tables 256 j).base ≡ 257
table_there j p = ap (λ k. (memory.tables 256 k).base) (only_five j p)

memory-IsDirectory : IsDirectory memory 256
memory-IsDirectory = record {
  taken = inr (omega arith, omega arith, refl);
  tables = λ j a b p. (
    subst (Taken memory) (sym (table_there j p)) (inr (omega arith, omega arith, refl)),
    λ e. absurd (omega (arith, sym (table_there j p) ∙ e)),
  );
  distinct = λ j k a l b p q. absurd (omega (arith, l, only_five j p, only_five k q));
}

memory-HasFrames : HasFrames (suc (table_count 1023 1 (memory.tables 256))) memory.kernel_pf_info
unfolding page_frame_info_alloc
memory-HasFrames =
    (λ e. absurd (omega (arith, e)), omega arith, (λ e. absurd (omega (arith, e)), omega arith, tt))

mm_dir_fork-IsChild_example :
    (new : ℕ) × (m' : Mm) × (mm_dir_fork (λ i. 0) 256 memory ≡ (some new, m'))
    × IsChild 256 new memory m'
mm_dir_fork-IsChild_example =
    mm_dir_fork-IsChild (λ i. 0) 256 memory memory-IsDirectory memory-HasFrames
