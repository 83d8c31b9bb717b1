-- ===== src/Mm/Fault/Examples.antt =====
-- Page faults at a concrete memory.
use pso.Base.{ℕ, ◌==◌, ◌||◌, ◌&&◌, if◌then◌else◌, ltb}
use pso.Mm.{FrameInfo, Mm, no_entry}
use pso.Mm.Paging.{entry_for, usr_std_attr}

-- The first 34 frames are in use.
abbrev in_use : FrameInfo
in_use j i = j == 0 || (j == 1 && ltb i 2)

-- Directory 256 has table 257 at entry 1, whose entry 3 leads to the user's page 1030, copied on
-- write, and at entry 1023 table 258, that of the temporary page.
abbrev memory : Mm
memory = record {
  kernel_pf_info = in_use;
  usr_pf_info = in_use;
  usr_pf_limit = 4;
  tables = λ f i.
      if f == 256
      then (if i == 1
          then entry_for 257 usr_std_attr
          else if i == 1023
          then entry_for 258 usr_std_attr
          else no_entry)
      else if f == 257
      then (if i == 3 then entry_for 1030 (λ b. b == 10) else no_entry)
      else no_entry;
}

-- Two tasks have the directory.
abbrev two_tasks : ℕ → ℕ
two_tasks p = if p == 4 || p == 5 then 256 else 0
