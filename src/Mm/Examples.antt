-- ===== src/Mm/Examples.antt =====
-- Page frames and tables at concrete memories.
use pso.Base.{
  ℕ, ◌+◌, ◌^◌, ◌*◌, ◌≡◌, refl, true, false, ◌==◌, ◌||◌, ◌&&◌, if◌then◌else◌, ltb, some, arith,
}
use pso.Mm.Init.{Ram, Control, Started, mm_init}
use pso.Mm.Init.Detect.{IsMemory}
use pso.Mm.Init.Start.{IsStarted, mm_init-IsStarted}
use pso.Mm.{FrameInfo, Entry, Mm, mm_mem_alloc, page_frame_info_alloc, usr_mem_start, no_entry}
use pso.Mm.Frames.{Outcome, page_frame_info_alloc-Outcome}
use pso.Mm.Paging.{usr_std_attr, entry_for, frame_of, mm_page_map}
use pso.Mm.Paging.{sys_palloc}
use pso.Mm.Paging.Palloc.{IsAnswer, sys_palloc-IsAnswer}
use pso.Mm.Paging.Map.{IsMapped, present, mm_page_map_lem}
use pso.Mm.Fault.{resumed, isr_page_fault}
use pso.Mm.Fault.Cow.{isr_page_fault-requested}

-- The first 34 frames are in use, as the two lowest bits of the second word show.
abbrev thirty_four : FrameInfo
thirty_four j i = j == 0 || (j == 1 && ltb i 2)

-- A directory in frame 256 with a table in frame 257 for the addresses from 4 MB on; the entry 3 of
-- the table maps frame 1030, and its entry 4, which is shared, frame 1031.
abbrev small_tables : ℕ → ℕ → Entry
small_tables f i =
    if f == 256
    then (if i == 1 then entry_for 257 usr_std_attr else no_entry)
    else if f == 257
    then (if i == 3
        then entry_for 1030 usr_std_attr
        else if i == 4
        then entry_for 1031 (λ b. b == 9)
        else no_entry)
    else no_entry

abbrev small : Mm
small = record {
  kernel_pf_info = thirty_four;
  usr_pf_info = thirty_four;
  usr_pf_limit = 4;
  tables = small_tables;
}

alloc_runs : (mm_mem_alloc small).0 ≡ 4194304 + 34 * 4096
unfolding mm_mem_alloc page_frame_info_alloc
alloc_runs = refl

page_frame_info_alloc-Outcome_example :
    Outcome thirty_four 4 usr_mem_start (page_frame_info_alloc thirty_four 4 usr_mem_start)
page_frame_info_alloc-Outcome_example = page_frame_info_alloc-Outcome thirty_four 4 usr_mem_start

-- Address 4 MB + 5 pages, in the table that is there.
mm_page_map_lem_example :
    (m : Mm) × (mm_page_map 4214784 256 1040 false usr_std_attr small ≡ some m)
    × IsMapped 4214784 256 m
    × (frame_of 4214784 256 m ≡ 1040)
mm_page_map_lem_example =
    mm_page_map_lem 4214784 256 1040 usr_std_attr small (present refl (omega arith))

-- The memory with entry 5 asked for.
abbrev faulty : Mm
faulty = record small {
  tables = λ f i. if f == 257 then record { attr = λ b. b == 1; base = 0 } else small_tables f i;
}

abbrev one_task : ℕ → ℕ
one_task p = if p == 4 then 256 else 0

isr_page_fault-requested_example :
    (m : Mm) × (isr_page_fault one_task 6 4214784 256 faulty ≡ resumed m)
    × IsMapped 4214784 256 m
    × (frame_of 4214784 256 m ≡ 1058)
unfolding mm_mem_alloc page_frame_info_alloc
isr_page_fault-requested_example =
    isr_page_fault-requested one_task 6 4214784 256 faulty refl (omega arith) refl refl
      (omega arith)

-- A machine with 64 KB behind the first 4 MB, and before it starts.
abbrev small_ram : Ram
small_ram = record { cells = λ i. 0; limit = 2 ^ 20 + 2 ^ 14; absent = λ i. 0 }

abbrev off : Control
off = record { cr0 = λ i. false; cr3 = 0; cr4 = λ i. false }

abbrev unset : Mm
unset = record {
  kernel_pf_info = λ j i. true;
  usr_pf_info = λ j i. true;
  usr_pf_limit = 0;
  tables = λ f i. no_entry;
}

small_ram-IsMemory : IsMemory (2 ^ 20 + 2 ^ 14) small_ram
small_ram-IsMemory = record { size = refl; absent = λ i h e. absurd (omega (arith, e)) }

mm_init-IsStarted_example :
    (s : Started) × (mm_init (2 ^ 14 + 1) small_ram off unset ≡ some s)
    × IsStarted (2 ^ 20 + 2 ^ 14) s
mm_init-IsStarted_example =
    mm_init-IsStarted (2 ^ 14 + 1) (2 ^ 20 + 2 ^ 14) small_ram off unset small_ram-IsMemory
      (omega arith) (omega arith) (omega arith)

sys_palloc-IsAnswer_example :
    IsAnswer 1023 1 256 small (sys_palloc 256 small)
    × ((sys_palloc 256 small).1.usr_pf_info ≡ small.usr_pf_info)
    × ((sys_palloc 256 small).1.kernel_pf_info ≡ small.kernel_pf_info)
sys_palloc-IsAnswer_example = sys_palloc-IsAnswer 256 small
