-- ===== src/Loader/Process/Examples.antt =====
-- A kernel with one directory, a load from the idle task, and an exit.
use pso.Base.{
  ℕ, ◌+◌, ◌*◌, ◌%◌, ◌<◌, ◌≡◌, ◌&&◌, ◌==◌, refl, [], ◌∷◌, ltb, false, inr, minus_one, if◌then◌else◌,
  sub32, arith,
}
use pso.Mm.{Mm, no_entry, mm_mem_kalloc, mm_mem_alloc, page_frame_info_alloc}
use pso.Mm.Paging.{mm_page_map, find_table}
use pso.Mm.Paging.Directory.{mm_dir_new}
use pso.Device.{Devices, CharDev}
use pso.Sched.Queue
use pso.Sched.Queue.{Queue, idle, running, Represents, IsQueued, current}
use pso.Loader.{Loader, Task}
use pso.Loader.Pids.{IsFree}
use pso.Loader.Process.{
  Kernel, PsoFile, created, loader_load, loader_exit, load_space, map_stacks, map_page,
}
use pso.Mm.Paging.Mapping.{IsRunning}
use pso.Loader.Process.Granted.{HasRoom}
use pso.Loader.Process.Ready.{IsLoaded}
use pso.Loader.Process.Exit.{loader_exit_lem}
use pso.Loader.Process.Load.{IsEntered, IsMade, first_context, loader_load_lem}

-- The kernel's frames 256 to 259 are in use; 257 is the directory and 258 its last table.
abbrev memory : Mm
memory = record {
  kernel_pf_info = λ j i. ltb (j * 32 + i) 4;
  usr_pf_info = λ j i. false;
  usr_pf_limit = 4;
  tables =
      λ f i. if f == 257 && i == 1023 then record { attr = λ n. n == 0; base = 258 } else no_entry;
}

abbrev tables : ℕ → Task
tables p = record { next = 0; prev = 0; cr3 = 257 * 4096; esp0 = 0 }

abbrev idle_loader : Loader
idle_loader = record {
  task_table = tables;
  cur_pid = 0;
  tasks_running = 0;
  tasks_blocked = 0;
  free_pids = λ p. if p == 1 then 2 else minus_one;
  next_free = 1;
  sched = record {
    tasks = λ p. record { state = 0; next = 0; prev = 0 };
    quantum = 0;
    current_pid = 0;
    last = 0;
  };
  cpu = record { cr3 = 257 * 4096; esp = 0x2_0000 };
}

abbrev no_devices : Devices ℕ
no_devices = record { char_devices = λ p i. 0; cur_pid = 0; refcount = λ i. 0; world = 0 }

abbrev start : Kernel ℕ
start = record { loader = idle_loader; mm = memory; devices = no_devices }

-- A program of sixteen bytes at 4 MB.
abbrev program : PsoFile
program = record {
  mem_start = 0x40_0000;
  mem_end_disk = 0x40_0010;
  main = 0x40_0014;
  bytes = λ i. i % 256;
}

memory-IsRunning : IsRunning 257 memory
memory-IsRunning = record {
  dir = (inr (omega arith, omega arith, refl), omega arith);
  present = refl;
  small = refl;
  table = (inr (omega arith, omega arith, refl), omega arith, omega arith);
}

memory-HasRoom : HasRoom memory
unfolding mm_mem_kalloc mm_mem_alloc page_frame_info_alloc mm_dir_new mm_page_map find_table
    load_space map_stacks map_page
memory-HasRoom = record {
  limit = omega arith;
  directory = (omega arith, omega arith);
  page = omega arith;
  stack3 = omega arith;
  stack0 = omega arith;
  stacks = (omega arith, omega arith);
  program = (omega arith, omega arith);
}

two_left-IsFree : IsFree idle_loader (1 ∷ 2 ∷ [])
two_left-IsFree = record { chain = omega arith; distinct = (refl, (refl, tt)); pids = omega arith }

idle-Represents : Represents idle_loader.sched (idle 0)
idle-Represents = omega arith

loader_load_lem_example :
    (k' : Kernel ℕ) × (loader_load 0x1000 program 1 start ≡ created 1 k')
    × IsEntered 1 (load_space memory).dir (2 ∷ []) (idle 0) k'.loader
    × IsLoaded 257 16 (first_context 0x1000 program 1 start) program (load_space memory) k'.mm
    × IsMade program (load_space memory) k'.mm
loader_load_lem_example =
    loader_load_lem 0x1000 program 1 start (2 ∷ []) (idle 0) memory-IsRunning memory-HasRoom
      (omega arith) (omega arith) (λ i. omega arith) (omega arith) two_left-IsFree refl
      idle-Represents

-- Task 1 runs alone, with a device on descriptor 0, and 2 is free.
abbrev alone : Kernel ℕ
alone = record {
  loader = record idle_loader {
    cur_pid = 1;
    tasks_running = 1;
    next_free = 2;
    sched = record {
      tasks = λ p. record { state = 0; next = 1; prev = 1 };
      quantum = 2;
      current_pid = 1;
      last = 1;
    };
  };
  mm = memory;
  devices = record no_devices { char_devices = λ p i. if p == 1 && i == 0 then 500 else 0 };
}

abbrev plain : CharDev ℕ
plain = record {
  read = λ dev buf size s. (0, s);
  write = λ dev buf size s. (size, s);
  seek = λ dev pos s. (0, s);
  flush = λ dev s. (0, s);
}

alone-Represents : Represents alone.loader.sched (running 1 [] 2)
alone-Represents = (
  refl,
  refl,
  omega arith,
  omega arith,
  record {
    ring = (refl, refl);
    distinct = (refl, tt);
    pids = omega arith;
    states = omega arith;
    last_in = refl;
  },
)

alone-IsFree : IsFree alone.loader (2 ∷ [])
alone-IsFree = record { chain = omega arith; distinct = (refl, tt); pids = omega arith }

loader_exit_lem_example :
    let k' = loader_exit plain alone in
    Represents k'.loader.sched (Queue.leave (running 1 [] 2))
    × (k'.loader.cur_pid ≡ current (Queue.leave (running 1 [] 2)))
    × (k'.loader.cpu.cr3 ≡ (alone.loader.task_table (current (Queue.leave (running 1 [] 2)))).cr3)
    × ((k'.loader.task_table 1).cr3 ≡ 0)
    × ((fd : ℕ) → fd < 32 → k'.devices.char_devices 1 fd ≡ 0)
    × IsFree k'.loader (1 ∷ 2 ∷ [])
    × (k'.loader.tasks_running ≡ sub32 alone.loader.tasks_running 1)
loader_exit_lem_example =
    loader_exit_lem plain alone 1 2 [] (2 ∷ []) alone-Represents refl alone-IsFree refl
