-- ===== src/Loader/Examples.antt =====
-- The theorems on free pids and wait queues at concrete tables.
use pso.Base.{ℕ, ◌≡◌, refl, [], ◌∷◌, arith, ◌==◌, if◌then◌else◌, minus_one}
use pso.Loader.{Loader, Task, init, get_new_pid, switch_to}
use pso.Loader.Pids.{IsFree, HandsOut, all_pids, init-IsFree, get_new_pid_lem}
use pso.Loader.WaitQueue.{Waits}

abbrev entry : ℕ → ℕ → Task
entry next prev = record { next = next; prev = prev; cr3 = 0; esp0 = 0 }

-- Tasks 5 and 7 wait, 5 first.
abbrev two_wait : ℕ → Task
two_wait p = if p == 5 then entry 7 7 else if p == 7 then entry 5 5 else entry 0 0

abbrev zeroed : Loader
zeroed = record {
  task_table = λ p. entry 0 0;
  cur_pid = 0;
  tasks_running = 0;
  tasks_blocked = 0;
  free_pids = λ p. 0;
  next_free = 0;
  sched = record {
    tasks = λ p. record { state = 0; next = 0; prev = 0 };
    quantum = 0;
    current_pid = 0;
    last = 0;
  };
  cpu = record { cr3 = 0x10_0000; esp = 0x2_0000 };
}

two_wait-Waits : Waits two_wait 5 (5 ∷ 7 ∷ [])
two_wait-Waits = (refl, (refl, refl, (refl, refl)), (refl, (refl, tt)), omega arith)

init_runs :
    ((init zeroed).free_pids 7 ≡ 8)
    × ((init zeroed).free_pids 31 ≡ minus_one)
    × (((init zeroed).task_table 0).cr3 ≡ 0x10_0000)
unfolding init
init_runs = (refl, refl, refl)

-- A switch saves one task's stack pointer and loads the other's.
switch_runs :
    (((switch_to 5 zeroed).task_table 0).esp0 ≡ 0x1_fff0) × ((switch_to 5 zeroed).cpu.esp ≡ 20)
unfolding switch_to
switch_runs = (refl, refl)

get_new_pid_lem_example : HandsOut all_pids (get_new_pid (init zeroed))
get_new_pid_lem_example = get_new_pid_lem all_pids (init zeroed) (init-IsFree zeroed)

-- The list of free pids while none is left.
abbrev exhausted : Loader
exhausted = record zeroed { next_free = minus_one }

exhausted-IsFree : IsFree exhausted []
exhausted-IsFree = record { chain = refl; distinct = tt; pids = tt }
