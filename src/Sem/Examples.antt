-- ===== src/Sem/Examples.antt =====
-- The theorems on semaphores at a concrete system: task 3 runs, 1 is runnable, 5 and 7 wait at
-- semaphore 0, and semaphore 1 has a free place.
use pso.Base.{ℕ, refl, List, [], ◌∷◌, arith, ◌==◌, if◌then◌else◌, update, Bool-cases, inl, inr}
use pso.Sched.{SchedTask}
use pso.Sched.Queue
use pso.Sched.Queue.{running}
use pso.Loader.{Loader, Task}
use pso.Sem.{sem_new, wait, broadcast}
use pso.Sem.System.{Sems, IsSystem}
use pso.Sem.System.Reach.{Config, booted, Reach, Step, IsKept, Reach-IsKept}
use pso.Sem.System.Broadcast.{Broadcasts, broadcast-IsSystem}

abbrev entry : ℕ → ℕ → Task
entry next prev = record { next = next; prev = prev; cr3 = 0; esp0 = 0 }

abbrev queued : ℕ → ℕ → SchedTask
queued next prev = record { state = 0; next = next; prev = prev }

abbrev kernel : Loader
kernel = record {
  task_table = λ p. if p == 5 then entry 7 7 else if p == 7 then entry 5 5 else entry 0 0;
  cur_pid = 3;
  tasks_running = 2;
  tasks_blocked = 2;
  free_pids = λ p. 0;
  next_free = 0;
  sched = record {
    tasks = λ p. if p == 1 then queued 3 3 else if p == 3 then queued 1 1 else queued 0 0;
    quantum = 2;
    current_pid = 3;
    last = 3;
  };
  cpu = record { cr3 = 0x10_0000; esp = 0x2_0000 };
}

abbrev sems : Sems
sems i = if i == 0 then record { vl = 0; q = 5 } else sem_new 1

abbrev waiting : ℕ → List ℕ
waiting i = if i == 0 then 5 ∷ 7 ∷ [] else []

kernel-IsSystem : IsSystem kernel sems (running 3 (1 ∷ []) 2) waiting
kernel-IsSystem = record {
  sched = (
    refl,
    refl,
    omega arith,
    omega arith,
    record {
      ring = (refl, refl, (refl, refl));
      distinct = (refl, (refl, tt));
      pids = omega arith;
      states = omega arith;
      last_in = refl;
    },
  );
  same = refl;
  waits = λ i. elim (Bool-cases (i == 0)) [
    | inl e ↦ rw e (refl, (refl, refl, (refl, refl)), (refl, (refl, tt)), omega arith)
    | inr e ↦ rw e refl
  ];
  apart = λ i p h. ground arith;
  once = λ i j p ne h. ground arith;
  permits = λ i h. ground arith;
  quantum = λ i p h. omega arith;
}

broadcast-IsSystem_example :
    Broadcasts sems 0 (running 3 (7 ∷ 5 ∷ 1 ∷ []) 2) waiting (broadcast (sems 0) kernel)
unfolding Queue.unblock
broadcast-IsSystem_example = broadcast-IsSystem kernel sems 3 (1 ∷ []) 2 waiting 0 kernel-IsSystem

-- A kernel as the static variables begin, and a wait before the first tick.
abbrev zeroed : Loader
zeroed = record kernel {
  sched = record { tasks = λ p. queued 0 0; quantum = 0; current_pid = 0; last = 0 };
}

abbrev start : Config
start = booted zeroed (λ i. 1)

one_wait : Reach start (record start {
  loader = (wait (start.sems 2) start.loader).1;
  sems = update start.sems 2 (wait (start.sems 2) start.loader).0;
  passed = update start.passed 2 1;
})
one_wait = Reach.next Reach.here (Step.takes start 2 (omega arith))

Reach-IsKept_example :
    IsKept
      (λ i. 1)
      (record start {
        loader = (wait (start.sems 2) start.loader).1;
        sems = update start.sems 2 (wait (start.sems 2) start.loader).0;
        passed = update start.passed 2 1;
      })
Reach-IsKept_example = Reach-IsKept zeroed (λ i. 1) refl one_wait
