-- ===== src/Sched/Queue.antt =====
-- What the scheduler promises, without tables and links: the runnable tasks in the order in which
-- they run, and what each call does to that order.
use pso.Base.{
  ℕ, ◌-◌, ◌≤◌, ◌<◌, ◌≡◌, true, List, [], ◌∷◌, ◌++◌, Option, none, some, ◌==◌, if◌then◌else◌, has,
  Distinct, All,
}
use pso.Ring.{Ring}
use pso.Sched.{Sched, next_of, prev_of, full_quantum, max_pid, state_running}

-- `idle`: no task is runnable. `ready p`: the idle task runs, and `p` is dispatched at the next
-- tick. `running c xs`: `c` runs, and `xs` follow it. A number is the quantum left.
pub data Queue : Type 0 where
  idle : ℕ → Queue
  ready : ℕ → ℕ → Queue
  running : ℕ → List ℕ → ℕ → Queue

-- The runnable tasks, and the pid of the task that runs.
abbrev pub runnable : Queue → List ℕ
runnable (idle k) = []
runnable (ready p k) = p ∷ []
runnable (running c xs k) = c ∷ xs

abbrev pub current : Queue → ℕ
current (idle k) = 0
current (ready p k) = 0
current (running c xs k) = c

-- A task is loaded right behind the one that runs. Beside the idle task it becomes the one task
-- that is ready.
unfoldable pub load : ℕ → Queue → Queue
load p (idle k) = ready p k
load p (ready q k) = ready p k
load p (running c xs k) = running c (p ∷ xs) k

-- A task that wakes runs at once if the processor is idle, else right behind the one that runs.
unfoldable pub unblock : ℕ → Queue → Queue × Option ℕ
unblock p (idle k) = (running p [] k, some p)
unblock p (ready q k) = (running p [] k, some p)
unblock p (running c xs k) = (running c (p ∷ xs) k, none)

-- The task that runs leaves, and the next one gets a full quantum.
unfoldable pub leave : Queue → Queue
leave (running c [] k) = idle full_quantum
leave (running c (x ∷ xs) k) = running x xs full_quantum
leave q = q

-- The task that runs uses up one tick, and at the end of its quantum goes to the back.
unfoldable pub tick : Queue → Queue
tick (idle k) = idle k
tick (ready p k) = running p [] full_quantum
tick (running c [] k) = running c [] (if k == 1 then full_quantum else k - 1)
tick (running c (x ∷ xs) k) =
    if k == 1 then running x (xs ++ (c ∷ [])) full_quantum else running c (x ∷ xs) (k - 1)

abbrev pub IsPid : ℕ → Type 0
IsPid p = (0 < p) × (p < max_pid)

abbrev pub IsRunnable : Sched → ℕ → Type 0
IsRunnable s p = (s.tasks p).state ≡ state_running

-- The list behind `first`, as the table holds it.
pub record IsQueued (s : Sched) (first : ℕ) (xs : List ℕ) : Type 0 where
  pub ring : Ring (next_of s) (prev_of s) first xs
  pub distinct : Distinct (first ∷ xs)
  pub pids : All IsPid (first ∷ xs)
  pub states : All (IsRunnable s) (first ∷ xs)
  pub last_in : has s.last (first ∷ xs) ≡ true

-- The table and the variables hold the queue.
abbrev pub Represents : Sched → Queue → Type 0
Represents s (idle k) = (s.current_pid ≡ 0) × (s.last ≡ 0) × (s.quantum ≡ k) × (k ≤ full_quantum)
Represents s (ready p k) =
    (s.current_pid ≡ 0) × (s.last ≡ p) × (s.quantum ≡ k) × (k ≤ full_quantum) × IsQueued s p []
Represents s (running c xs k) =
    (s.current_pid ≡ c) × (s.quantum ≡ k) × (0 < k) × (k ≤ full_quantum) × IsQueued s c xs
