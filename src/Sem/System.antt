-- ===== src/Sem/System.antt =====
-- The run queue and the wait queues together: the state of the tasks and of all semaphores, the
-- steps that the kernel takes, and the invariant that ties them.
pub mod Enqueue
pub mod Unqueue
pub mod Steps
pub mod Reach
pub mod Broadcast
use pso.Base.{ℕ, ◌<◌, ◌≡◌, ◌≢◌, true, false, List, [], update, has}
use pso.Sched.Queue.{Queue, runnable, Represents}
use pso.Loader.{Loader}
use pso.Loader.WaitQueue.{Waits}
use pso.Sem.{Sem}

-- The semaphores by number; which variables of the kernel they are does not matter here.
abbrev pub Sems : Type 0
Sems = ℕ → Sem

-- `queue` is the run queue, and `waiting i` are the tasks that wait at semaphore `i`.
pub record IsSystem (l : Loader) (sems : Sems) (queue : Queue) (waiting : ℕ → List ℕ) : Type 0 where
  pub sched : Represents l.sched queue
  -- the loader and the scheduler agree on the task that runs
  pub same : l.cur_pid ≡ l.sched.current_pid
  pub waits : (i : ℕ) → Waits l.task_table (sems i).q (waiting i)
  -- a task that waits is not runnable, and waits at one semaphore
  pub apart : (i p : ℕ) → has p (waiting i) ≡ true → has p (runnable queue) ≡ false
  pub once : (i j p : ℕ) → i ≢ j → has p (waiting i) ≡ true → has p (waiting j) ≡ false
  -- nobody waits at a semaphore with free places
  pub permits : (i : ℕ) → 0 < (sems i).vl → waiting i ≡ []
  -- a wait leaves a quantum for the next task
  pub quantum : (i p : ℕ) → has p (waiting i) ≡ true → 0 < l.sched.quantum
