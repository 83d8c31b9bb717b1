-- ===== src/Sem/System/Reach.antt =====
-- The runs of the system from the moment that the kernel is initialised.
use pso.Base.{ℕ, ◌+◌, ◌^◌, ◌<◌, ◌≡◌, refl, subst, false, List, [], ◌∷◌, ◌++◌, arith, has, update}
use pso.Sched
use pso.Sched.Queue
use pso.Sched.Queue.{Queue, idle, running, runnable, IsPid}
use pso.Loader
use pso.Loader.{Loader}
use pso.Sem.{Sem, wait, signal, sem_new}
use pso.Sem.System.{Sems, IsSystem}
use pso.Sem.System.Steps.{
  wait-IsSystem_free, wait-IsSystem_full, signal-IsSystem_wake, signal-IsSystem_free, tick-IsSystem,
  enlist-IsSystem,
}

-- The state of the kernel, beside what it stands for: the queues, and for each semaphore how many
-- calls of `sem_wait` have got through and how many calls of `sem_signal` were made.
pub record Config : Type 0 where
  pub loader : Loader
  pub sems : Sems
  pub queue : Queue
  pub waiting : ℕ → List ℕ
  pub passed : ℕ → ℕ
  pub signals : ℕ → ℕ

-- `sched_init` and `loader_init`, in the order of `kernel_init`.
unfoldable pub boot : Loader → Loader
boot l = Loader.init (record l { sched = Sched.init l.sched })

-- Semaphore `i` begins with `initial i` free places.
abbrev pub booted : Loader → (ℕ → ℕ) → Config
booted l initial = record {
  loader = boot l;
  sems = λ i. sem_new (initial i);
  queue = idle 0;
  waiting = λ i. [];
  passed = λ i. 0;
  signals = λ i. 0;
}

pub data Step : Config → Config → Type 0 where
  -- `sem_wait` with a free place
  takes :
      (c : Config) (i : ℕ)
      → 0 < (c.sems i).vl
      → Step c (record c {
        loader = (wait (c.sems i) c.loader).1;
        sems = update c.sems i (wait (c.sems i) c.loader).0;
        passed = update c.passed i (c.passed i + 1);
      })
  -- `sem_wait` by a task, with no free place
  blocks :
      (c : Config) (i p k : ℕ) (xs : List ℕ)
      → (c.sems i).vl ≡ 0
      → c.queue ≡ running p xs k
      → Step c (record c {
        loader = (wait (c.sems i) c.loader).1;
        sems = update c.sems i (wait (c.sems i) c.loader).0;
        queue = Queue.leave (running p xs k);
        waiting = update c.waiting i (c.waiting i ++ (p ∷ []));
      })
  -- `sem_signal` with a task waiting, which gets through its `sem_wait`
  wakes :
      (c : Config) (i p : ℕ) (xs : List ℕ)
      → c.waiting i ≡ p ∷ xs
      → Step c (record c {
        loader = (signal (c.sems i) c.loader).1;
        sems = update c.sems i (signal (c.sems i) c.loader).0;
        queue = (Queue.unblock p c.queue).0;
        waiting = update c.waiting i xs;
        passed = update c.passed i (c.passed i + 1);
        signals = update c.signals i (c.signals i + 1);
      })
  -- `sem_signal` with nobody waiting, short of the 2^32 places at which the count wraps
  frees :
      (c : Config) (i : ℕ)
      → c.waiting i ≡ []
      → (c.sems i).vl + 1 < 2 ^ 32
      → Step c (record c {
        loader = (signal (c.sems i) c.loader).1;
        sems = update c.sems i (signal (c.sems i) c.loader).0;
        signals = update c.signals i (c.signals i + 1);
      })
  ticks :
      (c : Config) → Step c (record c { loader = Loader.tick c.loader; queue = Queue.tick c.queue })
  -- a new task is loaded, under a pid that no task has
  enlists :
      (c : Config) (p : ℕ)
      → IsPid p
      → has p (runnable c.queue) ≡ false
      → ((i : ℕ) → has p (c.waiting i) ≡ false)
      → Step c (record c { loader = Loader.enlist p c.loader; queue = Queue.load p c.queue })

pub data Reach (c : Config) : Config → Type 0 where
  here : Reach c c
  next : {d e : Config} → Reach c d → Step d e → Reach c e

-- The invariant, and the account of every semaphore.
pub record IsKept (initial : ℕ → ℕ) (c : Config) : Type 0 where
  pub system : IsSystem c.loader c.sems c.queue c.waiting
  pub account : (i : ℕ) → c.passed i + (c.sems i).vl ≡ initial i + c.signals i

boot-IsKept :
    (l : Loader) (initial : ℕ → ℕ) → l.sched.quantum ≡ 0 → IsKept initial (booted l initial)
unfolding boot Loader.init Sched.init
boot-IsKept l initial zero_left = record {
  system = record {
    sched = (refl, refl, zero_left, omega arith);
    same = refl;
    waits = λ i. refl;
    apart = λ i p h. refl;
    once = λ i j p ne h. refl;
    permits = λ i h. refl;
    quantum = λ i p h. absurd (cc);
  };
  account = λ i. omega arith;
}

wait_free_vl : (s : Sem) (l : Loader) → 0 < s.vl → (wait s l).0.vl + 1 ≡ s.vl
unfolding wait
wait_free_vl s l h = ground arith

wait_full_vl : (s : Sem) (l : Loader) → s.vl ≡ 0 → (wait s l).0.vl ≡ s.vl
unfolding wait
wait_full_vl s l h = ground arith

Step-IsKept : (initial : ℕ → ℕ) (c d : Config) → Step c d → IsKept initial c → IsKept initial d
Step-IsKept initial _ _ (takes c i h) v = record {
  system = wait-IsSystem_free c.loader c.sems c.queue c.waiting i h v.system;
  account = λ j. ground (arith, v.account j, wait_free_vl (c.sems i) c.loader);
}
Step-IsKept initial _ _ (blocks c i p k xs h e) v = record {
  system =
      wait-IsSystem_full c.loader c.sems p xs k c.waiting i h
        (subst (λ q. IsSystem c.loader c.sems q c.waiting) e v.system);
  account = λ j. ground (arith, v.account j, wait_full_vl (c.sems i) c.loader);
}
Step-IsKept initial _ _ (wakes c i p xs e) v =
    let s = signal-IsSystem_wake c.loader c.sems c.queue c.waiting i p xs e v.system in
    record { system = s.0; account = λ j. ground (arith, v.account j, s.1) }
Step-IsKept initial _ _ (frees c i e h) v =
    let s = signal-IsSystem_free c.loader c.sems c.queue c.waiting i e v.system in
    record { system = s.0; account = λ j. ground (arith, v.account j, s.1) }
Step-IsKept initial _ _ (ticks c) v = record {
  system = tick-IsSystem c.loader c.sems c.queue c.waiting v.system;
  account = v.account;
}
Step-IsKept initial _ _ (enlists c p pid out fresh) v = record {
  system = enlist-IsSystem c.loader c.sems c.queue c.waiting p pid out fresh v.system;
  account = v.account;
}

-- Whatever the order of waits, signals, ticks and new tasks since the kernel was initialised, the
-- tables hold the run queue and the wait queues as linked lists without a task in two places, the
-- loader and the scheduler agree on the running task, nobody waits at a semaphore with free
-- places, and the calls of `sem_wait` that got through are those that the places at the start and
-- the signals allow, less the places that are free.
pub Reach-IsKept :
    (l : Loader) (initial : ℕ → ℕ)
    → l.sched.quantum ≡ 0
    → {c : Config} → Reach (booted l initial) c
    → IsKept initial c
Reach-IsKept l initial zero_left here = boot-IsKept l initial zero_left
Reach-IsKept l initial zero_left (next {d} {e} r st) =
    Step-IsKept initial d e st (Reach-IsKept l initial zero_left r)
