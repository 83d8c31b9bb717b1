-- ===== src/Sem/System/Steps.antt =====
-- `sem_wait`, `sem_signal` and `loader_tick` on the whole system.
use pso.Base.{
  ℕ, ◌-◌, ◌<◌, ◌≡◌, ◌≢◌, refl, sym, ◌∙◌, subst, true, false, List, [], ◌∷◌, ◌++◌, ◌⊎◌, inl, inr,
  arith, ◌==◌, has, has-append, update, Bool-cases, ==_iff, minus_one, add32,
}
use pso.Sched
use pso.Sched.Queue
use pso.Sched.Queue.{Queue, idle, ready, running, runnable, current, Represents, IsPid}
use pso.Sched.Refine.{tick_refines, load_refines, Represents-current}
use pso.Loader
use pso.Loader.{Loader, next_of, prev_of, enqueue, unqueue, switch_to}
use pso.Loader.WaitQueue.{Waits, Same, Waits-frame}
use pso.Sem.{Sem, wait, signal}
use pso.Sem.System.{Sems, IsSystem}
use pso.Sem.System.Enqueue.{enqueue-IsSystem}
use pso.Sem.System.Unqueue.{unqueue-IsSystem}

-- A semaphore changes its free places and not its queue.
pub IsSystem-places :
    (l : Loader) (sems : Sems) (queue : Queue) (waiting : ℕ → List ℕ) (i v : ℕ)
    → waiting i ≡ []
    → IsSystem l sems queue waiting
    → IsSystem l (update sems i (record (sems i) { vl = v })) queue waiting
IsSystem-places l sems queue waiting i v none_waits s = record {
  sched = s.sched;
  same = s.same;
  waits = λ j. elim (Bool-cases (j == i)) [
    | inl e ↦ rw e (
        subst (λ a. Waits l.task_table (sems i).q (waiting a)) (sym ((==_iff j i).0 e)) (s.waits i))
    | inr e ↦ rw e (s.waits j)
  ];
  apart = s.apart;
  once = s.once;
  permits = λ j h. ground (arith, s.permits j, none_waits);
  quantum = s.quantum;
}

wait_free : (s : Sem) (l : Loader) → 0 < s.vl → wait s l ≡ (record s { vl = s.vl - 1 }, l)
unfolding wait
wait_free s l h = ground arith

wait_full :
    (s : Sem) (l : Loader)
    → s.vl ≡ 0
    → wait s l ≡ (record s { q = (enqueue s.q l).0 }, (enqueue s.q l).1)
unfolding wait
wait_full s l h = ground arith

-- With a free place `sem_wait` takes it, and the task runs on.
pub wait-IsSystem_free :
    (l : Loader) (sems : Sems) (queue : Queue) (waiting : ℕ → List ℕ) (i : ℕ)
    → 0 < (sems i).vl
    → IsSystem l sems queue waiting
    → IsSystem (wait (sems i) l).1 (update sems i (wait (sems i) l).0) queue waiting
wait-IsSystem_free l sems queue waiting i h s =
    rw (wait_free (sems i) l h)
      (IsSystem-places l sems queue waiting i ((sems i).vl - 1) (s.permits i h) s)

-- With no free place `sem_wait` takes the running task `c` out of the run queue and puts it at the
-- end of the semaphore's; the next task in order runs.
pub wait-IsSystem_full :
    (l : Loader) (sems : Sems) (c : ℕ) (xs : List ℕ) (k : ℕ) (waiting : ℕ → List ℕ) (i : ℕ)
    → (sems i).vl ≡ 0
    → IsSystem l sems (running c xs k) waiting
    → IsSystem
        (wait (sems i) l).1
        (update sems i (wait (sems i) l).0)
        (Queue.leave (running c xs k))
        (update waiting i (waiting i ++ (c ∷ [])))
wait-IsSystem_full l sems c xs k waiting i h s =
    rw (wait_full (sems i) l h) (enqueue-IsSystem l sems c xs k waiting i s h)

signal_wake :
    (s : Sem) (l : Loader)
    → s.vl ≡ 0
    → s.q ≢ minus_one
    → signal s l ≡ (record s { q = (unqueue s.q l).0 }, (unqueue s.q l).1)
unfolding signal
signal_wake s l h k = ground arith

signal_free :
    (s : Sem) (l : Loader)
    → (0 < s.vl) ⊎ (s.q ≡ minus_one)
    → signal s l ≡ (record s { vl = add32 s.vl 1 }, l)
unfolding signal
signal_free s l h = ground arith

-- With tasks waiting, `sem_signal` wakes the one that came first: it leaves the semaphore's queue
-- and enters the run queue, at once as the running task if the processor was idle. No place comes
-- free.
pub signal-IsSystem_wake :
    (l : Loader) (sems : Sems) (queue : Queue) (waiting : ℕ → List ℕ) (i x : ℕ) (xs : List ℕ)
    → waiting i ≡ x ∷ xs
    → IsSystem l sems queue waiting
    → IsSystem
        (signal (sems i) l).1
        (update sems i (signal (sems i) l).0)
        (Queue.unblock x queue).0
        (update waiting i xs)
      × ((signal (sems i) l).0.vl ≡ (sems i).vl)
signal-IsSystem_wake l sems queue waiting i x xs e s =
    let w : Waits l.task_table (sems i).q (x ∷ xs) =
      subst (λ a. Waits l.task_table (sems i).q a) e (s.waits i) in
    let empty : (sems i).vl ≡ 0 = ground (arith, s.permits i, e) in
    let there : (sems i).q ≢ minus_one = omega (arith, w.0, w.3.0) in
    rw (signal_wake (sems i) l empty there) (unqueue-IsSystem l sems queue waiting i x xs s e, refl)

-- With nobody waiting, `sem_signal` frees one place and wakes no task.
pub signal-IsSystem_free :
    (l : Loader) (sems : Sems) (queue : Queue) (waiting : ℕ → List ℕ) (i : ℕ)
    → waiting i ≡ []
    → IsSystem l sems queue waiting
    → IsSystem (signal (sems i) l).1 (update sems i (signal (sems i) l).0) queue waiting
      × ((signal (sems i) l).0.vl ≡ add32 (sems i).vl 1)
      × ((signal (sems i) l).1 ≡ l)
signal-IsSystem_free l sems queue waiting i e s =
    let w : Waits l.task_table (sems i).q [] =
      subst (λ a. Waits l.task_table (sems i).q a) e (s.waits i) in
    rw (signal_free (sems i) l (inr w))
      (IsSystem-places l sems queue waiting i (add32 (sems i).vl 1) e s, refl, refl)

tick_vars :
    (l : Loader)
    → ((Loader.tick l).sched ≡ (Sched.tick l.sched).1)
      × ((Loader.tick l).cur_pid ≡ (Sched.tick l.sched).0)
unfolding Loader.tick switch_to
tick_vars l = ground arith

tick-Same : (b : ℕ) (l : Loader) → Same l.task_table (Loader.tick l).task_table b
unfolding Loader.tick switch_to
tick-Same b l = (ground arith, ground arith)

tick-runnable :
    (p : ℕ) (queue : Queue)
    → has p (runnable queue) ≡ false
    → has p (runnable (Queue.tick queue)) ≡ false
unfolding Queue.tick
tick-runnable p (idle k) out = refl
tick-runnable p (ready q k) out = out
tick-runnable p (running c [] k) out = out
tick-runnable p (running c (x ∷ xs) k) out = ground (arith, has-append p xs (c ∷ []))

tick_quantum :
    (queue : Queue) (s : Sched.Sched)
    → 0 < s.quantum
    → Represents s queue
    → 0 < (Sched.tick s).1.quantum
unfolding Sched.tick
tick_quantum queue s h r = ground arith

-- `loader_tick` turns the run queue by the scheduler's tick, switches to the task that now runs,
-- and leaves the wait queues as they are.
pub tick-IsSystem :
    (l : Loader) (sems : Sems) (queue : Queue) (waiting : ℕ → List ℕ)
    → IsSystem l sems queue waiting
    → IsSystem (Loader.tick l) sems (Queue.tick queue) waiting
tick-IsSystem l sems queue waiting s =
    let vars = tick_vars l in
    let t = tick_refines l.sched queue s.sched in
    let ran : Represents (Loader.tick l).sched (Queue.tick queue) =
      subst (λ a. Represents a (Queue.tick queue)) (sym vars.0) t.0 in
    record {
      sched = ran;
      same = vars.1 ∙ t.1 ∙ sym (Represents-current _ _ ran);
      waits = λ j.
          Waits-frame l.task_table (Loader.tick l).task_table (sems j).q (waiting j)
            (λ b m. tick-Same b l) (s.waits j);
      apart = λ j p h. tick-runnable p queue (s.apart j p h);
      once = s.once;
      permits = s.permits;
      quantum = λ j p h.
          subst (λ a. 0 < a.quantum) (sym vars.0)
            (tick_quantum queue l.sched (s.quantum j p h) s.sched);
    }

loaded-runnable :
    (p x : ℕ) (queue : Queue)
    → x ≢ p
    → has x (runnable queue) ≡ false
    → has x (runnable (Queue.load p queue)) ≡ false
unfolding Queue.load
loaded-runnable p x (idle k) ne out = ground arith
loaded-runnable p x (ready q k) ne out = ground arith
loaded-runnable p x (running c xs k) ne out = ground arith

enlist_vars :
    (p : ℕ) (l : Loader)
    → ((Loader.enlist p l).sched ≡ Sched.load p l.sched)
      × ((Loader.enlist p l).cur_pid ≡ l.cur_pid)
      × ((Loader.enlist p l).task_table ≡ l.task_table)
unfolding Loader.enlist
enlist_vars p l = (refl, refl, refl)

load_kept :
    (p : ℕ) (s : Sched.Sched)
    → ((Sched.load p s).quantum ≡ s.quantum) × ((Sched.load p s).current_pid ≡ s.current_pid)
unfolding Sched.load
load_kept p s = ground arith

-- A new task, neither runnable nor waiting, enters the run queue.
pub enlist-IsSystem :
    (l : Loader) (sems : Sems) (queue : Queue) (waiting : ℕ → List ℕ) (p : ℕ)
    → IsPid p
    → has p (runnable queue) ≡ false
    → ((i : ℕ) → has p (waiting i) ≡ false)
    → IsSystem l sems queue waiting
    → IsSystem (Loader.enlist p l) sems (Queue.load p queue) waiting
unfolding Loader.enlist
enlist-IsSystem l sems queue waiting p pid out fresh s =
    let kept = load_kept p l.sched in
    record {
      sched = load_refines p l.sched queue pid out s.sched;
      same = s.same ∙ sym kept.1;
      waits = s.waits;
      apart = λ i x h.
          loaded-runnable p x queue
            (λ e.
              let f = fresh i in
              let g : has p (waiting i) ≡ true = subst (λ a. has a (waiting i) ≡ true) e h in cc)
            (s.apart i x h);
      once = s.once;
      permits = s.permits;
      quantum = λ i x h. subst (λ a. 0 < a) (sym kept.0) (s.quantum i x h);
    }
