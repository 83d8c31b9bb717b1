-- ===== src/Sched/Refine/Insert.antt =====
-- `sched_load` and `sched_unblock`: a task enters the queue.
use pso.Base.{
  ℕ, ◌<◌, ◌≡◌, ◌≢◌, refl, ap, ◌∙◌, subst, true, false, List, [], ◌∷◌, some, none, arith, has,
  All-mono,
}
use pso.Ring.Splice.{Ring-insert}
use pso.Sched.{Sched, next_of, prev_of, load, unblock, state_running}
use pso.Sched.Queue
use pso.Sched.Queue.{Queue, idle, ready, running, runnable, IsPid, IsRunnable, IsQueued, Represents}

-- `t` is `s` with `p` put behind `c`.
record IsInserted (p c : ℕ) (s t : Sched) : Type 0 where
  next_c : next_of t c ≡ p
  next_p : next_of t p ≡ next_of s c
  prev_p : prev_of t p ≡ c
  prev_next : prev_of t (next_of s c) ≡ p
  nexts : (b : ℕ) → b ≢ c → b ≢ p → next_of t b ≡ next_of s b
  prevs : (b : ℕ) → b ≢ next_of s c → b ≢ p → prev_of t b ≡ prev_of s b
  state_p : (t.tasks p).state ≡ state_running
  states : (b : ℕ) → b ≢ p → (t.tasks b).state ≡ (s.tasks b).state

IsInserted-IsQueued :
    (p c : ℕ) (xs : List ℕ) (s t : Sched)
    → IsPid p
    → has p (c ∷ xs) ≡ false
    → has t.last (c ∷ p ∷ xs) ≡ true
    → IsInserted p c s t
    → IsQueued s c xs
    → IsQueued t c (p ∷ xs)
IsInserted-IsQueued p c xs s t pid out last_in i q = record {
  ring =
      Ring-insert c xs p q.distinct out i.nexts i.prevs i.next_c i.prev_p i.next_p i.prev_next
        q.ring;
  distinct = (ground arith, (ground arith, q.distinct.1));
  pids = (q.pids.0, (pid, q.pids.1));
  states = (
    ground (arith, i.states c),
    (
      i.state_p,
      All-mono (IsRunnable s) (IsRunnable t) xs (λ b m h. ground (arith, i.states b)) q.states.1,
    ),
  );
  last_in = last_in;
}

load-IsInserted :
    (p : ℕ) (s : Sched)
    → s.current_pid ≢ 0
    → p ≢ s.current_pid
    → p ≢ next_of s s.current_pid
    → IsInserted p s.current_pid s (load p s)
unfolding load
load-IsInserted p s nz ne nn = record {
  next_c = ground arith;
  next_p = ground arith;
  prev_p = ground arith;
  prev_next = ground arith;
  nexts = λ b h k. ground arith;
  prevs = λ b h k. ground arith;
  state_p = ground arith;
  states = λ b h. ground arith;
}

unblock-IsInserted :
    (p : ℕ) (s : Sched)
    → s.current_pid ≢ 0
    → p ≢ s.current_pid
    → p ≢ next_of s s.current_pid
    → IsInserted p s.current_pid s (unblock p s).0
unfolding unblock
unblock-IsInserted p s nz ne nn = record {
  next_c = ground arith;
  next_p = ground arith;
  prev_p = ground arith;
  prev_next = ground arith;
  nexts = λ b h k. ground arith;
  prevs = λ b h k. ground arith;
  state_p = ground arith;
  states = λ b h. ground arith;
}

-- A task that is not queued is not what the first link leads to.
next-fresh :
    (p c : ℕ) (xs : List ℕ) (s : Sched) → has p (c ∷ xs) ≡ false → IsQueued s c xs → p ≢ next_of s c
next-fresh p c [] s out q e = let n = q.ring.0 in ground arith
next-fresh p c (x ∷ xs) s out q e = let n = q.ring.0 in ground arith

pid_pos : (p : ℕ) → IsPid p → p ≢ 0
pid_pos p h = omega arith

load-alone : (p : ℕ) (s : Sched) → s.current_pid ≡ 0 → IsPid p → IsQueued (load p s) p []
unfolding load
load-alone p s z pid = record {
  ring = (ground arith, ground arith);
  distinct = (refl, tt);
  pids = (pid, tt);
  states = (ground arith, tt);
  last_in = ground arith;
}

unblock-alone : (p : ℕ) (s : Sched) → s.current_pid ≡ 0 → IsPid p → IsQueued (unblock p s).0 p []
unfolding unblock
unblock-alone p s z pid = record {
  ring = (ground arith, ground arith);
  distinct = (refl, tt);
  pids = (pid, tt);
  states = (ground arith, tt);
  last_in = ground arith;
}

load_vars :
    (p : ℕ) (s : Sched)
    → ((load p s).current_pid ≡ s.current_pid)
      × ((load p s).last ≡ p)
      × ((load p s).quantum ≡ s.quantum)
unfolding load
load_vars p s = ground arith

-- `sched_load` of a task that is not queued puts it right behind the running task; while the idle
-- task runs, the loaded task becomes the one that is ready.
pub load_refines :
    (p : ℕ) (s : Sched) (q : Queue)
    → IsPid p
    → has p (runnable q) ≡ false
    → Represents s q
    → Represents (load p s) (Queue.load p q)
unfolding Queue.load
load_refines p s (idle k) pid out r =
    let v = load_vars p s in (omega arith, v.1, omega arith, r.3, load-alone p s r.0 pid)
load_refines p s (ready a k) pid out r =
    let v = load_vars p s in (omega arith, v.1, omega arith, r.3, load-alone p s r.0 pid)
load_refines p s (running c xs k) pid out (e, ek, pos, le, q) =
    let v = load_vars p s in
    let i : IsInserted p c s (load p s) =
      subst (λ a. IsInserted p a s (load p s)) e
        (load-IsInserted p s (omega (arith, q.pids.0)) (ground arith)
          (λ h. next-fresh p c xs s out q (h ∙ ap (next_of s) e))) in
    (
      omega arith,
      omega arith,
      pos,
      le,
      IsInserted-IsQueued p c xs s (load p s) pid out (ground arith) i q,
    )

unblock_vars :
    (p : ℕ) (s : Sched)
    → s.current_pid ≢ 0
    → ((unblock p s).0.current_pid ≡ s.current_pid)
      × ((unblock p s).0.last ≡ s.last)
      × ((unblock p s).0.quantum ≡ s.quantum)
      × ((unblock p s).1 ≡ none)
unfolding unblock
unblock_vars p s nz = ground arith

unblock_idle_vars :
    (p : ℕ) (s : Sched)
    → s.current_pid ≡ 0
    → ((unblock p s).0.current_pid ≡ p)
      × ((unblock p s).0.quantum ≡ s.quantum)
      × ((unblock p s).1 ≡ some p)
unfolding unblock
unblock_idle_vars p s z = ground arith

-- `sched_unblock` of a task that is not queued puts it right behind the running task and switches
-- to nothing; while the idle task runs, it makes the task run and hands it to `loader_switchto`.
-- The quantum must not have run out.
pub unblock_refines :
    (p : ℕ) (s : Sched) (q : Queue)
    → IsPid p
    → has p (runnable q) ≡ false
    → 0 < s.quantum
    → Represents s q
    → Represents (unblock p s).0 (Queue.unblock p q).0 × ((unblock p s).1 ≡ (Queue.unblock p q).1)
unfolding Queue.unblock
unblock_refines p s (idle k) pid out some_left r =
    let v = unblock_idle_vars p s r.0 in
    ((v.0, omega arith, omega arith, r.3, unblock-alone p s r.0 pid), v.2)
unblock_refines p s (ready a k) pid out some_left r =
    let v = unblock_idle_vars p s r.0 in
    ((v.0, omega arith, omega arith, r.3, unblock-alone p s r.0 pid), v.2)
unblock_refines p s (running c xs k) pid out some_left (e, ek, pos, le, q) =
    let nz : s.current_pid ≢ 0 = omega (arith, q.pids.0) in
    let v = unblock_vars p s nz in
    let i =
      unblock-IsInserted p s nz (ground arith)
        (λ h. next-fresh p c xs s out q (h ∙ ap (next_of s) e)) in
    let i' = subst (λ a. IsInserted p a s (unblock p s).0) e i in
    (
      (
        omega arith,
        omega arith,
        pos,
        le,
        IsInserted-IsQueued p c xs s (unblock p s).0 pid out (ground (arith, q.last_in)) i' q,
      ),
      v.3,
    )
