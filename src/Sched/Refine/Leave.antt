-- ===== src/Sched/Refine/Leave.antt =====
-- `sched_block` and `sched_exit`: the running task leaves the queue.
use pso.Base.{ℕ, ◌≡◌, ◌≢◌, ◌⊎◌, sym, ◌∙◌, subst, List, [], ◌∷◌, arith, All-mono, minus_one}
use pso.Ring.Splice.{Ring-remove, has-last, Links-last}
use pso.Sched.{Sched, next_of, prev_of, block, exit, state_blocked, state_finished, full_quantum}
use pso.Sched.Queue
use pso.Sched.Queue.{Queue, idle, ready, running, current, IsRunnable, IsQueued, Represents}

-- `t` is `s` with its current task taken out, in state `v`, and the next one current.
record IsRemoved (v : ℕ) (s t : Sched) : Type 0 where
  next_prev : next_of t (prev_of s s.current_pid) ≡ next_of s s.current_pid
  prev_next : prev_of t (next_of s s.current_pid) ≡ prev_of s s.current_pid
  nexts : (b : ℕ) → b ≢ s.current_pid → b ≢ prev_of s s.current_pid → next_of t b ≡ next_of s b
  prevs : (b : ℕ) → b ≢ s.current_pid → b ≢ next_of s s.current_pid → prev_of t b ≡ prev_of s b
  states : (b : ℕ) → b ≢ s.current_pid → (t.tasks b).state ≡ (s.tasks b).state
  current : t.current_pid ≡ next_of s s.current_pid
  quantum : t.quantum ≡ full_quantum
  last : (t.last ≡ prev_of s s.current_pid) ⊎ ((t.last ≡ s.last) × (s.last ≢ s.current_pid))
  left : (t.tasks s.current_pid).state ≡ v
  next_left : next_of t s.current_pid ≡ minus_one
  prev_left : prev_of t s.current_pid ≡ minus_one

module _ (s : Sched) (next_ne : next_of s s.current_pid ≢ s.current_pid)
    (prev_ne : prev_of s s.current_pid ≢ s.current_pid) where
  block-IsRemoved : IsRemoved state_blocked s (block s).1
  unfolding block
  block-IsRemoved = record {
    next_prev = ground arith;
    prev_next = ground arith;
    nexts = λ b h k. ground arith;
    prevs = λ b h k. ground arith;
    states = λ b h. ground arith;
    current = ground arith;
    quantum = ground arith;
    last = ground arith;
    left = ground arith;
    next_left = ground arith;
    prev_left = ground arith;
  }

  exit-IsRemoved : IsRemoved state_finished s (exit s).1
  unfolding exit
  exit-IsRemoved = record {
    next_prev = ground arith;
    prev_next = ground arith;
    nexts = λ b h k. ground arith;
    prevs = λ b h k. ground arith;
    states = λ b h. ground arith;
    current = ground arith;
    quantum = ground arith;
    last = ground arith;
    left = ground arith;
    next_left = ground arith;
    prev_left = ground arith;
  }

-- The queue behind the task that left.
IsRemoved-IsQueued :
    (v x : ℕ) (xs : List ℕ) (s t : Sched)
    → IsRemoved v s t
    → IsQueued s s.current_pid (x ∷ xs)
    → IsQueued t x xs
IsRemoved-IsQueued v x xs s t i q =
    let c = s.current_pid in
    let (_, back) = Links-last (next_of s) (prev_of s) x xs c q.ring.2 in
    record {
      ring = Ring-remove c x xs q.distinct i.nexts i.prevs i.next_prev i.prev_next q.ring;
      distinct = q.distinct.1;
      pids = q.pids.1;
      states =
          All-mono (IsRunnable s) (IsRunnable t) (x ∷ xs)
            (λ b m h. ground (arith, i.states b, q.distinct.0)) q.states.1;
      last_in = ground (arith, i.last, q.last_in, has-last x xs);
    }

-- With another task queued, the current one is linked to others on both sides.
next_ne_current :
    (x : ℕ) (xs : List ℕ) (s : Sched)
    → IsQueued s s.current_pid (x ∷ xs)
    → (next_of s s.current_pid ≢ s.current_pid) × (prev_of s s.current_pid ≢ s.current_pid)
next_ne_current x xs s q =
    let (_, back) = Links-last (next_of s) (prev_of s) x xs s.current_pid q.ring.2 in
    let out = q.distinct.0 in
    let n = q.ring.0 in (λ h. ground arith, λ h. ground (arith, has-last x xs))

block_alone :
    (s : Sched)
    → next_of s s.current_pid ≡ s.current_pid
    → ((block s).0 ≡ 0)
      × ((block s).1.current_pid ≡ 0)
      × ((block s).1.last ≡ 0)
      × ((block s).1.quantum ≡ full_quantum)
unfolding block
block_alone s h = ground arith

block_returns : (s : Sched) → (block s).0 ≡ (block s).1.current_pid
unfolding block
block_returns s = ground arith

exit_alone :
    (s : Sched)
    → next_of s s.current_pid ≡ s.current_pid
    → ((exit s).0 ≡ 0)
      × ((exit s).1.current_pid ≡ 0)
      × ((exit s).1.last ≡ 0)
      × ((exit s).1.quantum ≡ full_quantum)
unfolding exit
exit_alone s h = ground arith

exit_returns : (s : Sched) → (exit s).0 ≡ (exit s).1.current_pid
unfolding exit
exit_returns s = ground arith

-- The task `p` is in state `v`, and its links lead nowhere.
abbrev pub IsOut : ℕ → ℕ → Sched → Type 0
IsOut v p s = ((s.tasks p).state ≡ v) × (next_of s p ≡ minus_one) × (prev_of s p ≡ minus_one)

block-IsOut : (s : Sched) → IsOut state_blocked s.current_pid (block s).1
unfolding block
block-IsOut s = (ground arith, ground arith, ground arith)

exit-IsOut : (s : Sched) → IsOut state_finished s.current_pid (exit s).1
unfolding exit
exit-IsOut s = (ground arith, ground arith, ground arith)

leave-block :
    (xs : List ℕ) (s : Sched) (k : ℕ)
    → Represents s (running s.current_pid xs k)
    → Represents (block s).1 (Queue.leave (running s.current_pid xs k))
unfolding Queue.leave
leave-block [] s k r = let v = block_alone s r.4.ring.0 in (v.1, v.2, v.3, omega arith)
leave-block (x ∷ xs) s k r =
    let q = r.4 in
    let ne = next_ne_current x xs s q in
    let i = block-IsRemoved s ne.0 ne.1 in
    (i.current ∙ q.ring.0, i.quantum, omega arith, omega arith, IsRemoved-IsQueued _ x xs s _ i q)

leave-exit :
    (xs : List ℕ) (s : Sched) (k : ℕ)
    → Represents s (running s.current_pid xs k)
    → Represents (exit s).1 (Queue.leave (running s.current_pid xs k))
unfolding Queue.leave
leave-exit [] s k r = let v = exit_alone s r.4.ring.0 in (v.1, v.2, v.3, omega arith)
leave-exit (x ∷ xs) s k r =
    let q = r.4 in
    let ne = next_ne_current x xs s q in
    let i = exit-IsRemoved s ne.0 ne.1 in
    (i.current ∙ q.ring.0, i.quantum, omega arith, omega arith, IsRemoved-IsQueued _ x xs s _ i q)

pub Represents-current : (s : Sched) (q : Queue) → Represents s q → s.current_pid ≡ current q
Represents-current s (idle k) r = r.0
Represents-current s (ready p k) r = r.0
Represents-current s (running c xs k) r = r.0

-- `sched_block` takes the running task `c` out of the queue: the next task in order runs with a
-- full quantum, or none does, the call returns its pid, and `c` is left in state blocked with
-- both links at -1.
pub block_refines :
    (c : ℕ) (xs : List ℕ) (k : ℕ) (s : Sched)
    → Represents s (running c xs k)
    → Represents (block s).1 (Queue.leave (running c xs k))
      × ((block s).0 ≡ current (Queue.leave (running c xs k)))
      × IsOut state_blocked c (block s).1
block_refines c xs k s r =
    let r' = subst (λ a. Represents s (running a xs k)) (sym r.0) r in
    let e = leave-block xs s k r' in
    let e' = subst (λ a. Represents (block s).1 (Queue.leave (running a xs k))) r.0 e in
    (
      e',
      block_returns s ∙ Represents-current (block s).1 (Queue.leave (running c xs k)) e',
      subst (λ a. IsOut state_blocked a (block s).1) r.0 (block-IsOut s),
    )

-- `sched_exit` takes the running task `c` out of the queue: the next task in order runs with a
-- full quantum, or none does, the call returns its pid, and `c` is left in state finished with
-- both links at -1.
pub exit_refines :
    (c : ℕ) (xs : List ℕ) (k : ℕ) (s : Sched)
    → Represents s (running c xs k)
    → Represents (exit s).1 (Queue.leave (running c xs k))
      × ((exit s).0 ≡ current (Queue.leave (running c xs k)))
      × IsOut state_finished c (exit s).1
exit_refines c xs k s r =
    let r' = subst (λ a. Represents s (running a xs k)) (sym r.0) r in
    let e = leave-exit xs s k r' in
    let e' = subst (λ a. Represents (exit s).1 (Queue.leave (running a xs k))) r.0 e in
    (
      e',
      exit_returns s ∙ Represents-current (exit s).1 (Queue.leave (running c xs k)) e',
      subst (λ a. IsOut state_finished a (exit s).1) r.0 (exit-IsOut s),
    )
