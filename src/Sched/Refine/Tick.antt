-- ===== src/Sched/Refine/Tick.antt =====
-- `sched_tick`: the running task uses up its quantum, and the queue turns.
use pso.Base.{
  ℕ, ◌-◌, ◌≤◌, ◌<◌, ◌≡◌, ◌≢◌, refl, ◌∙◌, ap, List, [], ◌∷◌, ◌++◌, arith, has-append, Distinct, All,
  ◌⊎◌, inl, inr, ==_iff, ==_ne,
}
use pso.Ring.Splice.{Links-turn}
use pso.Sched.{Sched, next_of, prev_of, tick, full_quantum}
use pso.Sched.Queue
use pso.Sched.Queue.{Queue, idle, ready, running, current, IsPid, IsRunnable, IsQueued, Represents}

-- The queue seen from its second element.
All-turn : (P : ℕ → Type 0) (c : ℕ) (xs : List ℕ) → P c → All P xs → All P (xs ++ (c ∷ []))
All-turn P c [] p h = (p, tt)
All-turn P c (x ∷ xs) p h = (h.0, All-turn P c xs p h.1)

Distinct-turn : (c : ℕ) (xs : List ℕ) → Distinct (c ∷ xs) → Distinct (xs ++ (c ∷ []))
Distinct-turn c [] d = d
Distinct-turn c (x ∷ xs) d = (
  ground (arith, has-append x xs (c ∷ []), d.0, d.1.0),
  Distinct-turn c xs (ground (arith, d.0), d.1.1),
)

IsQueued-turn :
    (c x : ℕ) (xs : List ℕ) (s : Sched) → IsQueued s c (x ∷ xs) → IsQueued s x (xs ++ (c ∷ []))
IsQueued-turn c x xs s q = record {
  ring = Links-turn (next_of s) (prev_of s) x xs c x q.ring.2 q.ring.0 q.ring.1;
  distinct = Distinct-turn c (x ∷ xs) q.distinct;
  pids = All-turn IsPid c (x ∷ xs) q.pids.0 q.pids.1;
  states = All-turn (IsRunnable s) c (x ∷ xs) q.states.0 q.states.1;
  last_in = ground (arith, has-append s.last xs (c ∷ []), q.last_in);
}

-- The queue does not read the two variables that a tick writes.
IsQueued-vars :
    (c k p : ℕ) (xs : List ℕ) (s : Sched)
    → IsQueued s c xs
    → IsQueued (record s { quantum = k; current_pid = p }) c xs
IsQueued-vars c k p xs s q = record {
  ring = q.ring;
  distinct = q.distinct;
  pids = q.pids;
  states = q.states;
  last_in = q.last_in;
}

tick_idle : (s : Sched) → s.current_pid ≡ 0 → s.last ≡ 0 → tick s ≡ (0, s)
unfolding tick
tick_idle s e f = ground arith

tick_ready :
    (s : Sched)
    → s.current_pid ≡ 0
    → s.last ≢ 0
    → tick s ≡ (s.last, record s { quantum = full_quantum; current_pid = s.last })
unfolding tick
tick_ready s e f = ground arith

tick_last :
    (s : Sched)
    → s.current_pid ≢ 0
    → s.quantum ≡ 1
    → tick s ≡ (
      next_of s s.current_pid,
      record s { quantum = full_quantum; current_pid = next_of s s.current_pid },
    )
unfolding tick
tick_last s e f = ground arith

tick_more :
    (s : Sched)
    → s.current_pid ≢ 0
    → 1 < s.quantum
    → s.quantum ≤ full_quantum
    → tick s ≡ (s.current_pid, record s { quantum = s.quantum - 1; current_pid = s.current_pid })
unfolding tick
tick_more s e f g = ground arith

-- What a tick returns and leaves behind.
abbrev Ticked : Queue → ℕ × Sched → Type 0
Ticked q (p, s) = Represents s q × (p ≡ current q)

tick_refines_running :
    (c : ℕ) (xs : List ℕ) (k : ℕ) (s : Sched)
    → Represents s (running c xs k)
    → (k ≡ 1) ⊎ (1 < k)
    → Ticked (Queue.tick (running c xs k)) (tick s)
unfolding Queue.tick
tick_refines_running c [] k s (e, f, pos, le, q) (inl one) =
    let first : next_of s s.current_pid ≡ c = ap (next_of s) e ∙ q.ring.0 in
    rw (tick_last s (omega (arith, q.pids.0)) (omega arith), (==_iff k 1).1 one)
      ((first, refl, omega arith, omega arith, IsQueued-vars c _ _ [] s q), first)
tick_refines_running c (x ∷ xs) k s (e, f, pos, le, q) (inl one) =
    let first : next_of s s.current_pid ≡ x = ap (next_of s) e ∙ q.ring.0 in
    rw (tick_last s (omega (arith, q.pids.0)) (omega arith), (==_iff k 1).1 one)
      (
        (
          first,
          refl,
          omega arith,
          omega arith,
          IsQueued-vars x _ _ (xs ++ (c ∷ [])) s (IsQueued-turn c x xs s q),
        ),
        first,
      )
tick_refines_running c [] k s (e, f, pos, le, q) (inr more) =
    rw (tick_more s (omega (arith, q.pids.0)) (omega arith) (omega arith), ==_ne k 1 (omega arith))
      ((e, omega arith, omega arith, omega arith, IsQueued-vars c _ _ [] s q), e)
tick_refines_running c (x ∷ xs) k s (e, f, pos, le, q) (inr more) =
    rw (tick_more s (omega (arith, q.pids.0)) (omega arith) (omega arith), ==_ne k 1 (omega arith))
      ((e, omega arith, omega arith, omega arith, IsQueued-vars c _ _ (x ∷ xs) s q), e)

-- `sched_tick` dispatches the task that is ready, keeps the running task while its quantum lasts,
-- and at the end of the quantum moves it to the back of the queue and starts the next one with a
-- full quantum. It returns the pid of the task that runs.
pub tick_refines :
    (s : Sched) (q : Queue)
    → Represents s q
    → Represents (tick s).1 (Queue.tick q) × ((tick s).0 ≡ current (Queue.tick q))
tick_refines s (idle k) r = unfold Queue.tick in rw (tick_idle s r.0 r.1) (r, refl)
tick_refines s (ready p k) (e, f, g, le, q) =
    unfold Queue.tick in
    rw (tick_ready s e (omega (arith, q.pids.0)))
      ((f, refl, omega arith, omega arith, IsQueued-vars p _ _ [] s q), f)
tick_refines s (running c xs k) r = tick_refines_running c xs k s r (omega (arith, r.2))
