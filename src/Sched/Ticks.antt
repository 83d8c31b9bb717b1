-- ===== src/Sched/Ticks.antt =====
-- Ticks in a row: every queued task comes to run.
use mathlib.Core.List.{append_assoc}
use pso.Base.{
  ℕ, zero, suc, ◌*◌, ◌≤◌, ◌≡◌, sym, ap, ◌∙◌, subst, true, List, [], ◌∷◌, ◌++◌, arith, ◌==◌, has,
  length, length-append, ◌⊎◌, inl, inr, Bool-cases, ==_iff,
}
use pso.Sched.{Sched, tick, full_quantum}
use pso.Sched.Queue
use pso.Sched.Queue.{Queue, running, Represents}
use pso.Sched.Refine.{tick_refines}

-- The state after `n` ticks.
unfoldable pub ticks : ℕ → Sched → Sched
ticks zero s = s
ticks (suc n) s = ticks n (tick s).1

has_split :
    (p : ℕ) (xs : List ℕ) → has p xs ≡ true → (ys : List ℕ) × (zs : List ℕ) × (xs ≡ ys ++ (p ∷ zs))
has_split p [] h = absurd (cc)
has_split p (x ∷ xs) h = elim (Bool-cases (p == x)) [
  | inl e ↦ ([], xs, ap (λ a. a ∷ xs) (sym ((==_iff p x).0 e)))
  | inr e ↦ let (ys, zs, q) = has_split p xs (ground arith) in (x ∷ ys, zs, ap (λ l. x ∷ l) q)
]

-- A tick at the end of the quantum, and one before.
turn-one :
    (c x : ℕ) (xs : List ℕ) (s : Sched)
    → Represents s (running c (x ∷ xs) 1)
    → Represents (tick s).1 (running x (xs ++ (c ∷ [])) full_quantum)
unfolding Queue.tick
turn-one c x xs s r = (tick_refines s (running c (x ∷ xs) 1) r).0

turn-two :
    (c x : ℕ) (xs : List ℕ) (s : Sched)
    → Represents s (running c (x ∷ xs) 2)
    → Represents (tick s).1 (running c (x ∷ xs) 1)
unfolding Queue.tick
turn-two c x xs s r = (tick_refines s (running c (x ∷ xs) 2) r).0

-- `p` runs after at most `m` ticks.
abbrev pub RunsWithin : ℕ → ℕ → Sched → Type 0
RunsWithin p m s = (n : ℕ) × (n ≤ m) × ((ticks n s).current_pid ≡ p)

RunsWithin-tick : (p m : ℕ) (s : Sched) → RunsWithin p m (tick s).1 → RunsWithin p (suc m) s
unfolding ticks
RunsWithin-tick p m s (n, h, e) = (suc n, omega arith, e)

now : (p m : ℕ) (s : Sched) → s.current_pid ≡ p → RunsWithin p m s
unfolding ticks
now p m s e = (0, omega arith, e)

-- By the number of tasks in front of `p`, at a full quantum.
runs_full :
    (ys : List ℕ) (c p : ℕ) (zs : List ℕ) (s : Sched)
    → Represents s (running c (ys ++ (p ∷ zs)) full_quantum)
    → RunsWithin p (2 * length (p ∷ ys)) s
runs_full [] c p zs s r =
    RunsWithin-tick p 1 s
      (RunsWithin-tick p 0 (tick s).1 (now p 0 _ (turn-one c p zs _ (turn-two c p zs s r)).0))
runs_full (y ∷ ys) c p zs s r =
    let turned = turn-one c y (ys ++ (p ∷ zs)) _ (turn-two c y (ys ++ (p ∷ zs)) s r) in
    let next = runs_full ys y p (zs ++ (c ∷ [])) _ (
      subst (λ l. Represents (tick (tick s).1).1 (running y l full_quantum))
        (append_assoc ys (p ∷ zs) (c ∷ [])) turned) in
    let (n, h, e) = next in
    let two =
      RunsWithin-tick p (suc (2 * length (p ∷ ys))) s
        (RunsWithin-tick p (2 * length (p ∷ ys)) (tick s).1 next) in
    (two.0, omega (arith, two.1), two.2)

-- The same with one tick of the quantum left.
runs_short :
    (ys : List ℕ) (c p : ℕ) (zs : List ℕ) (s : Sched)
    → Represents s (running c (ys ++ (p ∷ zs)) 1)
    → RunsWithin p (2 * length (p ∷ ys)) s
runs_short [] c p zs s r = RunsWithin-tick p 1 s (now p 1 _ (turn-one c p zs s r).0)
runs_short (y ∷ ys) c p zs s r =
    let turned =
      subst (λ l. Represents (tick s).1 (running y l full_quantum))
        (append_assoc ys (p ∷ zs) (c ∷ [])) (turn-one c y (ys ++ (p ∷ zs)) s r) in
    let (n, h, e) =
      RunsWithin-tick p (2 * length (p ∷ ys)) s (runs_full ys y p (zs ++ (c ∷ [])) _ turned) in
    (n, omega arith, e)

runs_tail :
    (k c p : ℕ) (ys zs : List ℕ) (s : Sched)
    → Represents s (running c (ys ++ (p ∷ zs)) k)
    → (k ≡ 1) ⊎ (k ≡ full_quantum)
    → RunsWithin p (2 * length (p ∷ ys)) s
runs_tail k c p ys zs s r (inl one) =
    runs_short ys c p zs s (subst (λ i. Represents s (running c (ys ++ (p ∷ zs)) i)) one r)
runs_tail k c p ys zs s r (inr full) =
    runs_full ys c p zs s (subst (λ i. Represents s (running c (ys ++ (p ∷ zs)) i)) full r)

-- While the clock ticks and no task blocks, exits or wakes, every queued task comes to run, and a
-- queue of `n` tasks makes none wait more than `2 * n` ticks.
pub ticks_fair :
    (c p : ℕ) (xs : List ℕ) (k : ℕ) (s : Sched)
    → Represents s (running c xs k)
    → has p (c ∷ xs) ≡ true
    → RunsWithin p (2 * length (c ∷ xs)) s
ticks_fair c p xs k s r h = elim (Bool-cases (p == c)) [
  | inl e ↦ now p _ s (r.0 ∙ sym ((==_iff p c).0 e))
  | inr e ↦
      let (ys, zs, q) = has_split p xs (ground arith) in
      let (n, b, f) =
        runs_tail k c p ys zs s (subst (λ l. Represents s (running c l k)) q r)
          (omega (arith, r.2)) in
      (n, omega (arith, ap length q, length-append ys (p ∷ zs)), f)
]
