-- ===== src/Sem/System/Broadcast.antt =====
-- `sem_broadcast`, called by a task.
use mathlib.Core.Path.{fun_ext}
use pso.Base.{
  ℕ, zero, suc, ◌<◌, ◌≡◌, ◌≢◌, refl, subst, false, List, [], ◌∷◌, arith, ◌==◌, has, update,
  Bool-cases, minus_one, Option, none, some, ==_refl, ==_ne, inl, inr, All-mono, length,
  length-le_of_Distinct, All,
}
use pso.Sched.Queue
use pso.Sched.Queue.{Queue, running, IsPid}
use pso.Loader.{Loader, unqueue}
use pso.Loader.WaitQueue.{Waits}
use pso.Sem.{Sem, broadcast, broadcast_loop}
use pso.Sem.System.{Sems, IsSystem}
use pso.Sem.System.Unqueue.{unqueue-IsSystem}
use pso.Sem.System.Steps.{IsSystem-places}

-- The tasks wake in order, each right behind the running one.
abbrev pub wake_all : List ℕ → Queue → Queue
wake_all [] queue = queue
wake_all (x ∷ xs) queue = wake_all xs (Queue.unblock x queue).0

-- The call returns, with one free place and nobody waiting.
abbrev pub Broadcasts : Sems → ℕ → Queue → (ℕ → List ℕ) → Option (Sem × Loader) → Type 0
Broadcasts sems i queue waiting none = ⊥
Broadcasts sems i queue waiting (some (s, l)) =
    (s.vl ≡ 1) × IsSystem l (update sems i s) queue (update waiting i [])

update_self : (waiting : ℕ → List ℕ) (i : ℕ) → waiting i ≡ [] → waiting ≡ update waiting i []
update_self waiting i e = fun_ext λ j. ground arith

update-update {ℓ} :
    {A : Type ℓ} (f : ℕ → A) (i : ℕ) (a b : A) → update (update f i a) i b ≡ update f i b
update-update f i a b = fun_ext λ j. elim (Bool-cases (j == i)) [ inl e ↦ rw e | inr e ↦ rw e ]

update_at {ℓ} : {A : Type ℓ} (f : ℕ → A) (i : ℕ) (a : A) → update f i a i ≡ a
update_at f i a = rw (==_refl i)

-- One task woken first changes nothing in what is said of the end.
Broadcasts-before :
    (sems : Sems) (i : ℕ) (s : Sem) (queue : Queue) (waiting : ℕ → List ℕ) (xs : List ℕ)
    (r : Option (Sem × Loader))
    → Broadcasts (update sems i s) i queue (update waiting i xs) r
    → Broadcasts sems i queue waiting r
Broadcasts-before sems i s queue waiting xs none b = b
Broadcasts-before sems i s queue waiting xs (some (s', l')) b = (
  b.0,
  subst (λ f. IsSystem l' f queue (update waiting i [])) (update-update sems i s s')
      (subst (λ g. IsSystem l' (update (update sems i s) i s') queue g)
        (update-update waiting i xs []) b.1),
)

no_zero : (xs : List ℕ) → All IsPid xs → has 0 xs ≡ false
no_zero [] h = refl
no_zero (x ∷ xs) h = ground (arith, no_zero xs h.1, h.0)

-- A wait queue holds different pids, none of them the idle task's: at most 31.
waiting_short : (xs : List ℕ) (cola : ℕ) (l : Loader) → Waits l.task_table cola xs → length xs < 32
waiting_short [] cola l w = omega arith
waiting_short (x ∷ xs) cola l w =
    let h =
      length-le_of_Distinct 32 (0 ∷ x ∷ xs) (no_zero (x ∷ xs) w.3, w.2)
        (omega arith, All-mono IsPid (λ p. p < 32) (x ∷ xs) (λ b m q. q.1) w.3) in
    omega arith

loop_done :
    (n : ℕ) (s : Sem) (l : Loader)
    → s.q ≡ minus_one
    → broadcast_loop (suc n) s l ≡ some (record s { vl = 1 }, l)
unfolding broadcast_loop
loop_done n s l h = ground arith

loop_more :
    (n : ℕ) (s : Sem) (l : Loader)
    → s.q ≢ minus_one
    → broadcast_loop (suc n) s l
      ≡ broadcast_loop n (record s { q = (unqueue s.q l).0 }) (unqueue s.q l).1
unfolding broadcast_loop
loop_more n s l h = rw (==_ne s.q minus_one h)

loop_wakes :
    (n : ℕ) (xs : List ℕ) (l : Loader) (sems : Sems) (queue : Queue) (waiting : ℕ → List ℕ) (i : ℕ)
    → waiting i ≡ xs
    → length xs < n
    → IsSystem l sems queue waiting
    → Broadcasts sems i (wake_all xs queue) waiting (broadcast_loop n (sems i) l)
loop_wakes zero xs l sems queue waiting i e fuel v = absurd (omega arith)
loop_wakes (suc n) [] l sems queue waiting i e fuel v =
    let w : Waits l.task_table (sems i).q [] =
      subst (λ a. Waits l.task_table (sems i).q a) e (v.waits i) in
    rw (loop_done n (sems i) l w) (
      refl,
      subst (λ f. IsSystem l (update sems i (record (sems i) { vl = 1 })) queue f)
          (update_self waiting i e) (IsSystem-places l sems queue waiting i 1 e v),
    )
loop_wakes (suc n) (x ∷ xs) l sems queue waiting i e fuel v =
    let w : Waits l.task_table (sems i).q (x ∷ xs) =
      subst (λ a. Waits l.task_table (sems i).q a) e (v.waits i) in
    let there : (sems i).q ≢ minus_one = omega (arith, w.0, w.3.0) in
    let s : Sem = record (sems i) { q = (unqueue (sems i).q l).0 } in
    let rest =
      loop_wakes n xs (unqueue (sems i).q l).1 (update sems i s) (Queue.unblock x queue).0
        (update waiting i xs) i (update_at waiting i xs) (omega arith)
        (unqueue-IsSystem l sems queue waiting i x xs v e) in
    rw (loop_more n (sems i) l there) (
      Broadcasts-before sems i s (wake_all (x ∷ xs) queue) waiting xs _ (
        subst
          (λ a.
            Broadcasts (update sems i s) i (wake_all (x ∷ xs) queue) (update waiting i xs)
              (broadcast_loop n a (unqueue (sems i).q l).1))
          (update_at sems i s) rest))

-- `sem_broadcast` by a task returns; it wakes every task that waits, in the order of their arrival,
-- and leaves one free place and an empty queue. Thirty-two rounds are enough for any queue.
pub broadcast-IsSystem :
    (l : Loader) (sems : Sems) (c : ℕ) (ys : List ℕ) (k : ℕ) (waiting : ℕ → List ℕ) (i : ℕ)
    → IsSystem l sems (running c ys k) waiting
    → Broadcasts sems i (wake_all (waiting i) (running c ys k)) waiting (broadcast (sems i) l)
unfolding broadcast
broadcast-IsSystem l sems c ys k waiting i v =
    loop_wakes 32 (waiting i) l sems (running c ys k) waiting i refl
      (waiting_short (waiting i) (sems i).q l (v.waits i)) v
