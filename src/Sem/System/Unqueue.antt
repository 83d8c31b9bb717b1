-- ===== src/Sem/System/Unqueue.antt =====
-- A signal wakes the task that waits longest at a semaphore.
use pso.Base.{
  ℕ, ◌<◌, ◌≡◌, ◌≢◌, refl, sym, ap, ◌∙◌, subst, true, false, List, ◌∷◌, inl, inr, arith, ◌==◌, has,
  update, Bool-cases, ==_iff, minus_one, Option, none, some,
}
use pso.Sched
use pso.Sched.Queue
use pso.Sched.Queue.{Queue, idle, ready, running, runnable, current, Represents, IsPid}
use pso.Sched.Refine.{unblock_refines, Represents-current}
use pso.Loader.{Loader, pop_front, unblock, unqueue, switch_to}
use pso.Loader.WaitQueue.{Waits, Same, Waits-frame, pop_front_lem, pop_front-Same}
use pso.Sem.System.{Sems, IsSystem}

-- The pid that runs after `sched_unblock`.
abbrev target : Option ℕ → ℕ → ℕ
target none p = p
target (some q) p = q

unqueue_vars :
    (cola : ℕ) (l : Loader)
    → cola ≢ minus_one
    → ((unqueue cola l).1.sched ≡ (Sched.unblock cola l.sched).0)
      × ((unqueue cola l).0 ≡ (pop_front cola l.task_table).0)
      × ((unqueue cola l).1.cur_pid ≡ target (Sched.unblock cola l.sched).1 l.cur_pid)
unfolding unqueue unblock switch_to
unqueue_vars cola l h = ground arith

unqueue-Same :
    (cola b : ℕ) (l : Loader)
    → cola ≢ minus_one
    → Same (pop_front cola l.task_table).1 (unqueue cola l).1.task_table b
unfolding unqueue unblock switch_to
unqueue-Same cola b l h = (ground arith, ground arith)

woken-runnable :
    (x p : ℕ) (queue : Queue)
    → p ≢ x
    → has p (runnable queue) ≡ false
    → has p (runnable (Queue.unblock x queue).0) ≡ false
unfolding Queue.unblock
woken-runnable x p (idle k) ne out = ground arith
woken-runnable x p (ready q k) ne out = ground arith
woken-runnable x p (running c xs k) ne out = ground arith

target-current :
    (x p : ℕ) (queue : Queue)
    → p ≡ current queue
    → target (Queue.unblock x queue).1 p ≡ current (Queue.unblock x queue).0
unfolding Queue.unblock
target-current x p (idle k) e = refl
target-current x p (ready q k) e = refl
target-current x p (running c xs k) e = e

quantum_kept : (x : ℕ) (s : Sched.Sched) → (Sched.unblock x s).0.quantum ≡ s.quantum
unfolding Sched.unblock
quantum_kept x s = ground arith

module _ (l : Loader) (sems : Sems) (queue : Queue) (waiting : ℕ → List ℕ) (i x : ℕ) (xs : List ℕ)
    (v : IsSystem l sems queue waiting) (first : waiting i ≡ x ∷ xs) where
  abbrev pub cola : ℕ
  cola = (sems i).q

  abbrev pub after : Loader
  after = (unqueue cola l).1

  woken_front : Waits l.task_table cola (x ∷ xs)
  woken_front = subst (λ w. Waits l.task_table cola w) first (v.waits i)

  cola_is : cola ≡ x
  cola_is = woken_front.0

  cola_ne : cola ≢ minus_one
  cola_ne = omega (arith, woken_front.3.0, cola_is)

  x_waits : has x (waiting i) ≡ true
  x_waits = rw first (ground arith)

  woken :
      Represents (Sched.unblock cola l.sched).0 (Queue.unblock x queue).0
      × ((Sched.unblock cola l.sched).1 ≡ (Queue.unblock x queue).1)
  woken =
      subst
        (λ a.
          Represents (Sched.unblock a l.sched).0 (Queue.unblock x queue).0
          × ((Sched.unblock a l.sched).1 ≡ (Queue.unblock x queue).1))
        (sym cola_is)
        (unblock_refines x l.sched queue woken_front.3.0 (v.apart i x x_waits)
          (v.quantum i x x_waits) v.sched)

  popped : Waits after.task_table (unqueue cola l).0 xs
  popped =
      Waits-frame (pop_front cola l.task_table).1 after.task_table (unqueue cola l).0 xs
        (λ b m. unqueue-Same cola b l cola_ne)
        (subst (λ a. Waits (pop_front cola l.task_table).1 a xs)
          (sym (unqueue_vars cola l cola_ne).1) (pop_front_lem cola x xs l.task_table woken_front))

  others : (j : ℕ) → j ≢ i → Waits after.task_table (sems j).q (waiting j)
  others j ne =
      Waits-frame l.task_table after.task_table (sems j).q (waiting j)
        (λ b m.
          let out : has b (x ∷ xs) ≡ false =
            subst (λ w. has b w ≡ false) first (v.once j i b ne m) in
          let s = pop_front-Same cola x b xs l.task_table out woken_front in
          let t = unqueue-Same cola b l cola_ne in (t.0 ∙ s.0, t.1 ∙ s.1))
        (v.waits j)

  abbrev pub left : ℕ → List ℕ
  left = update waiting i xs

  -- Who waits still did before, and is not the task that woke.
  left-has : (j p : ℕ) → has p (left j) ≡ true → (has p (waiting j) ≡ true) × (p ≢ x)
  left-has j p h = elim (Bool-cases (j == i)) [
    | inl e ↦
        let h' : has p xs ≡ true = rw e at h in
        let j_is = (==_iff j i).0 e in
        (
          subst (λ a. has p (waiting a) ≡ true) (sym j_is) (rw first (ground arith)),
          λ same. ground (arith, woken_front.2.0),
        )
    | inr e ↦
        let h' : has p (waiting j) ≡ true = rw e at h in
        (
          h',
          λ same.
              let out : has x (waiting j) ≡ false = v.once i j x (λ f. ground arith) x_waits in
              ground arith,
        )
  ]

  -- A task that waits in none of the lists does not wait in what is left of them.
  left_out : (j p : ℕ) → has p (waiting j) ≡ false → has p (left j) ≡ false
  left_out j p out = elim (Bool-cases (has p (left j))) [
    | inl h ↦ let w = (left-has j p h).0 in ground arith
    | inr e ↦ e
  ]

  ran : Represents after.sched (Queue.unblock x queue).0
  ran =
      subst (λ a. Represents a (Queue.unblock x queue).0) (sym (unqueue_vars cola l cola_ne).0)
        woken.0

  runs : target (Sched.unblock cola l.sched).1 l.cur_pid ≡ current (Queue.unblock x queue).0
  runs =
      ap (λ o. target o l.cur_pid) woken.1
      ∙ target-current x l.cur_pid queue (v.same ∙ Represents-current l.sched queue v.sched)

  pub unqueue-IsSystem :
      IsSystem after
        (update sems i (record (sems i) { q = (unqueue cola l).0 }))
        (Queue.unblock x queue).0
        left
  unqueue-IsSystem =
      let vars = unqueue_vars cola l cola_ne in
      record {
        sched = ran;
        same = vars.2 ∙ runs ∙ sym (Represents-current after.sched _ ran);
        waits = λ j. elim (Bool-cases (j == i)) [
          | inl e ↦ rw e popped
          | inr e ↦ rw e (others j (λ h. ground arith))
        ];
        apart = λ j p h. let w = left-has j p h in woken-runnable x p queue w.1 (v.apart j p w.0);
        once = λ j m p ne h. left_out m p (v.once j m p ne (left-has j p h).0);
        permits = λ j h. ground (arith, v.permits j, v.permits i);
        quantum = λ j p h.
            subst (λ a. 0 < a.quantum) (sym vars.0)
              (subst (λ q. 0 < q) (sym (quantum_kept cola l.sched))
                (v.quantum j p (left-has j p h).0));
      }
