-- ===== src/Sem/System/Enqueue.antt =====
-- The running task waits at a semaphore with no free place.
use pso.Base.{
  ℕ, ◌<◌, ◌≡◌, ◌≢◌, refl, sym, ◌∙◌, subst, true, false, List, [], ◌∷◌, ◌++◌, ◌⊎◌, inl, inr, arith,
  ◌==◌, has, has-append, update, Bool-cases,
}
use pso.Sched
use pso.Sched.{full_quantum}
use pso.Sched.Queue
use pso.Sched.Queue.{Queue, running, runnable, current, Represents, IsPid}
use pso.Sched.Refine.{block_refines, Represents-current}
use pso.Loader.{Loader, push_back, enqueue, switch_to}
use pso.Loader.WaitQueue.{Waits, Same, Waits-frame, push_back_lem, push_back-Same}
use pso.Sem.System.{Sems, IsSystem}

-- The switch saves a stack pointer and touches no link.
pub switch_to-Same : (p b : ℕ) (l : Loader) → Same l.task_table (switch_to p l).task_table b
unfolding switch_to
switch_to-Same p b l = (ground arith, ground arith)

enqueue-Same :
    (cola b : ℕ) (l : Loader)
    → Same (push_back l.cur_pid cola l.task_table).1 (enqueue cola l).1.task_table b
unfolding enqueue switch_to
enqueue-Same cola b l = (ground arith, ground arith)

enqueue_vars :
    (cola : ℕ) (l : Loader)
    → ((enqueue cola l).1.sched ≡ (Sched.block l.sched).1)
      × ((enqueue cola l).1.cur_pid ≡ (Sched.block l.sched).0)
      × ((enqueue cola l).0 ≡ (push_back l.cur_pid cola l.task_table).0)
unfolding enqueue switch_to
enqueue_vars cola l = (refl, refl, refl)

-- What is left runnable was runnable, and the task that left is not among it.
leave-runnable :
    (c p k : ℕ) (xs : List ℕ)
    → has p (c ∷ xs) ≡ false
    → has p (runnable (Queue.leave (running c xs k))) ≡ false
unfolding Queue.leave
leave-runnable c p k [] out = refl
leave-runnable c p k (x ∷ xs) out = ground arith

leave_out :
    (c k : ℕ) (xs : List ℕ)
    → has c xs ≡ false
    → has c (runnable (Queue.leave (running c xs k))) ≡ false
unfolding Queue.leave
leave_out c k [] out = refl
leave_out c k (x ∷ xs) out = out

leave_quantum :
    (l : Loader) (c k : ℕ) (xs : List ℕ)
    → Represents (Sched.block l.sched).1 (Queue.leave (running c xs k))
    → 0 < (Sched.block l.sched).1.quantum
unfolding Queue.leave
leave_quantum l c k [] r = omega arith
leave_quantum l c k (x ∷ xs) r = omega arith

module _ (l : Loader) (sems : Sems) (c : ℕ) (xs : List ℕ) (k : ℕ) (waiting : ℕ → List ℕ) (i : ℕ)
    (v : IsSystem l sems (running c xs k) waiting) where
  abbrev pub cola : ℕ
  cola = (sems i).q

  abbrev pub after : Loader
  after = (enqueue cola l).1

  cur_is : l.cur_pid ≡ c
  cur_is = v.same ∙ v.sched.0

  -- The running task waits nowhere.
  not_waiting : (j : ℕ) → has c (waiting j) ≡ false
  not_waiting j = elim (Bool-cases (has c (waiting j))) [
    | inl e ↦ let h = v.apart j c e in ground arith
    | inr e ↦ e
  ]

  pushed : Waits after.task_table (enqueue cola l).0 (waiting i ++ (c ∷ []))
  pushed =
      subst (λ a. Waits after.task_table (enqueue cola l).0 (waiting i ++ (a ∷ []))) cur_is
        (Waits-frame (push_back l.cur_pid cola l.task_table).1 after.task_table (enqueue cola l).0
          (waiting i ++ (l.cur_pid ∷ [])) (λ b m. enqueue-Same cola b l)
          (subst
            (λ a. Waits (push_back l.cur_pid cola l.task_table).1 a (waiting i ++ (l.cur_pid ∷ [])))
            (sym (enqueue_vars cola l).2)
            (push_back_lem l.cur_pid cola (waiting i) l.task_table
              (subst IsPid (sym cur_is) v.sched.4.pids.0)
              (subst (λ a. has a (waiting i) ≡ false) (sym cur_is) (not_waiting i)) (v.waits i))))

  others : (j : ℕ) → j ≢ i → Waits after.task_table (sems j).q (waiting j)
  others j ne =
      Waits-frame l.task_table after.task_table (sems j).q (waiting j)
        (λ b m.
          let s =
            push_back-Same l.cur_pid cola b (waiting i) l.task_table
              (ground (arith, not_waiting j, v.once j i b ne, cur_is)) (v.waits i) in
          let t = enqueue-Same cola b l in (t.0 ∙ s.0, t.1 ∙ s.1))
        (v.waits j)

  abbrev pub joined : ℕ → List ℕ
  joined = update waiting i (waiting i ++ (c ∷ []))

  joined-has :
      (j p : ℕ) → has p (joined j) ≡ true → (has p (waiting j) ≡ true) ⊎ ((j ≡ i) × (p ≡ c))
  joined-has j p h = ground (arith, has-append p (waiting i) (c ∷ []))

  ran : Represents after.sched (Queue.leave (running c xs k))
  ran =
      subst (λ a. Represents a (Queue.leave (running c xs k))) (sym (enqueue_vars cola l).0)
        (block_refines c xs k l.sched v.sched).0

  still_apart :
      (j p : ℕ) → has p (joined j) ≡ true → has p (runnable (Queue.leave (running c xs k))) ≡ false
  still_apart j p h = elim (joined-has j p h) [
    | inl old ↦ leave-runnable c p k xs (v.apart j p old)
    | inr new ↦
        subst (λ a. has a (runnable (Queue.leave (running c xs k))) ≡ false) (sym new.1)
          (leave_out c k xs v.sched.4.distinct.0)
  ]

  still_once : (j m p : ℕ) → j ≢ m → has p (joined j) ≡ true → has p (joined m) ≡ false
  still_once j m p ne h = elim (Bool-cases (has p (joined m))) [
    | inr out ↦ out
    | inl twice ↦ ground (
      arith,
      joined-has j p h,
      joined-has m p twice,
      v.once j m p ne,
      not_waiting j,
      not_waiting m,
    )
  ]

  pub enqueue-IsSystem :
      (sems i).vl ≡ 0
      → IsSystem after
          (update sems i (record (sems i) { q = (enqueue cola l).0 }))
          (Queue.leave (running c xs k))
          joined
  enqueue-IsSystem zero_left =
      let b = block_refines c xs k l.sched v.sched in
      let vars = enqueue_vars cola l in
      record {
        sched = ran;
        same = vars.1 ∙ b.1 ∙ sym (Represents-current after.sched _ ran);
        waits = λ j. elim (Bool-cases (j == i)) [
          | inl e ↦ rw e pushed
          | inr e ↦ rw e (others j (λ h. ground arith))
        ];
        apart = still_apart;
        once = still_once;
        permits = λ j h. ground (arith, v.permits j);
        quantum = λ j p h. subst (λ a. 0 < a.quantum) (sym vars.0) (leave_quantum l c k xs b.0);
      }
