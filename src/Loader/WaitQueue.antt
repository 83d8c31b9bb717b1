-- ===== src/Loader/WaitQueue.antt =====
-- The wait queues of `loader.c` are first-in first-out: what `push_back` and `pop_front` do to the
-- tasks that a queue holds, and that they touch no other task.
use pso.Base.{
  ℕ, ◌≡◌, ◌≢◌, refl, sym, ap, ◌∙◌, subst, true, false, List, [], ◌∷◌, ◌++◌, arith, has, has-append,
  Distinct, All, minus_one,
}
use pso.Ring.{Ring, last}
use pso.Ring.Splice.{Ring-push, Ring-remove, Links-frame, Links-last, has-last}
use pso.Sched.Queue.{IsPid}
use pso.Loader.{Task, next_of, prev_of, push_back, pop_front}

-- The variable `cola` and the table hold the queue of the tasks, in the order of their arrival.
abbrev pub Waits : (ℕ → Task) → ℕ → List ℕ → Type 0
Waits t cola [] = cola ≡ minus_one
Waits t cola (x ∷ xs) =
    (cola ≡ x) × Ring (next_of t) (prev_of t) x xs × Distinct (x ∷ xs) × All IsPid (x ∷ xs)

All-snoc : (P : ℕ → Type 0) (xs : List ℕ) (v : ℕ) → All P xs → P v → All P (xs ++ (v ∷ []))
All-snoc P [] v h p = (p, tt)
All-snoc P (x ∷ xs) v h p = (h.0, All-snoc P xs v h.1 p)

Distinct-snoc : (xs : List ℕ) (v : ℕ) → has v xs ≡ false → Distinct xs → Distinct (xs ++ (v ∷ []))
Distinct-snoc [] v out d = (refl, tt)
Distinct-snoc (x ∷ xs) v out d =
    (ground (arith, has-append x xs (v ∷ []), d.0), Distinct-snoc xs v (ground arith) d.1)

-- A cell of the table is left as it is.
abbrev pub Same : (ℕ → Task) → (ℕ → Task) → ℕ → Type 0
Same t t' b = (next_of t' b ≡ next_of t b) × (prev_of t' b ≡ prev_of t b)

-- A queue stays when the cells of its tasks stay.
pub Waits-frame :
    (t t' : ℕ → Task) (cola : ℕ) (xs : List ℕ)
    → ((b : ℕ) → has b xs ≡ true → Same t t' b)
    → Waits t cola xs
    → Waits t' cola xs
Waits-frame t t' cola [] h w = w
Waits-frame t t' cola (x ∷ xs) h w = (
  w.0,
  Links-frame x xs x (λ b m. (h b m).0) (λ b m. (h b (ground arith)).1) (h x (ground arith)).1 w.1,
  w.2,
  w.3,
)

-- `t'` is `t` with `cur` put between the last task `prev` and the first one `x`.
record IsPushed (cur x : ℕ) (t t' : ℕ → Task) : Type 0 where
  next_prev : next_of t' (prev_of t x) ≡ cur
  prev_cur : prev_of t' cur ≡ prev_of t x
  next_cur : next_of t' cur ≡ x
  prev_x : prev_of t' x ≡ cur
  nexts : (b : ℕ) → b ≢ cur → b ≢ prev_of t x → next_of t' b ≡ next_of t b
  prevs : (b : ℕ) → b ≢ cur → b ≢ x → prev_of t' b ≡ prev_of t b

push_back-IsPushed :
    (cur x : ℕ) (t : ℕ → Task)
    → x ≢ minus_one
    → cur ≢ x
    → cur ≢ prev_of t x
    → IsPushed cur x t (push_back cur x t).1
unfolding push_back
push_back-IsPushed cur x t h ne nep = record {
  next_prev = ground arith;
  prev_cur = ground arith;
  next_cur = ground arith;
  prev_x = ground arith;
  nexts = λ b h k. ground arith;
  prevs = λ b h k. ground arith;
}

push_back_head : (cur x : ℕ) (t : ℕ → Task) → x ≢ minus_one → (push_back cur x t).0 ≡ x
unfolding push_back
push_back_head cur x t h = ground arith

-- Nothing in the queue is the pid -1.
head_ne : (x : ℕ) → IsPid x → x ≢ minus_one
head_ne x h = omega arith

push_back_more :
    (cur x : ℕ) (xs : List ℕ) (t : ℕ → Task)
    → IsPid cur
    → has cur (x ∷ xs) ≡ false
    → Waits t x (x ∷ xs)
    → Waits (push_back cur x t).1 (push_back cur x t).0 (x ∷ (xs ++ (cur ∷ [])))
push_back_more cur x xs t pid out w =
    let (_, back) = Links-last (next_of t) (prev_of t) x xs x w.1 in
    let i =
      push_back-IsPushed cur x t (head_ne x w.3.0) (ground arith)
        (λ h. ground (arith, has-last x xs)) in
    (
      push_back_head cur x t (head_ne x w.3.0),
      Ring-push x xs cur w.2 out i.nexts i.prevs i.next_prev i.prev_cur i.next_cur i.prev_x w.1,
      Distinct-snoc (x ∷ xs) cur out w.2,
      All-snoc IsPid (x ∷ xs) cur w.3 pid,
    )

push_back_first :
    (cur : ℕ) (t : ℕ → Task)
    → IsPid cur
    → Waits (push_back cur minus_one t).1 (push_back cur minus_one t).0 (cur ∷ [])
unfolding push_back
push_back_first cur t pid = (refl, (ground arith, ground arith), (refl, tt), (pid, tt))

-- `loader_enqueue` puts a task that is not in the queue at its end.
pub push_back_lem :
    (cur cola : ℕ) (xs : List ℕ) (t : ℕ → Task)
    → IsPid cur
    → has cur xs ≡ false
    → Waits t cola xs
    → Waits (push_back cur cola t).1 (push_back cur cola t).0 (xs ++ (cur ∷ []))
push_back_lem cur cola [] t pid out w =
    subst (λ c. Waits (push_back cur c t).1 (push_back cur c t).0 (cur ∷ [])) (sym w)
      (push_back_first cur t pid)
push_back_lem cur cola (x ∷ xs) t pid out w =
    subst (λ c. Waits (push_back cur c t).1 (push_back cur c t).0 (x ∷ (xs ++ (cur ∷ []))))
      (sym w.0) (push_back_more cur x xs t pid out (refl, w.1, w.2, w.3))

-- `t'` is `t` with `x` taken out from between its neighbours.
record IsPopped (x : ℕ) (t t' : ℕ → Task) : Type 0 where
  next_prev : next_of t' (prev_of t x) ≡ next_of t x
  prev_next : prev_of t' (next_of t x) ≡ prev_of t x
  nexts : (b : ℕ) → b ≢ x → b ≢ prev_of t x → next_of t' b ≡ next_of t b
  prevs : (b : ℕ) → b ≢ x → b ≢ next_of t x → prev_of t' b ≡ prev_of t b

pop_front-IsPopped :
    (x : ℕ) (t : ℕ → Task) → next_of t x ≢ x → prev_of t x ≢ x → IsPopped x t (pop_front x t).1
unfolding pop_front
pop_front-IsPopped x t hn hp = record {
  next_prev = ground arith;
  prev_next = ground arith;
  nexts = λ b h k. ground arith;
  prevs = λ b h k. ground arith;
}

pop_front_head :
    (x : ℕ) (t : ℕ → Task)
    → ((next_of t x ≡ x) → (pop_front x t).0 ≡ minus_one)
      × ((next_of t x ≢ x) → (pop_front x t).0 ≡ next_of t x)
unfolding pop_front
pop_front_head x t = (λ h. ground arith, λ h. ground arith)

pop_front_first :
    (x : ℕ) (xs : List ℕ) (t : ℕ → Task)
    → Waits t x (x ∷ xs)
    → Waits (pop_front x t).1 (pop_front x t).0 xs
pop_front_first x [] t w = (pop_front_head x t).0 w.1.0
pop_front_first x (y ∷ ys) t w =
    let (_, back) = Links-last (next_of t) (prev_of t) y ys x w.1.2 in
    let (out, n) : (has x (y ∷ ys) ≡ false) × (next_of t x ≡ y) = (w.2.0, w.1.0) in
    let nn : next_of t x ≢ x = λ h. ground arith in
    let i = pop_front-IsPopped x t nn (λ h. ground (arith, has-last y ys)) in
    (
      (pop_front_head x t).1 nn ∙ w.1.0,
      Ring-remove x y ys w.2 i.nexts i.prevs i.next_prev i.prev_next w.1,
      w.2.1,
      w.3.1,
    )

-- `loader_unqueue` takes out the task that came first.
pub pop_front_lem :
    (cola x : ℕ) (xs : List ℕ) (t : ℕ → Task)
    → Waits t cola (x ∷ xs)
    → Waits (pop_front cola t).1 (pop_front cola t).0 xs
pop_front_lem cola x xs t w =
    subst (λ c. Waits (pop_front c t).1 (pop_front c t).0 xs) (sym w.0)
      (pop_front_first x xs t (refl, w.1, w.2, w.3))

-- Neither writes to a task outside the queue.
pub push_back-Same :
    (cur cola b : ℕ) (xs : List ℕ) (t : ℕ → Task)
    → has b (cur ∷ xs) ≡ false
    → Waits t cola xs
    → Same t (push_back cur cola t).1 b
unfolding push_back
push_back-Same cur cola b [] t out w = (ground arith, ground arith)
push_back-Same cur cola b (x ∷ xs) t out w =
    let (_, back) = Links-last (next_of t) (prev_of t) x xs x w.1 in
    let back' : prev_of t cola ≡ last x xs = ap (prev_of t) w.0 ∙ back in
    (ground (arith, has-last x xs), ground (arith, has-last x xs))

pop_front_other :
    (x b : ℕ) (t : ℕ → Task)
    → b ≢ x
    → b ≢ next_of t x
    → b ≢ prev_of t x
    → Same t (pop_front x t).1 b
unfolding pop_front
pop_front_other x b t h k l = (ground arith, ground arith)

pub pop_front-Same :
    (cola x b : ℕ) (xs : List ℕ) (t : ℕ → Task)
    → has b (x ∷ xs) ≡ false
    → Waits t cola (x ∷ xs)
    → Same t (pop_front cola t).1 b
pop_front-Same cola x b [] t out w =
    let (g, (e, f), _, _) = w in
    subst (λ c. Same t (pop_front c t).1 b) (sym g)
      (pop_front_other x b t (ground arith) (λ h. ground arith) (λ h. ground arith))
pop_front-Same cola x b (y ∷ ys) t out w =
    let (_, back) = Links-last (next_of t) (prev_of t) y ys x w.1.2 in
    let e = w.1.0 in
    subst (λ c. Same t (pop_front c t).1 b) (sym w.0)
      (pop_front_other x b t (ground arith) (λ h. ground arith)
        (λ h. ground (arith, has-last y ys)))
