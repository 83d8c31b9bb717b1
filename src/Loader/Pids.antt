-- ===== src/Loader/Pids.antt =====
-- The list of free pids.
use pso.Base.{
  ℕ, ◌≤◌, ◌<◌, ◌≡◌, false, List, [], ◌∷◌, arith, has, Distinct, All, update, minus_one, refl, sym,
  subst, ==_refl, ==_ne,
}
use pso.Sched.Queue.{IsPid}
use pso.Loader.{Loader, init, get_new_pid, free_pid}

-- From `p` on, the table leads through `xs` to -1.
abbrev pub Chain : (ℕ → ℕ) → ℕ → List ℕ → Type 0
Chain f p [] = p ≡ minus_one
Chain f p (x ∷ xs) = (p ≡ x) × Chain f (f x) xs

-- The free pids, each once, first the one that is handed out next.
pub record IsFree (l : Loader) (xs : List ℕ) : Type 0 where
  pub chain : Chain l.free_pids l.next_free xs
  pub distinct : Distinct xs
  pub pids : All IsPid xs

abbrev pub all_pids : List ℕ
all_pids =
    1 ∷ 2 ∷ 3 ∷ 4 ∷ 5 ∷ 6 ∷ 7 ∷ 8 ∷ 9 ∷ 10 ∷ 11 ∷ 12 ∷ 13 ∷ 14 ∷ 15 ∷ 16 ∷ 17 ∷ 18 ∷ 19 ∷ 20 ∷ 21
    ∷ 22 ∷ 23 ∷ 24 ∷ 25 ∷ 26 ∷ 27 ∷ 28 ∷ 29 ∷ 30 ∷ 31 ∷ []

-- A list in increasing order holds nothing twice.
abbrev Rising : ℕ → List ℕ → Type 0
Rising a [] = Unit
Rising a (x ∷ xs) = (a < x) × Rising x xs

Rising-has : (a b : ℕ) (xs : List ℕ) → b ≤ a → Rising a xs → has b xs ≡ false
Rising-has a b [] le r = refl
Rising-has a b (x ∷ xs) le r = ground (arith, Rising-has x b xs (omega arith) r.1)

Rising-Distinct : (a : ℕ) (xs : List ℕ) → Rising a xs → Distinct xs
Rising-Distinct a [] r = tt
Rising-Distinct a (x ∷ xs) r = (Rising-has x x xs (omega arith) r.1, Rising-Distinct x xs r.1)

-- `loader_init` makes every pid but the idle task's free, in increasing order, whatever the tables
-- held.
pub init-IsFree : (l : Loader) → IsFree (init l) all_pids
unfolding init
init-IsFree l = record {
  chain = omega arith;
  distinct = Rising-Distinct 0 all_pids (omega arith);
  pids = omega arith;
}

Chain-frame :
    (f : ℕ → ℕ) (p v q : ℕ) (xs : List ℕ)
    → has q xs ≡ false
    → Chain f p xs
    → Chain (update f q v) p xs
Chain-frame f p v q [] h c = c
Chain-frame f p v q (x ∷ xs) h c =
    (c.0, rw (==_ne x q (ground arith)) (Chain-frame f (f x) v q xs (ground arith) c.1))

-- What `get_new_pid` has to do with a list of free pids: the first one goes out and the rest stay
-- free; with none left the result is -1.
abbrev pub HandsOut : List ℕ → ℕ × Loader → Type 0
HandsOut [] (p, l) = p ≡ minus_one
HandsOut (x ∷ xs) (p, l) = (p ≡ x) × IsFree l xs × (has p xs ≡ false)

-- `get_new_pid` hands out the first free pid and leaves the others free, each still once. With
-- none left it returns -1, which is no pid.
pub get_new_pid_lem : (xs : List ℕ) (l : Loader) → IsFree l xs → HandsOut xs (get_new_pid l)
unfolding get_new_pid
get_new_pid_lem [] l f = f.chain
get_new_pid_lem (x ∷ xs) l f = (
  f.chain.0,
  record {
    chain = subst (λ a. Chain l.free_pids (l.free_pids a) xs) (sym f.chain.0) f.chain.1;
    distinct = f.distinct.1;
    pids = f.pids.1;
  },
  subst (λ a. has a xs ≡ false) (sym f.chain.0) f.distinct.0,
)

free_pid-Chain :
    (p : ℕ) (xs : List ℕ) (l : Loader)
    → has p xs ≡ false
    → IsFree l xs
    → Chain (update l.free_pids p l.next_free) (update l.free_pids p l.next_free p) xs
free_pid-Chain p xs l out f =
    rw (==_refl p) (Chain-frame l.free_pids l.next_free l.next_free p xs out f.chain)

-- `free_pid` of a pid that is in use makes it the next one to be handed out: `get_new_pid` then
-- returns it and leaves the others free.
pub free_pid-get_new_pid :
    (p : ℕ) (xs : List ℕ) (l : Loader)
    → IsPid p
    → has p xs ≡ false
    → IsFree l xs
    → IsFree (free_pid p l) (p ∷ xs)
      × ((get_new_pid (free_pid p l)).0 ≡ p)
      × IsFree (get_new_pid (free_pid p l)).1 xs
unfolding free_pid get_new_pid
free_pid-get_new_pid p xs l pid out f =
    let rest = free_pid-Chain p xs l out f in
    (
      record { chain = (refl, rest); distinct = (out, f.distinct); pids = (pid, f.pids) },
      refl,
      record { chain = rest; distinct = f.distinct; pids = f.pids },
    )
