-- ===== src/Sem.antt =====
-- Counting semaphores: tp1/src/kernel/sem.c, tp1/src/include/sem.h.
pub mod System
mod Examples
use pso.Base.{
  ℕ, zero, suc, ◌-◌, Option, none, some, ◌==◌, if◌then◌else◌, ltb, not, ◌&&◌, minus_one, add32,
}
use pso.Loader.{Loader, enqueue, unqueue}

-- `sem_t`: the free places, and the first of the tasks that wait.
pub record Sem : Type 0 where
  pub vl : ℕ
  pub q : ℕ

-- `SEM_NEW`
abbrev pub sem_new : ℕ → Sem
sem_new v = record { vl = v; q = minus_one }

-- `sem_wait`, called by the task that runs.
unfoldable pub wait : Sem → Loader → Sem × Loader
wait s l =
    if ltb 0 s.vl
    then (record s { vl = s.vl - 1 }, l)
    else (let (q, l') = enqueue s.q l in (record s { q = q }, l'))

-- `sem_signal`
unfoldable pub signal : Sem → Loader → Sem × Loader
signal s l =
    if s.vl == 0 && not (s.q == minus_one)
    then (let (q, l') = unqueue s.q l in (record s { q = q }, l'))
    else (record s { vl = add32 s.vl 1 }, l)

-- The loop of `sem_broadcast`, on fuel; `none` when it runs out. Called by a task, not from the
-- idle task: there the first wake-up would switch away in the middle of the loop.
pub broadcast_loop : ℕ → Sem → Loader → Option (Sem × Loader)
broadcast_loop zero s l = none
broadcast_loop (suc n) s l =
    let rest = (let (q, l') = unqueue s.q l in broadcast_loop n (record s { q = q }) l') in
    if s.q == minus_one then some (record s { vl = 1 }, l) else rest

-- `sem_broadcast`. No wait queue holds more tasks than there are pids.
unfoldable pub broadcast : Sem → Loader → Option (Sem × Loader)
unfolding broadcast_loop
broadcast s l = broadcast_loop 32 s l
