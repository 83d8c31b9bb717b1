-- ===== src/Sched/Lost.antt =====
-- Two loads before the first tick: `tp1/src/kernel/scheduler_test.c` expects both tasks in the
-- queue, and `sched_load` keeps only the second.
use pso.Base.{ℕ, zero, suc, ◌-◌, ◌≡◌, ◌≢◌, sym, ◌∙◌, [], arith, ◌==◌, if◌then◌else◌}
use pso.Sched.{Sched, load, tick, full_quantum}
use pso.Sched.Queue
use pso.Sched.Queue.{Queue, idle, ready, running, Represents, IsPid}
use pso.Sched.Refine.{load_refines, tick_refines}
use pso.Sched.Ticks.{ticks}

-- A queue of one task stays that queue.
alone_stays : (n q k : ℕ) (s : Sched) → Represents s (running q [] k) → (ticks n s).current_pid ≡ q
unfolding ticks Queue.tick
alone_stays zero q k s r = r.0
alone_stays (suc n) q k s r =
    alone_stays n q (if k == 1 then full_quantum else k - 1) (tick s).1
      (tick_refines s (running q [] k) r).0

ready_runs :
    (n p q k : ℕ) (s : Sched)
    → IsPid p
    → p ≢ q
    → Represents s (ready q k)
    → (ticks n s).current_pid ≢ p
unfolding ticks Queue.tick
ready_runs zero p q k s pid ne r e = omega (arith, r.0)
ready_runs (suc n) p q k s pid ne r e =
    ne (sym e ∙ alone_stays n q full_quantum (tick s).1 (tick_refines s (ready q k) r).0)

-- From the idle state, of two different tasks loaded one after the other the first never runs,
-- however many ticks pass.
pub load_twice_loses :
    (p q k n : ℕ) (s : Sched)
    → IsPid p
    → IsPid q
    → p ≢ q
    → Represents s (idle k)
    → (ticks n (load q (load p s))).current_pid ≢ p
unfolding Queue.load
load_twice_loses p q k n s hp hq ne r =
    let once = load_refines p s (idle k) hp (ground arith) r in
    let twice = load_refines q (load p s) (ready p k) hq (ground arith) once in
    ready_runs n p q k (load q (load p s)) hp ne twice
