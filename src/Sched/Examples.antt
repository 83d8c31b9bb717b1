-- ===== src/Sched/Examples.antt =====
-- Concrete schedules: the run of `scheduler_test.c` as far as it goes, and the theorems at them.
use pso.Base.{ℕ, ◌≡◌, ◌≢◌, refl, [], ◌∷◌, some, none, arith, ◌==◌, if◌then◌else◌, minus_one}
use pso.Sched.{
  Sched, SchedTask, load, unblock, block, exit, tick, test_size, next_of, prev_of, state_blocked,
  state_finished,
}
use pso.Sched.Queue
use pso.Sched.Queue.{Queue, idle, running, Represents, IsQueued, IsPid}
use pso.Sched.Refine.{
  load_refines, unblock_refines, block_refines, exit_refines, tick_refines, IsOut,
}
use pso.Sched.Ticks.{ticks, RunsWithin, ticks_fair}
use pso.Sched.Lost.{load_twice_loses}

abbrev entry : ℕ → ℕ → SchedTask
entry next prev = record { state = 0; next = next; prev = prev }

-- Tasks 3, 1 and 2 in a circle, 3 running with a full quantum.
abbrev three : Sched
three = record {
  tasks = λ p.
      if p == 1
      then entry 2 3
      else if p == 2
      then entry 3 1
      else if p == 3
      then entry 1 2
      else entry 0 0;
  quantum = 2;
  current_pid = 3;
  last = 3;
}

-- Nothing loaded yet, as the static variables begin.
abbrev fresh : Sched
fresh = record { tasks = λ p. entry 0 0; quantum = 0; current_pid = 0; last = 0 }

three-Represents : Represents three (running 3 (1 ∷ 2 ∷ []) 2)
three-Represents = (
  refl,
  refl,
  omega arith,
  omega arith,
  record {
    ring = (refl, refl, (refl, refl, (refl, refl)));
    distinct = (refl, (refl, (refl, tt)));
    pids = omega arith;
    states = omega arith;
    last_in = refl;
  },
)

fresh-Represents : Represents fresh (idle 0)
fresh-Represents = omega arith

-- Two ticks end the quantum of 3.
end_of_quantum : ((tick (tick three).1).0 ≡ 1) × ((tick three).0 ≡ 3)
unfolding tick
end_of_quantum = (refl, refl)

-- Block, exit and unblock as the test build runs them from task 2.
abbrev at_two : Sched
at_two = record three { current_pid = 2 }

test_run :
    ((block at_two).0 ≡ 3)
    × (next_of (block at_two).1 1 ≡ 3)
    × (prev_of (block at_two).1 2 ≡ minus_one)
    × ((exit (block at_two).1).0 ≡ 1)
    × ((exit (block at_two).1).1.last ≡ 1)
    × (next_of (unblock 2 (exit (block at_two).1).1).0 1 ≡ 2)
unfolding block exit unblock
test_run = (refl, refl, refl, refl, refl, refl)

sizes :
    (test_size three 5 ≡ some 3)
    × (test_size (load 4 three) 5 ≡ some 4)
    × (test_size three 2 ≡ none)
unfolding test_size load
sizes = (refl, refl, refl)

load_refines_example : Represents (load 4 three) (running 3 (4 ∷ 1 ∷ 2 ∷ []) 2)
unfolding Queue.load
load_refines_example =
    load_refines 4 three (running 3 (1 ∷ 2 ∷ []) 2) (omega arith) refl three-Represents

unblock_refines_example :
    Represents (unblock 4 three).0 (running 3 (4 ∷ 1 ∷ 2 ∷ []) 2) × ((unblock 4 three).1 ≡ none)
unfolding Queue.unblock
unblock_refines_example =
    unblock_refines 4 three (running 3 (1 ∷ 2 ∷ []) 2) (omega arith) refl (omega arith)
      three-Represents

block_refines_example :
    Represents (block three).1 (running 1 (2 ∷ []) 2)
    × ((block three).0 ≡ 1)
    × IsOut state_blocked 3 (block three).1
unfolding Queue.leave
block_refines_example = block_refines 3 (1 ∷ 2 ∷ []) 2 three three-Represents

exit_refines_example :
    Represents (exit three).1 (running 1 (2 ∷ []) 2)
    × ((exit three).0 ≡ 1)
    × IsOut state_finished 3 (exit three).1
unfolding Queue.leave
exit_refines_example = exit_refines 3 (1 ∷ 2 ∷ []) 2 three three-Represents

tick_refines_example : Represents (tick three).1 (running 3 (1 ∷ 2 ∷ []) 1) × ((tick three).0 ≡ 3)
unfolding Queue.tick
tick_refines_example = tick_refines three (running 3 (1 ∷ 2 ∷ []) 2) three-Represents

ticks_fair_example : RunsWithin 2 6 three
ticks_fair_example = ticks_fair 3 2 (1 ∷ 2 ∷ []) 2 three three-Represents refl

load_twice_loses_example : (ticks 100 (load 2 (load 1 fresh))).current_pid ≢ 1
load_twice_loses_example =
    load_twice_loses 1 2 0 100 fresh (omega arith) (omega arith) (omega arith) fresh-Represents
