-- ===== src/Sched.antt =====
-- The scheduler: tp1/src/kernel/sched.c. The runnable tasks are a circular list threaded through
-- `tasks`; pid 0 is the idle task and never stands in it.
-- The array `tasks[MAX_PID]` is a function of the pid. An access at `MAX_PID` or above is
-- undefined in C; the well-formedness of the queue keeps every pid in it below `MAX_PID`.
pub mod Queue
pub mod Refine
pub mod Ticks
pub mod Lost
mod Examples
use pso.Base.{ℕ, zero, suc, ◌+◌, Option, none, some, ◌==◌, if◌then◌else◌, update, minus_one, sub32}

abbrev pub state_running : ℕ
state_running = 0

abbrev pub state_blocked : ℕ
state_blocked = 1

abbrev pub state_finished : ℕ
state_finished = 2

-- `QUANTUM`
abbrev pub full_quantum : ℕ
full_quantum = 2

abbrev pub max_pid : ℕ
max_pid = 32

-- `sched_task`
pub record SchedTask : Type 0 where
  pub state : ℕ
  pub next : ℕ
  pub prev : ℕ

-- The static variables of the file.
pub record Sched : Type 0 where
  pub tasks : ℕ → SchedTask
  pub quantum : ℕ
  pub current_pid : ℕ
  pub last : ℕ

abbrev pub next_of : Sched → ℕ → ℕ
next_of s p = (s.tasks p).next

abbrev pub prev_of : Sched → ℕ → ℕ
prev_of s p = (s.tasks p).prev

-- `tasks[p].next = v`, and so on: one assignment each.
abbrev pub set_next : ℕ → ℕ → Sched → Sched
set_next p v s = record s { tasks = update s.tasks p (record (s.tasks p) { next = v }) }

abbrev pub set_prev : ℕ → ℕ → Sched → Sched
set_prev p v s = record s { tasks = update s.tasks p (record (s.tasks p) { prev = v }) }

abbrev pub set_state : ℕ → ℕ → Sched → Sched
set_state p v s = record s { tasks = update s.tasks p (record (s.tasks p) { state = v }) }

unfoldable pub init : Sched → Sched
init s = record s { last = 0; current_pid = 0 }

-- `configure_task`
pub configure : ℕ → ℕ → ℕ → ℕ → Sched → Sched
configure p state next prev s = set_prev p prev (set_next p next (set_state p state s))

-- The four writes that put `p` behind the current task, or `p` alone.
pub link_alone : ℕ → Sched → Sched
link_alone p s = set_prev p p (set_next p p s)

pub link_behind : ℕ → Sched → Sched
link_behind p s =
    let s₁ = set_prev p s.current_pid s in
    let s₂ = set_next p (next_of s₁ s₁.current_pid) s₁ in
    let s₃ = set_prev (next_of s₂ s₂.current_pid) p s₂ in set_next s₃.current_pid p s₃

-- `sched_load`
unfoldable pub load : ℕ → Sched → Sched
unfolding link_alone link_behind
load p s =
    let s₁ = if s.current_pid == 0 then link_alone p s else link_behind p s in
    set_state p state_running (record s₁ { last = p })

-- `sched_unblock`, with the pid that it hands to `loader_switchto`, if it does.
unfoldable pub unblock : ℕ → Sched → Sched × Option ℕ
unfolding link_alone link_behind
unblock p s =
    let s₁ = set_state p state_running s in
    if s₁.current_pid == 0
    then (record (link_alone p s₁) { current_pid = p; last = p }, some p)
    else (link_behind p s₁, none)

-- The writes that take the current task out of the list, its own links apart.
pub unlink_current : Sched → Sched
unlink_current s =
    let next = next_of s s.current_pid in
    let prev = prev_of s s.current_pid in set_next prev next (set_prev next prev s)

-- `sched_exit`
unfoldable pub exit : Sched → ℕ × Sched
unfolding unlink_current configure
exit s₀ =
    let s = record s₀ { quantum = full_quantum } in
    let current = s.current_pid in
    if next_of s current == current
    then (
      0,
      record (configure current state_finished minus_one minus_one (record s { last = 0 })) {
        current_pid = 0;
      },
    )
    else let next = next_of s current in
      let prev = prev_of s current in
      let s₁ = record (unlink_current s) { last = prev } in
      (
        next,
        record (configure current state_finished minus_one minus_one s₁) { current_pid = next },
      )

-- `sched_block`
unfoldable pub block : Sched → ℕ × Sched
unfolding unlink_current configure
block s₀ =
    let s = record s₀ { quantum = full_quantum } in
    let current = s.current_pid in
    if next_of s current == current
    then (
      0,
      record (configure current state_blocked minus_one minus_one (record s { last = 0 })) {
        current_pid = 0;
      },
    )
    else let next = next_of s current in
      let prev = prev_of s current in
      let s₁ = record (unlink_current s) { last = if current == s.last then prev else s.last } in
      (next, record (configure current state_blocked minus_one minus_one s₁) { current_pid = next })

-- `sched_tick`. The decrement wraps, as on `uint_32`.
unfoldable pub tick : Sched → ℕ × Sched
tick s =
    if s.current_pid == 0
    then (if s.last == 0
        then (0, s)
        else (s.last, record s { quantum = full_quantum; current_pid = s.last }))
    else (let quantum = sub32 s.quantum 1 in
        if quantum == 0
        then (
          next_of s s.current_pid,
          record s { quantum = full_quantum; current_pid = next_of s s.current_pid },
        )
        else (s.current_pid, record s { quantum = quantum }))

-- The checks of the test build that return a verdict. `size` walks the list on fuel, `none` when
-- it runs out.
pub walk_size : Sched → ℕ → ℕ → ℕ → Option ℕ
walk_size s zero p size = none
walk_size s (suc f) p size =
    let rest = walk_size s f (next_of s p) (size + 1) in
    if next_of s p == s.last then some size else rest

-- The loop of `sched_test_size`: how many tasks it counts.
unfoldable pub test_size : Sched → ℕ → Option ℕ
unfolding walk_size
test_size s fuel = if s.last == 0 then some 0 else walk_size s fuel s.last 1
