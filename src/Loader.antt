-- ===== src/Loader.antt =====
-- The loader's tables and its context switch: tp1/src/kernel/loader.c, loader_switch.asm.
-- A task that blocks hangs itself at the end of a wait queue, a circular list threaded through
-- `task_table`; the variable `cola` of the C code points to the first of the queue, or holds -1.
-- The call of `loader_switchto` hands the processor to another task. What a function does after
-- that call is done when its own task runs again; no function here does anything after it.
pub mod Pids
pub mod WaitQueue
pub mod Sample
pub mod Process
mod Examples
use pso.Base.{
  ℕ, zero, suc, ◌+◌, ◌≡◌, Bool, Option, none, some, ◌==◌, if◌then◌else◌, update, minus_one, add32,
  sub32,
}
use pso.Sched.{Sched, max_pid}
use pso.Sched

-- `task`
pub record Task : Type 0 where
  pub next : ℕ
  pub prev : ℕ
  pub cr3 : ℕ
  pub esp0 : ℕ

-- The processor's registers that the switch writes.
pub record Cpu : Type 0 where
  pub cr3 : ℕ
  pub esp : ℕ

-- The static variables of `loader.c`, and those of the scheduler that it calls.
pub record Loader : Type 0 where
  pub task_table : ℕ → Task
  pub cur_pid : ℕ
  pub tasks_running : ℕ
  pub tasks_blocked : ℕ
  pub free_pids : ℕ → ℕ
  pub next_free : ℕ
  pub sched : Sched
  pub cpu : Cpu

abbrev pub next_of : (ℕ → Task) → ℕ → ℕ
next_of t p = (t p).next

abbrev pub prev_of : (ℕ → Task) → ℕ → ℕ
prev_of t p = (t p).prev

abbrev pub set_next : ℕ → ℕ → (ℕ → Task) → ℕ → Task
set_next p v t = update t p (record (t p) { next = v })

abbrev pub set_prev : ℕ → ℕ → (ℕ → Task) → ℕ → Task
set_prev p v t = update t p (record (t p) { prev = v })

-- `for (i = 1; i < MAX_PID - 1; i++) free_pids[i] = i + 1`, with the rounds left.
chain_pids : ℕ → ℕ → (ℕ → ℕ) → ℕ → ℕ
chain_pids zero i f = f
chain_pids (suc n) i f = chain_pids n (i + 1) (update f i (i + 1))

-- `for (i = 0; i < MAX_PID; i++) task_table[i].cr3 = 0`, with the rounds left.
clear_cr3 : ℕ → ℕ → (ℕ → Task) → ℕ → Task
clear_cr3 zero i t = t
clear_cr3 (suc n) i t = clear_cr3 n (i + 1) (update t i (record (t i) { cr3 = 0 }))

-- `loader_init`, but for the entries of the system call table that it fills in.
unfoldable pub init : Loader → Loader
unfolding chain_pids clear_cr3
init l =
    let f = chain_pids 30 1 (update l.free_pids 0 minus_one) in
    let t = clear_cr3 32 0 l.task_table in
    record l {
      free_pids = update f 31 minus_one;
      next_free = 1;
      cur_pid = 0;
      tasks_running = 0;
      tasks_blocked = 0;
      task_table = update t 0 (record (t 0) { cr3 = l.cpu.cr3 });
    }

unfoldable pub get_new_pid : Loader → ℕ × Loader
get_new_pid l = (l.next_free, record l { next_free = l.free_pids l.next_free })

unfoldable pub free_pid : ℕ → Loader → Loader
free_pid p l = record l { free_pids = update l.free_pids p l.next_free; next_free = p }

-- `loader_switchto`: four registers go on the old stack, `esp` into the old task's entry, and the
-- new task's `cr3` and `esp` into the processor; there four registers and the return address come
-- off the stack.
unfoldable pub switch_to : ℕ → Loader → Loader
switch_to p l =
    let t =
      update l.task_table l.cur_pid
        (record (l.task_table l.cur_pid) { esp0 = sub32 l.cpu.esp 16 }) in
    record l {
      task_table = t;
      cpu = record { cr3 = (t p).cr3; esp = add32 (t p).esp0 20 };
      cur_pid = p;
    }

-- `loader_tick`
unfoldable pub tick : Loader → Loader
tick l =
    let (p, s) = Sched.tick l.sched in
    let l₁ = record l { sched = s } in if p == l₁.cur_pid then l₁ else switch_to p l₁

-- `sched_unblock` with the switch that it makes on the idle task.
unfoldable pub unblock : ℕ → Loader → Loader
unblock p l =
    let (s, wanted) = Sched.unblock p l.sched in
    let l₁ = record l { sched = s } in elim wanted [ none ↦ l₁ | some q ↦ switch_to q l₁ ]

-- The end of `loader_load` and of `sys_fork`: the new task is loaded and counted.
unfoldable pub enlist : ℕ → Loader → Loader
enlist p l = record l { sched = Sched.load p l.sched; tasks_running = add32 l.tasks_running 1 }

-- The list part of `loader_enqueue`: `cur` goes to the end of the queue.
unfoldable pub push_back : ℕ → ℕ → (ℕ → Task) → ℕ × (ℕ → Task)
push_back cur cola t =
    if cola == minus_one
    then (cur, set_prev cur cur (set_next cur cur t))
    else (let prev = prev_of t cola in
        (cola, set_prev cur prev (set_next cur cola (set_prev cola cur (set_next prev cur t)))))

-- `loader_enqueue`, with the new value of the variable behind the pointer.
unfoldable pub enqueue : ℕ → Loader → ℕ × Loader
enqueue cola l =
    let (cola', t) = push_back l.cur_pid cola l.task_table in
    let (p, s) = Sched.block l.sched in
    (
      cola',
      switch_to p (record l {
        task_table = t;
        sched = s;
        tasks_blocked = add32 l.tasks_blocked 1;
        tasks_running = sub32 l.tasks_running 1;
      }),
    )

-- The list part of `loader_unqueue`, for a queue that is not empty: its first task goes out.
unfoldable pub pop_front : ℕ → (ℕ → Task) → ℕ × (ℕ → Task)
pop_front cola t =
    let next = next_of t cola in
    let prev = prev_of t cola in
    let t₁ = set_next prev next (set_prev next prev t) in
    let t₂ = set_prev cola minus_one (set_next cola minus_one t₁) in
    (if next == cola then minus_one else next, t₂)

-- `loader_unqueue`, with the new value of the variable behind the pointer.
unfoldable pub unqueue : ℕ → Loader → ℕ × Loader
unqueue cola l =
    if cola == minus_one
    then (cola, l)
    else (let (cola', t) = pop_front cola l.task_table in
        (
          cola',
          unblock cola (record l {
            task_table = t;
            tasks_blocked = sub32 l.tasks_blocked 1;
            tasks_running = add32 l.tasks_running 1;
          }),
        ))
