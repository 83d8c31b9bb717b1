-- ===== src/Loader/Process/Load.antt =====
-- `loader_load` as a whole: the new task is in every table, and the first switch to it starts its
-- program.
use pso.Base.{
  ℕ, ◌+◌, ◌*◌, ◌/◌, ◌≤◌, ◌<◌, ◌≡◌, ◌≢◌, refl, sym, ap, ◌∙◌, subst, List, length, ◌∷◌, some, has,
  false, sub32, add32, update, ◌==◌, if◌then◌else◌, arith, ==_refl, ==_ne,
}
use pso.Mm.{Mm, page_size}
use pso.Mm.Paging.{ind_td, frame_of}
use pso.Sched.Queue
use pso.Sched.Queue.{Queue, IsPid, Represents, runnable}
use pso.Sched.Refine.{load_refines}
use pso.Loader.{Loader, Task, Cpu, get_new_pid, enlist, switch_to}
use pso.Loader.Pids.{IsFree, get_new_pid_lem}
use pso.Loader.Process.{
  Kernel, PsoFile, Space, created, made_of, context, stack_0_virtual, stack_3_virtual, load_space,
  load_memory, new_task, loader_load,
}
use pso.Loader.Process.Ready.{IsLoaded}
use pso.Loader.Process.Memory.{load_memory-IsLoaded}
use pso.Mm.Paging.Mapping.{IsRunning}
use pso.Loader.Process.Granted.{HasRoom}
use pso.Loader.Process.Requests.{
  given_space, requests-IsReady, load_space-given, stack0_leads, stack3_leads,
}

-- The code segment of the privilege that is asked for.
abbrev pub segment : ℕ → ℕ
segment pl = if pl == 0 then 0x08 else 0x1B

-- The size of the program.
abbrev pub size_of : PsoFile → ℕ
size_of f = sub32 f.mem_end_disk f.mem_start

-- What the new task's stack of level 0 holds.
abbrev pub first_context : {W : Type 0} → ℕ → PsoFile → ℕ → Kernel W → List ℕ
first_context task_ret f pl k =
    context (stack_3_virtual + 0x1000) (segment pl) f.main task_ret k.loader.cpu.esp

-- Where the new directory leads.
pub record IsMade (f : PsoFile) (s : Space) (m : Mm) : Type 0 where
  pub stack0 : frame_of stack_0_virtual s.dir m ≡ s.stack0
  pub stack3 : frame_of stack_3_virtual s.dir m ≡ s.stack3
  pub program : frame_of f.mem_start s.dir m ≡ s.page

-- What the memory holds when the load has ended.
abbrev pub IsStored : ℕ → List ℕ → PsoFile → Space → Type 0
IsStored c stack f s =
    (m : Mm) × (load_memory c stack f s ≡ some m)
    × IsLoaded c (size_of f) stack f s m
    × IsMade f s m

memory-IsStored :
    (c : ℕ) (stack : List ℕ) (f : PsoFile) (m : Mm)
    → IsRunning c m
    → HasRoom m
    → ind_td f.mem_start ≢ 0
    → ind_td f.mem_start ≢ ind_td stack_0_virtual
    → ((i : ℕ) → f.bytes i < 256)
    → length stack ≤ 1024
    → size_of f ≤ page_size
    → IsStored c stack f (load_space m)
memory-IsStored c stack f m r room z h small fits le =
    let s = given_space c m r room in
    let ready = requests-IsReady c m r room f.mem_start z h in
    let (m', e, loaded) = load_memory-IsLoaded c stack f s ready small fits le in
    subst (IsStored c stack f) (sym (load_space-given c m r room)) (
      m',
      e,
      loaded,
      record {
        stack0 = loaded.stacks_mapped stack_0_virtual refl ∙ stack0_leads c m r room;
        stack3 = loaded.stacks_mapped stack_3_virtual refl ∙ stack3_leads c m r room;
        program = loaded.program_mapped;
      },
    )

-- The tables when pid `p` has been made a task with directory `dir`.
pub record IsEntered (p dir : ℕ) (free : List ℕ) (q : Queue) (l : Loader) : Type 0 where
  pub queued : Represents l.sched (Queue.load p q)
  pub pids : IsFree l free
  pub own : (l.task_table p).cr3 ≡ dir * page_size
  pub first_switch :
      l.cur_pid ≢ p
      → (switch_to p l).cpu ≡ record { cr3 = dir * page_size; esp = stack_0_virtual + 4 * 1019 }

entry_kept : (t : ℕ → Task) (p c v : ℕ) → c ≢ p → update t c (record (t c) { esp0 = v }) p ≡ t p
entry_kept t p c v d = rw (==_ne p c (λ e. d (sym e))) refl

entry_own : (t : ℕ → Task) (p : ℕ) (x : Task) → update t p x p ≡ x
entry_own t p x = rw (==_refl p) refl

-- What a switch loads from a task's entry.
abbrev loaded_cpu : Task → Cpu
loaded_cpu e = record { cr3 = e.cr3; esp = add32 e.esp0 20 }

entered :
    (dir : ℕ) (free : List ℕ) (q : Queue) (l : Loader)
    → IsFree l (l.next_free ∷ free)
    → has l.next_free (runnable q) ≡ false
    → Represents l.sched q
    → IsEntered l.next_free dir free q (enlist l.next_free (new_task dir l).1)
unfolding enlist new_task switch_to get_new_pid
entered dir free q l f out r =
    let p = l.next_free in
    let x : Task = record (l.task_table p) {
      cr3 = dir * page_size;
      esp0 = stack_0_virtual + 0xFD8;
    } in
    let t = update l.task_table p x in
    let left = (get_new_pid_lem (p ∷ free) l f).1 in
    record {
      queued = load_refines p l.sched q (f.pids.0) out r;
      pids = record { chain = left.chain; distinct = left.distinct; pids = left.pids };
      own = ap (λ e. e.cr3) (entry_own l.task_table p x);
      first_switch = λ d.
          ap loaded_cpu
            (entry_kept t p l.cur_pid (sub32 l.cpu.esp 16) d ∙ entry_own l.task_table p x);
    }

-- Loading a program makes it a task. The requests for frames are granted, the program fits into a
-- page and goes neither into the kernel's 4 MB nor beside the stacks, and the running directory has a
-- table for the temporary page. Then the load ends with the first free pid: it is in the run queue
-- behind the task that runs and free no more; its directory leads to its stacks and its program; its
-- stack of level 0 holds the context and its page the program's words; no other page of the user has
-- changed; and the first switch to it takes its directory, with the stack at the words that `iret`
-- takes.
pub loader_load_lem :
    {W : Type 0} (task_ret : ℕ) (f : PsoFile) (pl : ℕ) (k : Kernel W) (free : List ℕ) (q : Queue)
    → IsRunning (k.loader.cpu.cr3 / page_size) k.mm
    → HasRoom k.mm
    → ind_td f.mem_start ≢ 0
    → ind_td f.mem_start ≢ ind_td stack_0_virtual
    → ((i : ℕ) → f.bytes i < 256)
    → size_of f ≤ page_size
    → IsFree k.loader (k.loader.next_free ∷ free)
    → has k.loader.next_free (runnable q) ≡ false
    → Represents k.loader.sched q
    → (k' : Kernel W) × (loader_load task_ret f pl k ≡ created k.loader.next_free k')
      × IsEntered k.loader.next_free (load_space k.mm).dir free q k'.loader
      × IsLoaded
          (k.loader.cpu.cr3 / page_size)
          (size_of f)
          (first_context task_ret f pl k)
          f
          (load_space k.mm)
          k'.mm
      × IsMade f (load_space k.mm) k'.mm
unfolding loader_load new_task get_new_pid
loader_load_lem task_ret f pl k free q r room z h small le pids out sched =
    let stack = first_context task_ret f pl k in
    let (m, e, loaded, made) =
      memory-IsStored (k.loader.cpu.cr3 / page_size) stack f k.mm r room z h small (omega arith)
        le in
    let p = k.loader.next_free in
    let l = enlist p (new_task (load_space k.mm).dir k.loader).1 in
    (
      record k { loader = l; mm = m },
      ap (λ o. made_of o (λ m'. created p (record k { loader = l; mm = m' }))) e,
      entered (load_space k.mm).dir free q k.loader pids out sched,
      loaded,
      made,
    )
