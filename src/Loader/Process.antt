-- ===== src/Loader/Process.antt =====
-- Making and ending tasks: `loader_load`, `sys_fork` and `loader_exit` of tp1/src/kernel/loader.c, and
-- `loader_switchto_exit` of loader_switch.asm, over the memory of Mm.antt, the descriptors of
-- Device.antt and the tables of Loader.antt. A page's content is its 1024 words, each in the form
-- of an entry; `cr3` is the address of a directory, and the number of its frame where Mm.antt is
-- asked. What the code reads at `NULL` and writes there is in frame 0.
pub mod Exit
pub mod Pages
pub mod Ready
pub mod Memory
pub mod Granted
pub mod Requests
pub mod Load
mod Examples
use pso.Base.{
  ℕ, zero, suc, ◌+◌, ◌-◌, ◌*◌, ◌/◌, ◌%◌, ◌^◌, Bool, true, false, ◌&&◌, ◌==◌, ltb, leb,
  if◌then◌else◌, update, minus_one, add32, sub32, Option, none, some, List, [], ◌∷◌,
}
use pso.Mm.{Bits, Entry, Mm, mm_mem_alloc, mm_mem_kalloc, page_size}
use pso.Mm.Paging.{
  mm_page_map, mm_page_free, mm_copy_vf, kernel_temp_page, frame_of, set_entry, usr_std_attr,
  rw_attr,
}
use pso.Mm.Paging.Directory.{mm_dir_new, mm_dir_fork, mm_dir_free}
use pso.Device.{Devices, CharDev, device_fork_descriptors, device_release_devices}
use pso.Sched
use pso.Loader.{Loader, Task, get_new_pid, free_pid, enlist}

-- `STACK_0_VIRTUAL` and `STACK_3_VIRTUAL`
abbrev pub stack_0_virtual : ℕ
stack_0_virtual = 0xFFFF_E000

abbrev pub stack_3_virtual : ℕ
stack_3_virtual = 0xFFFF_D000

-- `str_pso_file`: the fields that the loader reads, and the bytes from the file's address on.
pub record PsoFile : Type 0 where
  pub mem_start : ℕ
  pub mem_end_disk : ℕ
  pub main : ℕ
  pub bytes : ℕ → ℕ

-- A word of 32 bits in the form of an entry.
abbrev pub bit : ℕ → ℕ → Bool
bit w i = w / 2 ^ i % 2 == 1

abbrev pub word_entry : ℕ → Entry
word_entry w = record { attr = λ i. ltb i 12 && bit w i; base = w / 4096 }

-- One byte of a word, number `j` from the lowest on.
unfoldable pub put_byte : ℕ → ℕ → Entry → Entry
put_byte zero b e = record e { attr = λ i. if ltb i 8 then bit b i else e.attr i }
put_byte (suc zero) b e = record {
  attr = λ i. if ltb i 8 then e.attr i else ltb i 12 && bit b (i - 8);
  base = e.base / 16 * 16 + b / 16;
}
put_byte (suc (suc zero)) b e = record e { base = e.base / 4096 * 4096 + b * 16 + e.base % 16 }
put_byte (suc (suc (suc j))) b e = record e { base = b * 4096 + e.base % 4096 }

-- A write of word `i` of the temporary page, in the directory `cr3`, and of byte `i`.
abbrev pub put_word : ℕ → ℕ → ℕ → Mm → Mm
put_word cr3 i w m = set_entry (frame_of kernel_temp_page cr3 m) i (word_entry w) m

abbrev pub put_page_byte : ℕ → ℕ → ℕ → Mm → Mm
put_page_byte cr3 i b m =
    let t = frame_of kernel_temp_page cr3 m in
    set_entry t (i / 4) (put_byte (i % 4) b (m.tables t (i / 4))) m

-- `*stack0-- = w` for each of the words, from word `i` of the page down.
unfoldable pub push_words : ℕ → ℕ → List ℕ → Mm → Mm
push_words cr3 i [] m = m
push_words cr3 i (w ∷ ws) m = push_words cr3 (i - 1) ws (put_word cr3 i w m)

-- The words that a new task finds on its stack of level 0: what `iret` takes, the return address of
-- the switch, and the four registers that the switch takes off.
abbrev pub context : ℕ → ℕ → ℕ → ℕ → ℕ → List ℕ
context esp cs eip ret ebp = 0x23 ∷ esp ∷ 0x202 ∷ cs ∷ eip ∷ ret ∷ ebp ∷ 0 ∷ 0 ∷ 0 ∷ []

-- `for (i = 0; i < cant_to_copy; i++) *addr_to_copy++ = *task_to_copy++`, with the rounds left.
unfoldable pub copy_bytes : ℕ → ℕ → ℕ → (ℕ → ℕ) → Mm → Mm
copy_bytes zero i cr3 bytes m = m
copy_bytes (suc n) i cr3 bytes m = copy_bytes n (i + 1) cr3 bytes (put_page_byte cr3 i (bytes i) m)

-- `mm_page_map` where the caller does not look at the result: without a frame for the table, what is
-- left is the call of `mm_mem_kalloc` that failed.
unfoldable pub map_page : ℕ → ℕ → ℕ → Bits → Mm → Mm
map_page virtual cr3 frame attr m = elim (mm_page_map virtual cr3 frame false attr m) [
  | none ↦ (mm_mem_kalloc m).1
  | some m' ↦ m'
]

-- The frames of a new task, 0 where there was none, and the memory.
pub record Space : Type 0 where
  pub dir : ℕ
  pub page : ℕ
  pub stack3 : ℕ
  pub stack0 : ℕ
  pub mm : Mm

abbrev pub frame_or_null : Option ℕ → ℕ
frame_or_null none = 0
frame_or_null (some d) = d

-- `mm_page_map(STACK_3_VIRTUAL, …)` and `mm_page_map(STACK_0_VIRTUAL, …)`
unfoldable pub map_stacks : ℕ → ℕ → ℕ → Mm → Mm
map_stacks dir stack3 stack0 m =
    map_page stack_0_virtual dir stack0 rw_attr (map_page stack_3_virtual dir stack3 usr_std_attr m)

-- The pages that `loader_load` asks for, and the stacks mapped.
unfoldable pub load_space : Mm → Space
load_space m =
    let (d, m₁) = mm_dir_new m in
    let (page, m₂) = mm_mem_alloc m₁ in
    let (stack3, m₃) = mm_mem_alloc m₂ in
    let (stack0, m₄) = mm_mem_alloc m₃ in
    record {
      dir = frame_or_null d;
      page = page / page_size;
      stack3 = stack3 / page_size;
      stack0 = stack0 / page_size;
      mm = map_stacks (frame_or_null d) (stack3 / page_size) (stack0 / page_size) m₄;
    }

-- The pages that `sys_fork` asks for.
unfoldable pub fork_space : ℕ → Mm → Space
fork_space d m =
    let (stack3, m₁) = mm_mem_alloc m in
    let (stack0, m₂) = mm_mem_alloc m₁ in
    record {
      dir = d;
      page = 0;
      stack3 = stack3 / page_size;
      stack0 = stack0 / page_size;
      mm = map_stacks d (stack3 / page_size) (stack0 / page_size) m₂;
    }

-- How the making of a task ends: with a pid; without a directory, as `sys_fork` reports it; or with
-- the kernel writing where no page is mapped, since the temporary page has no table or the program
-- is larger than a page. What the processor does then is not followed.
pub data Made (K : Type 0) : Type 0 where
  created : ℕ → K → Made K
  no_directory : K → Made K
  lost : Made K

abbrev pub made_of : {K : Type 0} → Option Mm → (Mm → Made K) → Made K
made_of none f = lost
made_of (some m) f = f m

-- The kernel's state as far as tasks need it. The pid of `devices` is the loader's `cur_pid`.
pub record Kernel (W : Type 0) : Type 0 where
  pub loader : Loader
  pub mm : Mm
  pub devices : Devices W

-- The end of `loader_load` and of `sys_fork`: the entry of the new pid. The descriptors are copied in
-- between by `sys_fork`.
unfoldable pub new_task : ℕ → Loader → ℕ × Loader
new_task dir l =
    let (p, l₁) = get_new_pid l in
    (
      p,
      record l₁ {
        task_table =
            update l₁.task_table p
              (record (l₁.task_table p) { cr3 = dir * page_size; esp0 = stack_0_virtual + 0xFD8 });
      },
    )

-- A step that needs the temporary page.
abbrev pub and_then : Option Mm → (Mm → Option Mm) → Option Mm
and_then none f = none
and_then (some m) f = f m

-- The program's page: mapped in the new directory, and filled through the temporary page.
unfoldable pub load_program : ℕ → PsoFile → Space → Mm → Option Mm
load_program cr3 f s m =
    let size = sub32 f.mem_end_disk f.mem_start in
    and_then
      (mm_page_map kernel_temp_page cr3 s.page false usr_std_attr
        (map_page f.mem_start s.dir s.page usr_std_attr m))
      (λ m'.
        if leb size page_size
        then some (mm_page_free kernel_temp_page cr3 (copy_bytes size 0 cr3 f.bytes m')).1
        else none)

-- The memory part of `loader_load`: the stack of level 0 is written, then the program.
unfoldable pub load_memory : ℕ → List ℕ → PsoFile → Space → Option Mm
load_memory cr3 stack f s =
    and_then (mm_page_map kernel_temp_page cr3 s.stack0 false rw_attr s.mm)
      (λ m. load_program cr3 f s (push_words cr3 1023 stack m))

-- The memory part of `sys_fork`: the stack of level 0 is written, then the user's stack copied.
unfoldable pub fork_memory : ℕ → List ℕ → Space → Option Mm
fork_memory cr3 stack s =
    and_then (mm_page_map kernel_temp_page cr3 s.stack0 false rw_attr s.mm) (λ m.
      and_then (mm_copy_vf stack_3_virtual s.stack3 cr3 (push_words cr3 1023 stack m))
        (λ m'. some (mm_page_free kernel_temp_page cr3 m').1))

module _ {W : Type 0} where
  -- `loader_load`; `task_ret` is the address of that label.
  unfoldable pub loader_load : ℕ → PsoFile → ℕ → Kernel W → Made (Kernel W)
  loader_load task_ret f pl k =
      let cr3 = k.loader.cpu.cr3 / page_size in
      let cs = if pl == 0 then 0x08 else 0x1B in
      let stack = context (stack_3_virtual + 0x1000) cs f.main task_ret k.loader.cpu.esp in
      let s = load_space k.mm in
      let (p, l) = new_task s.dir k.loader in
      made_of (load_memory cr3 stack f s)
        (λ m. created p (record k { loader = enlist p l; mm = m }))

  -- `sys_fork`; `fork_ret` is the address of that label.
  unfoldable pub sys_fork : ℕ → ℕ → ℕ → Kernel W → Made (Kernel W)
  sys_fork fork_ret org_eip org_esp k =
      let cr3 = k.loader.cpu.cr3 / page_size in
      let (d, m₁) = mm_dir_fork (λ i. (k.loader.task_table i).cr3 / page_size) cr3 k.mm in
      let stack = context org_esp 0x1B org_eip fork_ret k.loader.cpu.esp in
      elim d as (λ x. Made (Kernel W)) [
        | none ↦ no_directory (record k { mm = m₁ })
        | some dir ↦
            (let s = fork_space dir m₁ in
              let (p, l) = new_task dir k.loader in
              made_of (fork_memory cr3 stack s) (λ m. created p (record {
                loader = enlist p l;
                mm = m;
                devices = device_fork_descriptors k.loader.cur_pid p k.devices;
              })))
      ]

  -- `loader_switchto_exit`: like the switch to another task, with the old task's directory freed
  -- and taken out of its entry on the new task's stack.
  unfoldable pub switch_exit : ℕ → ℕ → Kernel W → Kernel W
  switch_exit p cr3 k =
      let l = k.loader in
      let old = l.cur_pid in
      let t = update l.task_table old (record (l.task_table old) { esp0 = sub32 l.cpu.esp 16 }) in
      record k {
        mm = mm_dir_free (λ i. (t i).cr3 / page_size) (cr3 / page_size) k.mm;
        loader = record l {
          task_table = update t old (record (t old) { cr3 = 0 });
          cpu = record { cr3 = (t p).cr3; esp = add32 (t p).esp0 20 };
          cur_pid = p;
        };
      }

  -- `loader_exit`, which is also `sys_exit`.
  unfoldable pub loader_exit : CharDev W → Kernel W → Kernel W
  loader_exit ops k =
      let l = k.loader in
      let old_cr3 = (l.task_table l.cur_pid).cr3 in
      let d = device_release_devices ops (record k.devices { cur_pid = l.cur_pid }) in
      let l₁ = free_pid l.cur_pid l in
      let (p, s) = Sched.exit l₁.sched in
      switch_exit p old_cr3 (record k {
        loader = record l₁ { tasks_running = sub32 l₁.tasks_running 1; sched = s };
        devices = d;
      })
