-- ===== src/Tables.antt =====
-- The descriptor tables: the entries of gdt.c and idt.c under tp1/src/kernel, with gdt.h and idt.h.
-- A shift or a mask of the source is written as a quotient or a remainder.
pub mod Decode
mod Examples
use pso.Base.{ℕ, zero, suc, ◌+◌, ◌*◌, ◌/◌, ◌%◌, ◌^◌, ◌==◌, if◌then◌else◌, update}

-- `str_gdt_entry_fld`
pub record GdtEntry : Type 0 where
  pub limit_0 : ℕ
  pub base_01 : ℕ
  pub base_2 : ℕ
  pub kind : ℕ
  pub s : ℕ
  pub dpl : ℕ
  pub p : ℕ
  pub limit_1 : ℕ
  pub avl : ℕ
  pub l : ℕ
  pub db : ℕ
  pub g : ℕ
  pub base_3 : ℕ

-- `make_gdt_entry`
unfoldable pub make_gdt_entry : ℕ → ℕ → ℕ → GdtEntry
make_gdt_entry base limit attr = record {
  limit_0 = limit % 2 ^ 16;
  base_01 = base % 2 ^ 16;
  base_2 = base / 2 ^ 16 % 2 ^ 8;
  kind = attr % 16;
  s = attr / 16 % 2;
  dpl = attr / 32 % 4;
  p = attr / 128 % 2;
  limit_1 = limit / 2 ^ 16 % 16;
  avl = attr / 256 % 2;
  l = attr / 512 % 2;
  db = attr / 1024 % 2;
  g = attr / 2048 % 2;
  base_3 = base / 2 ^ 24 % 2 ^ 8;
}

-- `gdt` as it is initialised: code and data for the kernel and for the tasks.
unfoldable pub gdt : ℕ → GdtEntry
unfolding make_gdt_entry
gdt i =
    if i == 1
    then make_gdt_entry 0 0xFFFFF 0xC9A
    else if i == 2
    then make_gdt_entry 0 0xFFFFF 0xC92
    else if i == 3
    then make_gdt_entry 0 0xFFFFF 0xCFA
    else if i == 4
    then make_gdt_entry 0 0xFFFFF 0xCF2
    else make_gdt_entry 0 0 0

-- The entry of `gdt_init`, for the task state segment at address `tss` with `size` bytes.
unfoldable pub gdt_init : ℕ → ℕ → (ℕ → GdtEntry) → ℕ → GdtEntry
unfolding make_gdt_entry
gdt_init tss size table = update table 5 (make_gdt_entry tss size 0xE9)

-- `str_idt_entry_vl`
pub record IdtEntry : Type 0 where
  pub vl0 : ℕ
  pub vl1 : ℕ

-- `make_idt_entry`, on a selector of 16 bits: the two halves of a word do not overlap.
unfoldable pub make_idt_entry : ℕ → ℕ → ℕ → IdtEntry
make_idt_entry offset select attr = record {
  vl0 = offset % 2 ^ 16 + select * 2 ^ 16 % 2 ^ 32;
  vl1 = attr % 2 ^ 16 + offset / 2 ^ 16 * 2 ^ 16;
}

-- `IDT_INT`
abbrev pub idt_int : ℕ
idt_int = 0x8E00

-- `idt_register`. The two fields of the attributes do not overlap.
unfoldable pub idt_register : ℕ → ℕ → ℕ → (ℕ → IdtEntry) → ℕ → IdtEntry
unfolding make_idt_entry
idt_register intr isr pl idt =
    update idt intr (make_idt_entry isr 8 (idt_int + (if pl == 3 then 0x6000 else 0)))

-- The loop of `idt_init`, with `n` entries left from `i` on, and what it registers, the system call
-- handler at `isr_syscall`; the interrupt controller is left out.
unfoldable pub clear_loop : ℕ → ℕ → (ℕ → IdtEntry) → ℕ → IdtEntry
unfolding make_idt_entry
clear_loop zero i idt = idt
clear_loop (suc n) i idt = clear_loop n (i + 1) (update idt i (make_idt_entry 0 0 0))

unfoldable pub idt_init : ℕ → (ℕ → IdtEntry) → ℕ → IdtEntry
unfolding clear_loop idt_register
idt_init isr_syscall idt = idt_register 0x30 isr_syscall 3 (clear_loop 128 0 idt)
