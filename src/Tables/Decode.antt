-- ===== src/Tables/Decode.antt =====
-- What the processor reads from an entry.
use pso.Base.{ℕ, ◌+◌, ◌*◌, ◌/◌, ◌%◌, ◌^◌, ◌<◌, ◌==◌, if◌then◌else◌, ◌≡◌, ◌≢◌, refl, arith, ==_ne}
use pso.Tables.{GdtEntry, make_gdt_entry, IdtEntry, make_idt_entry, idt_register}

abbrev pub base_of : GdtEntry → ℕ
base_of e = e.base_01 + e.base_2 * 2 ^ 16 + e.base_3 * 2 ^ 24

abbrev pub limit_of : GdtEntry → ℕ
limit_of e = e.limit_0 + e.limit_1 * 2 ^ 16

abbrev pub attr_of : GdtEntry → ℕ
attr_of e =
    e.kind + e.s * 16 + e.dpl * 32 + e.p * 128 + e.avl * 256 + e.l * 512 + e.db * 1024 + e.g * 2048

-- A segment of 32 bits of base, 20 of limit and 12 of attributes is read back from its entry.
pub make_gdt_entry_lem :
    (base limit attr : ℕ)
    → base < 2 ^ 32
    → limit < 2 ^ 20
    → attr < 2 ^ 12
    → (base_of (make_gdt_entry base limit attr) ≡ base)
      × ((limit_of (make_gdt_entry base limit attr) ≡ limit)
          × (attr_of (make_gdt_entry base limit attr) ≡ attr))
unfolding make_gdt_entry
make_gdt_entry_lem base limit attr a b c = (omega (arith, a), (omega (arith, b), omega (arith, c)))

abbrev pub offset_of : IdtEntry → ℕ
offset_of e = e.vl0 % 2 ^ 16 + e.vl1 / 2 ^ 16 * 2 ^ 16

abbrev pub selector_of : IdtEntry → ℕ
selector_of e = e.vl0 / 2 ^ 16

-- The privilege level of a gate, bits 13 and 14 of the attributes.
abbrev pub level_of : IdtEntry → ℕ
level_of e = e.vl1 / 2 ^ 13 % 4

-- The gate of a handler that is registered leads to the handler through the kernel's code segment; a
-- task may call it if it is registered for level 3, and only the kernel otherwise. No other gate
-- changes.
pub idt_register_lem :
    (intr isr pl q : ℕ) (idt : ℕ → IdtEntry)
    → isr < 2 ^ 32
    → q ≢ intr
    → (offset_of (idt_register intr isr pl idt intr) ≡ isr)
      × ((selector_of (idt_register intr isr pl idt intr) ≡ 8)
          × ((level_of (idt_register intr isr pl idt intr) ≡ (if pl == 3 then 3 else 0))
              × (idt_register intr isr pl idt q ≡ idt q)))
unfolding idt_register make_idt_entry
idt_register_lem intr isr pl q idt h n =
    (ground (arith, h), (ground (arith, h), (ground (arith, h), rw (==_ne q intr n) refl)))
