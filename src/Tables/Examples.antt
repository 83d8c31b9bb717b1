-- ===== src/Tables/Examples.antt =====
-- Entries at concrete segments and gates.
use pso.Base.{ℕ, ◌==◌, if◌then◌else◌, ◌≡◌, arith}
use pso.Tables.{IdtEntry, idt_register}
use pso.Tables.Decode.{offset_of, selector_of, level_of, idt_register_lem}

abbrev empty_idt : ℕ → IdtEntry
empty_idt i = record { vl0 = 0; vl1 = 0 }

idt_register_lem_example :
    (offset_of (idt_register 38 0x12345678 0 empty_idt 38) ≡ 0x12345678)
    × ((selector_of (idt_register 38 0x12345678 0 empty_idt 38) ≡ 8)
        × ((level_of (idt_register 38 0x12345678 0 empty_idt 38) ≡ (if 0 == 3 then 3 else 0))
            × (idt_register 38 0x12345678 0 empty_idt 32 ≡ empty_idt 32)))
idt_register_lem_example = idt_register_lem 38 0x12345678 0 32 empty_idt (omega arith) (omega arith)
