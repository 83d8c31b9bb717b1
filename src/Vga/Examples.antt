-- ===== src/Vga/Examples.antt =====
-- Screens of vga.c at concrete inputs.
use pso.Base.{ℕ, ◌+◌}

-- A screen that shows its own offsets, and an empty one.
abbrev offsets : ℕ → ℕ
offsets i = i

abbrev blank : ℕ → ℕ
blank i = 0

abbrev digits : ℕ → ℕ
digits i = 48 + i
