-- ===== src/Base/Store.antt =====
-- A C array, or any memory of cells: a function from indices, written one cell at a time.
use Prim.Native.Nat.{ℕ}
use pso.Base.Tests.{◌==◌, if◌then◌else◌}

abbrev pub update {ℓ} : {A : Type ℓ} → (ℕ → A) → ℕ → A → ℕ → A
update f p v q = if q == p then v else f q
