-- ===== src/Fat12/Table.antt =====
-- The table of 12-bit entries.
use pso.Base.{
  ℕ, ◌+◌, ◌*◌, ◌/◌, ◌%◌, ◌<◌, ◌==◌, if◌then◌else◌, ◌≡◌, ap, ◌∙◌, arith, true, false, ◌⊎◌, inl, inr,
}
use pso.Fat12.{next_sector, entry_of}

-- The bytes of a table with the values `v`, as the FAT format has them: two values in three bytes.
abbrev pub table_bytes : (ℕ → ℕ) → ℕ → ℕ
table_bytes v i =
    let pair = i / 3 in
    if i % 3 == 0
    then v (2 * pair) % 256
    else if i % 3 == 1
    then v (2 * pair) / 256 + v (2 * pair + 1) % 16 * 16
    else v (2 * pair + 1) / 16

third :
    (v : ℕ → ℕ) (p : ℕ)
    → (table_bytes v (3 * p) ≡ v (2 * p) % 256)
      × ((table_bytes v (3 * p + 1) ≡ v (2 * p) / 256 + v (2 * p + 1) % 16 * 16)
          × (table_bytes v (3 * p + 2) ≡ v (2 * p + 1) / 16))
third v p = (ground arith, (ground arith, ground arith))

low12 : (a b : ℕ) → a < 4096 → a % 256 + (a / 256 + b % 16 * 16) % 16 * 256 ≡ a
low12 a b h = omega (arith, h)

high12 : (a b : ℕ) → a < 4096 → (a / 256 + b % 16 * 16) / 16 + b / 16 * 16 ≡ b
high12 a b h = omega (arith, h)

module _ (v : ℕ → ℕ) (h : (i : ℕ) → v i < 4096) where
  first_lem : (p : ℕ) → (entry_of (table_bytes v) p).first ≡ v (2 * p)
  unfolding entry_of
  first_lem p =
      let (x, (y, z)) = third v p in rw (x, y) (low12 (v (2 * p)) (v (2 * p + 1)) (h (2 * p)))

  second_lem : (p : ℕ) → (entry_of (table_bytes v) p).second ≡ v (2 * p + 1)
  unfolding entry_of
  second_lem p =
      let (x, (y, z)) = third v p in rw (y, z) (high12 (v (2 * p)) (v (2 * p + 1)) (h (2 * p)))

  halves :
      (index : ℕ)
      → ((index % 2 == 0) ≡ true) × (2 * (index / 2) ≡ index)
        ⊎ ((index % 2 == 0) ≡ false) × (2 * (index / 2) + 1 ≡ index)
  halves index = ground arith

  -- The successor of a sector, read from a table in the format of FAT12, is the value that the table
  -- has for it, whether its entry begins at a byte or in the middle of one.
  pub next_sector-table : (index : ℕ) → next_sector (entry_of (table_bytes v)) index ≡ v index
  unfolding next_sector
  next_sector-table index = elim (halves index) [
    | inl (e, p) ↦ rw e (first_lem (index / 2) ∙ ap v p)
    | inr (e, p) ↦ rw e (second_lem (index / 2) ∙ ap v p)
  ]
