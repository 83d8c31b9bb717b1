-- ===== src/Console/Cursor.antt =====
-- Where the cursor of a console may stand.
use pso.Base.{
  ℕ, ◌+◌, ◌-◌, ◌*◌, ◌%◌, ◌<◌, ◌≡◌, refl, List, [], ◌∷◌, length, ◌==◌, if◌then◌else◌, ltb, leb, true,
  arith, Bool-cases, inl, inr, ==_refl,
}
use pso.Console.{Console, Terminal}
use pso.Console.Output.{
  write_in_console, write_newline, write_backspace, write_char, scroll, write_one, write_all,
  con_write, block, block_no_blink, move_cursor,
}

-- The cursor is above the last row, and within its row.
pub record IsInside (c : Console) : Type 0 where
  pub row : c.fila < 24
  pub column : c.columna < 80

-- The same but for the row that `scroll` is there for.
record IsNear (c : Console) : Type 0 where
  row : c.fila < 25
  column : c.columna < 80

-- Writing characters leaves the cursor.
keeps :
    (this : ℕ) (msg : ℕ → ℕ) (style cant : ℕ) (t : Terminal)
    → (((write_in_console this msg style cant t).consoles this).fila ≡ (t.consoles this).fila)
      × (((write_in_console this msg style cant t).consoles this).columna
          ≡ (t.consoles this).columna)
unfolding write_in_console
keeps this msg style cant t = elim (Bool-cases (t.current_console == this)) [
  | inl e ↦ rw e (refl, refl)
  | inr e ↦ rw (e, ==_refl this) (refl, refl)
]

moved :
    (this fila columna : ℕ) (t : Terminal)
    → fila < 256
    → columna < 256
    → (((move_cursor this fila columna t).consoles this).fila ≡ fila)
      × (((move_cursor this fila columna t).consoles this).columna ≡ columna)
moved this fila columna t a b = rw (==_refl this) (omega (arith, a), omega (arith, b))

write_newline-IsNear :
    (this : ℕ) (t : Terminal)
    → IsInside (t.consoles this)
    → IsNear ((write_newline this t).consoles this)
unfolding write_newline
write_newline-IsNear this t h =
    let u = write_in_console this (λ i. block (2 + i)) block_no_blink 1 t in
    let k = keeps this (λ i. block (2 + i)) block_no_blink 1 t in
    let (a, b) =
      moved this ((u.consoles this).fila + 1) 0 u (omega (arith, k.0, h.row)) (omega arith) in
    record { row = omega (arith, a, k.0, h.row); column = omega (arith, b) }

write_backspace-IsNear :
    (this : ℕ) (t : Terminal)
    → IsInside (t.consoles this)
    → IsNear ((write_backspace this t).consoles this)
unfolding write_backspace
write_backspace-IsNear this t h = elim (Bool-cases (leb 14 (t.consoles this).columna)) [
  | inl e ↦
      (let c = t.consoles this in
        let u = move_cursor this c.fila (c.columna - 1) t in
        let k = keeps this block block_no_blink 2 u in
        let (a, b) =
          moved this c.fila (c.columna - 1) t (omega (arith, h.row)) (omega (arith, h.column)) in
        rw e
          record { row = omega (arith, k.0, a, h.row); column = omega (arith, k.1, b, h.column) })
  | inr e ↦ rw e record { row = omega (arith, h.row); column = h.column }
]

row_after : (fila columna : ℕ) → fila < 24 → (if columna + 1 == 80 then fila + 1 else fila) < 25
row_after fila columna h = ground (arith, h)

write_char-IsNear :
    (this ch : ℕ) (t : Terminal)
    → IsInside (t.consoles this)
    → IsNear ((write_char this ch t).consoles this)
unfolding write_char
write_char-IsNear this ch t h =
    let u = write_in_console this (λ i. ch) (t.consoles this).style 1 t in
    let k = keeps this (λ i. ch) (t.consoles this).style 1 t in
    let c = u.consoles this in
    let f : ℕ = if c.columna + 1 == 80 then c.fila + 1 else c.fila in
    let l = row_after c.fila c.columna (omega (arith, k.0, h.row)) in
    let v = move_cursor this f ((c.columna + 1) % 80) u in
    let k' = keeps this block block_no_blink 1 v in
    let (a, b) = moved this f ((c.columna + 1) % 80) u (omega (arith, l)) (omega arith) in
    record { row = omega (arith, k'.0, a, l); column = omega (arith, k'.1, b) }

scroll-IsInside :
    (this : ℕ) (t : Terminal) → IsNear (t.consoles this) → IsInside ((scroll this t).consoles this)
unfolding scroll
scroll-IsInside this t h = elim (Bool-cases ((t.consoles this).fila == 24)) [
  | inl e ↦ rw (e, ==_refl this) record { row = omega (arith, h.row); column = h.column }
  | inr e ↦ rw e record { row = ground (arith, h.row, e); column = h.column }
]

write_one-IsInside :
    (this ch : ℕ) (t : Terminal)
    → IsInside (t.consoles this)
    → IsInside ((write_one this ch t).consoles this)
unfolding write_one
write_one-IsInside this ch t h = elim (Bool-cases (ch == 10)) [
  | inl e ↦ rw e (scroll-IsInside this (write_newline this t) (write_newline-IsNear this t h))
  | inr e ↦ elim (Bool-cases (ch == 8)) [
    | inl g ↦
        rw (e, g) (scroll-IsInside this (write_backspace this t) (write_backspace-IsNear this t h))
    | inr g ↦
        rw (e, g) (scroll-IsInside this (write_char this ch t) (write_char-IsNear this ch t h))
  ]
]

write_all-IsInside :
    (this : ℕ) (buf : List ℕ) (t : Terminal)
    → IsInside (t.consoles this)
    → IsInside ((write_all this buf t).consoles this)
unfolding write_all
write_all-IsInside this [] t h = h
write_all-IsInside this (ch ∷ buf) t h =
    write_all-IsInside this buf (write_one this ch t) (write_one-IsInside this ch t h)

-- A console whose cursor is above the last row and within its row takes all the bytes written to it,
-- line feeds and backspaces included, and its cursor is above the last row and within its row again.
pub con_write-IsInside :
    (this : ℕ) (buf : List ℕ) (t : Terminal)
    → IsInside (t.consoles this)
    → ((con_write this buf t).0 ≡ length buf) × IsInside ((con_write this buf t).1.consoles this)
unfolding con_write
con_write-IsInside this buf t h =
    rw (on_screen (t.consoles this).fila (t.consoles this).columna h.row h.column)
      (refl, write_all-IsInside this buf t h)
  where
    on_screen : (f c : ℕ) → f < 24 → c < 80 → ltb (80 * 2 * f + c * 2) 4000 ≡ true
    on_screen f c a b = ground (arith, a, b)
