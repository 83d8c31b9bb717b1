-- ===== src/Console/Output.antt =====
-- Writing to a console: `con_write` and `write_in_console` of con.c.
use pso.Base.{
  ℕ, ◌+◌, ◌-◌, ◌*◌, ◌%◌, ◌^◌, ◌==◌, if◌then◌else◌, ltb, leb, update, List, [], ◌∷◌, length,
}
use pso.Vga.{vga_cols, vga_rows, vga_write_in_memory, move_scr_up}
use pso.Console.{Console, Terminal}

-- `block`
abbrev pub block : ℕ → ℕ
block i = if i == 0 then 219 else if i == 2 then 32 else 0

-- `BLOCK_NO_BLINK`
abbrev pub block_no_blink : ℕ
block_no_blink = 0x0F

abbrev pub set_console : ℕ → Console → Terminal → Terminal
set_console this c t = record t { consoles = update t.consoles this c }

-- `write_in_console`
unfoldable pub write_in_console : ℕ → (ℕ → ℕ) → ℕ → ℕ → Terminal → Terminal
write_in_console this msg style cant t =
    let c = t.consoles this in
    if t.current_console == this
    then record t { screen = vga_write_in_memory c.fila c.columna msg style cant t.screen }
    else set_console this
        (record c {
          console_screen = vga_write_in_memory c.fila c.columna msg style cant c.console_screen;
        })
        t

-- Where the cursor of a console goes.
abbrev pub move_cursor : ℕ → ℕ → ℕ → Terminal → Terminal
move_cursor this fila columna t =
    set_console this (record (t.consoles this) { fila = fila % 2 ^ 8; columna = columna % 2 ^ 8 }) t

-- A new line, a backspace, and any other character. A backspace in column 0, which the source treats
-- inside its test for column 14, does not happen.
unfoldable pub write_newline : ℕ → Terminal → Terminal
unfolding write_in_console
write_newline this t =
    let u = write_in_console this (λ i. block (2 + i)) block_no_blink 1 t in
    move_cursor this ((u.consoles this).fila + 1) 0 u

unfoldable pub write_backspace : ℕ → Terminal → Terminal
unfolding write_in_console
write_backspace this t =
    let c = t.consoles this in
    if leb 14 c.columna
    then write_in_console this block block_no_blink 2 (move_cursor this c.fila (c.columna - 1) t)
    else t

unfoldable pub write_char : ℕ → ℕ → Terminal → Terminal
unfolding write_in_console
write_char this ch t =
    let u = write_in_console this (λ i. ch) (t.consoles this).style 1 t in
    let c = u.consoles this in
    let v =
      move_cursor this (if c.columna + 1 == vga_cols then c.fila + 1 else c.fila)
        ((c.columna + 1) % vga_cols) u in
    write_in_console this block block_no_blink 1 v

-- The scrolling at the end of a round, of the console's memory and of the screen.
unfoldable pub scroll : ℕ → Terminal → Terminal
scroll this t =
    let c = t.consoles this in
    let moved = record c { fila = c.fila - 1; console_screen = move_scr_up c.console_screen } in
    if c.fila == vga_rows - 1
    then record t { consoles = update t.consoles this moved; screen = move_scr_up t.screen }
    else t

-- One round of the loop.
unfoldable pub write_one : ℕ → ℕ → Terminal → Terminal
unfolding write_newline write_backspace write_char scroll
write_one this ch t = scroll this (
    if ch == 10
    then write_newline this t
    else if ch == 8
    then write_backspace this t
    else write_char this ch t)

unfoldable pub write_all : ℕ → List ℕ → Terminal → Terminal
unfolding write_one
write_all this [] t = t
write_all this (ch ∷ chs) t = write_all this chs (write_one this ch t)

-- `con_write`. The position `video`, which the loop compares with the end of the screen, is computed
-- before it and does not change.
unfoldable pub con_write : ℕ → List ℕ → Terminal → ℕ × Terminal
unfolding write_all
con_write this buf t =
    let c = t.consoles this in
    if ltb (vga_cols * 2 * c.fila + c.columna * 2) 4000
    then (length buf, write_all this buf t)
    else (0, t)
