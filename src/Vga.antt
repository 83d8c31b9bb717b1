-- ===== src/Vga.antt =====
-- The text screen: tp1/src/kernel/vga.c. A screen, the video memory or a console's copy of it, is
-- the bytes from a pointer on, a function of the offset: 25 rows of 80 cells of two bytes.
pub mod Screens
mod Examples
use pso.Base.{
  ℕ, zero, suc, ◌+◌, ◌-◌, ◌*◌, ◌%◌, ◌^◌, ◌==◌, if◌then◌else◌, ltb, not, ◌&&◌, ◌||◌, update, Bool,
}

abbrev pub vga_cols : ℕ
vga_cols = 80

abbrev pub vga_rows : ℕ
vga_rows = 25

-- The loop of the two copies below: `n` cells are left, the next at offset `p`.
pub copy_loop : ℕ → ℕ → (ℕ → ℕ) → (ℕ → ℕ) → ℕ → ℕ
copy_loop zero p from to = to
copy_loop (suc n) p from to =
    copy_loop n (p + 2) from (update (update to p (from p)) (p + 1) (from (p + 1)))

-- `copy_memory_to_screen`: what the screen is afterwards.
unfoldable pub copy_memory_to_screen : (ℕ → ℕ) → (ℕ → ℕ) → ℕ → ℕ
unfolding copy_loop
copy_memory_to_screen memory screen = copy_loop (vga_cols * vga_rows) 0 memory screen

-- `copy_screen_to_memory`: what the memory is afterwards.
unfoldable pub copy_screen_to_memory : (ℕ → ℕ) → (ℕ → ℕ) → ℕ → ℕ
unfolding copy_loop
copy_screen_to_memory screen memory = copy_loop (vga_cols * vga_rows) 0 screen memory

-- The loop that moves the rows up by one, in place.
pub shift_loop : ℕ → ℕ → (ℕ → ℕ) → ℕ → ℕ
shift_loop zero p video = video
shift_loop (suc n) p video = shift_loop n (p + 1) (update video p (video (p + vga_cols * 2)))

-- `n` cells of character `char` and attribute `attr` from offset `p` on.
pub fill_loop : ℕ → ℕ → ℕ → ℕ → (ℕ → ℕ) → ℕ → ℕ
fill_loop zero p char attr video = video
fill_loop (suc n) p char attr video =
    fill_loop n (p + 2) char attr (update (update video p char) (p + 1) attr)

-- `move_scr_up`
unfoldable pub move_scr_up : (ℕ → ℕ) → ℕ → ℕ
unfolding shift_loop fill_loop
move_scr_up video =
    let moved = shift_loop (4000 - vga_cols * 2) 0 video in
    let bkg = moved (4000 - vga_cols * 2 - 1) in
    fill_loop vga_cols (4000 - vga_cols * 2) 0 bkg moved

-- One bit field of the attribute byte, where the fields below it are already there.
abbrev pub bit_of : Bool → ℕ
bit_of b = if b then 1 else 0

-- `make_format`. The four fields do not overlap, so that the `|=` of the source adds.
unfoldable pub make_format : ℕ → ℕ → ℕ → ℕ → ℕ
make_format blink front back bright =
    front % 8 + bit_of (ltb 0 bright) * 8 + back % 8 * 16 + bit_of (ltb 0 blink) * 128

-- `fill_screen`
unfoldable pub fill_screen : ℕ → ℕ → (ℕ → ℕ) → ℕ → ℕ
unfolding make_format fill_loop
fill_screen color bright video =
    fill_loop (vga_cols * vga_rows) 0 0 (make_format 0 0 color bright) video

-- The loop of `vga_write_in_memory` from offset `video` on. It stops at the latest when `video`
-- reaches `limit`, `n` cells further on.
pub write_loop : ℕ → ℕ → ℕ → ℕ → ℕ → (ℕ → ℕ) → (ℕ → ℕ) → ℕ → ℕ
write_loop zero cant attr str video msg mem = mem
write_loop (suc n) cant attr str video msg mem =
    let rest =
      write_loop n cant attr (str + 1) (video + 2) msg
        (update (update mem video (msg str)) (video + 1) attr) in
    if (cant == 0 && not (msg str == 0)) || (not (cant == 0) && ltb str cant) then rest else mem

-- `vga_write_in_memory`. The limit is 4000 bytes, 2000 cells, from the first cell written.
unfoldable pub vga_write_in_memory : ℕ → ℕ → (ℕ → ℕ) → ℕ → ℕ → (ℕ → ℕ) → ℕ → ℕ
unfolding write_loop
vga_write_in_memory fila col msg attr cant mem =
    write_loop 2000 cant attr 0 (vga_cols * 2 * fila + col * 2) msg mem

-- `vga_write`: the row and the column are cut to a byte.
unfoldable pub vga_write : ℕ → ℕ → (ℕ → ℕ) → ℕ → (ℕ → ℕ) → ℕ → ℕ
unfolding vga_write_in_memory
vga_write f c msg attr screen = vga_write_in_memory (f % 2 ^ 8) (c % 2 ^ 8) msg attr 0 screen
