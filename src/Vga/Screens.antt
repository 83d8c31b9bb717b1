-- ===== src/Vga/Screens.antt =====
-- What vga.c leaves on the screen, byte by byte.
use pso.Base.{
  ap, update, ℕ, zero, suc, ◌+◌, ◌-◌, ◌*◌, ◌/◌, ◌%◌, Bool, ◌≤◌, ◌<◌, ◌≡◌, refl, ◌∙◌, ◌==◌,
  if◌then◌else◌, ltb, leb, ◌&&◌, arith,
}
use pso.Vga.{
  copy_loop, shift_loop, fill_loop, write_loop, copy_memory_to_screen, copy_screen_to_memory,
  move_scr_up, vga_write_in_memory, make_format,
}

copy_loop_lem :
    (n p : ℕ) (from to : ℕ → ℕ) (i : ℕ)
    → copy_loop n p from to i ≡ (if leb p i && ltb i (p + n * 2) then from i else to i)
unfolding copy_loop
copy_loop_lem zero p from to i = ground arith
copy_loop_lem (suc n) p from to i =
    ground
      (arith, copy_loop_lem n (p + 2) from (update (update to p (from p)) (p + 1) (from (p + 1))) i)

shift_loop_lem :
    (n p : ℕ) (video : ℕ → ℕ) (i : ℕ)
    → shift_loop n p video i ≡ (if leb p i && ltb i (p + n) then video (i + 160) else video i)
unfolding shift_loop
shift_loop_lem zero p video i = ground arith
shift_loop_lem (suc n) p video i =
    ground (arith, shift_loop_lem n (p + 1) (update video p (video (p + 160))) i)

-- Whether byte `i` is one of the `n` cells from byte `p` on, and whether it is an attribute.
abbrev pub in_cells : ℕ → ℕ → ℕ → Bool
in_cells n p i = leb p i && ltb i (p + n * 2)

fill_loop_lem :
    (n p char attr : ℕ) (video : ℕ → ℕ) (i : ℕ)
    → fill_loop n p char attr video i
      ≡ (if in_cells n p i then (if (i - p) % 2 == 0 then char else attr) else video i)
unfolding fill_loop
fill_loop_lem zero p char attr video i = ground arith
fill_loop_lem (suc n) p char attr video i =
    ground (arith, fill_loop_lem n (p + 2) char attr (update (update video p char) (p + 1) attr) i)

write_loop_stop :
    (n cant attr str video : ℕ) (msg mem : ℕ → ℕ)
    → 0 < cant
    → cant ≤ str
    → write_loop n cant attr str video msg mem ≡ mem
unfolding write_loop
write_loop_stop zero cant attr str video msg mem h b = refl
write_loop_stop (suc n) cant attr str video msg mem h b = ground arith

write_loop_step :
    (n cant attr str video : ℕ) (msg mem : ℕ → ℕ)
    → str < cant
    → write_loop (suc n) cant attr str video msg mem
      ≡ write_loop n cant attr
          (str + 1)
          (video + 2)
          msg
          (update (update mem video (msg str)) (video + 1) attr)
unfolding write_loop
write_loop_step n cant attr str video msg mem h = ground arith

-- What the loop leaves when `m` of the characters are left to write.
cell : ℕ → ℕ → ℕ → ℕ → (ℕ → ℕ) → (ℕ → ℕ) → ℕ → ℕ
cell m attr str video msg mem i =
    if in_cells m video i
    then (if (i - video) % 2 == 0 then msg (str + (i - video) / 2) else attr)
    else mem i

cell_step :
    (m attr str video : ℕ) (msg mem : ℕ → ℕ) (i : ℕ)
    → cell m attr (str + 1) (video + 2) msg (update (update mem video (msg str)) (video + 1) attr) i
      ≡ cell (suc m) attr str video msg mem i
unfolding cell
cell_step m attr str video msg mem i = ground arith

cell_done :
    (attr str video : ℕ) (msg mem : ℕ → ℕ) (i : ℕ) → mem i ≡ cell zero attr str video msg mem i
unfolding cell
cell_done attr str video msg mem i = ground arith

write_loop_lem :
    (m n cant attr str video : ℕ) (msg mem : ℕ → ℕ) (i : ℕ)
    → 0 < cant
    → cant ≡ str + m
    → m ≤ n
    → write_loop n cant attr str video msg mem i ≡ cell m attr str video msg mem i
write_loop_lem zero n cant attr str video msg mem i h e b =
    ap (λ f. f i) (write_loop_stop n cant attr str video msg mem h (omega (arith, e)))
    ∙ cell_done attr str video msg mem i
write_loop_lem (suc m) zero cant attr str video msg mem i h e b = absurd (omega (arith, b))
write_loop_lem (suc m) (suc n) cant attr str video msg mem i h e b =
    ap (λ f. f i) (write_loop_step n cant attr str video msg mem (omega (arith, e)))
    ∙ write_loop_lem m n cant attr (str + 1) (video + 2) msg
        (update (update mem video (msg str)) (video + 1) attr) i h (omega (arith, e))
        (omega (arith, b))
    ∙ cell_step m attr str video msg mem i

copy_twice :
    (n : ℕ) (screen memory later : ℕ → ℕ) (i : ℕ)
    → copy_loop n 0 (copy_loop n 0 screen memory) later i
      ≡ (if ltb i (n * 2) then screen i else later i)
copy_twice n screen memory later i = ground (
  arith,
  copy_loop_lem n 0 (copy_loop n 0 screen memory) later i,
  copy_loop_lem n 0 screen memory i,
)

-- Scrolling with `n` bytes moved and `c` cells blanked behind them.
scroll :
    (n c : ℕ) (video : ℕ → ℕ) (i : ℕ)
    → 0 < n
    → n % 2 ≡ 0
    → fill_loop c n 0 (shift_loop n 0 video (n - 1)) (shift_loop n 0 video) i ≡ (
        if ltb i n
        then video (i + 160)
        else if ltb i (n + c * 2)
        then (if i % 2 == 0 then 0 else video (n - 1 + 160))
        else video i)
scroll n c video i h e = ground (
  arith,
  fill_loop_lem c n 0 (shift_loop n 0 video (n - 1)) (shift_loop n 0 video) i,
  shift_loop_lem n 0 video i,
  shift_loop_lem n 0 video (n - 1),
)

write_cells :
    (n cant attr video : ℕ) (msg mem : ℕ → ℕ) (i : ℕ)
    → 0 < cant
    → cant ≤ n
    → video % 2 ≡ 0
    → write_loop n cant attr 0 video msg mem i ≡ (
        if in_cells cant video i
        then (if i % 2 == 0 then msg ((i - video) / 2) else attr)
        else mem i)
unfolding cell
write_cells n cant attr video msg mem i h b e =
    ground (arith, write_loop_lem cant n cant attr 0 video msg mem i h (omega arith) b)

-- Switching away from a console and back, whatever the screen showed meanwhile and whatever the
-- console's copy held before, brings every byte of the screen back, and touches no byte beyond it.
pub copy_roundtrip :
    (screen memory later : ℕ → ℕ) (i : ℕ)
    → copy_memory_to_screen (copy_screen_to_memory screen memory) later i
      ≡ (if ltb i 4000 then screen i else later i)
unfolding copy_memory_to_screen copy_screen_to_memory
copy_roundtrip screen memory later i = copy_twice 2000 screen memory later i

-- Scrolling gives each of the first 24 rows the bytes of the row below it, blanks the last row in
-- the attribute that the last cell of the screen had, and leaves the memory beyond the screen.
pub move_scr_up_lem :
    (video : ℕ → ℕ) (i : ℕ)
    → move_scr_up video i ≡ (
        if ltb i 3840
        then video (i + 160)
        else if ltb i 4000
        then (if i % 2 == 0 then 0 else video 3999)
        else video i)
unfolding move_scr_up
move_scr_up_lem video i = scroll 3840 80 video i (omega arith) (omega arith)

-- Writing between 1 and 2000 characters puts character `k` of the message, with the attribute,
-- into cell `k` from the row and column given, and changes no other byte.
pub vga_write_in_memory_lem :
    (fila col attr cant : ℕ) (msg mem : ℕ → ℕ) (i : ℕ)
    → 0 < cant
    → cant ≤ 2000
    → vga_write_in_memory fila col msg attr cant mem i ≡ (
        if in_cells cant (80 * 2 * fila + col * 2) i
        then (if i % 2 == 0 then msg ((i - (80 * 2 * fila + col * 2)) / 2) else attr)
        else mem i)
unfolding vga_write_in_memory
vga_write_in_memory_lem fila col attr cant msg mem i h b =
    write_cells 2000 cant attr (80 * 2 * fila + col * 2) msg mem i h b (omega arith)

-- The attribute byte that `make_format` builds fits in a byte, and its four fields are read back
-- from it: the two colours, and the two flags, set when the argument is not 0.
pub make_format_lem :
    (blink front back bright : ℕ)
    → (make_format blink front back bright < 256)
      × (make_format blink front back bright % 8 ≡ front % 8)
      × (make_format blink front back bright / 8 % 2 ≡ (if ltb 0 bright then 1 else 0))
      × (make_format blink front back bright / 16 % 8 ≡ back % 8)
      × (make_format blink front back bright / 128 ≡ (if ltb 0 blink then 1 else 0))
unfolding make_format
make_format_lem blink front back bright = ground arith
