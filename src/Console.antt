-- ===== src/Console.antt =====
-- The keyboard side of the consoles: tp1/src/kernel/con.c, tp1/src/include/con.h. Characters and
-- scan codes are numbers. Console/Lifecycle.antt has opening
-- and closing, Console/Output.antt writing. The fields of a console that nothing reads are left out;
-- the pointers `next` and `prev` are the numbers of consoles, and the file's static variables, the
-- consoles and the loader are one state.
pub mod Lifecycle
pub mod Output
pub mod Rings
pub mod Cursor
pub mod Queue
pub mod Keys
mod Examples
use pso.Base.{
  ℕ, zero, suc, ◌+◌, ◌-◌, ◌%◌, ◌^◌, Option, none, some, List, [], ◌∷◌, ◌==◌, if◌then◌else◌, ltb,
  leb, not, ◌&&◌, ◌||◌, update,
}
use pso.Loader.{Loader}
use pso.Sem.{Sem, wait, signal}
use pso.Vga.{copy_memory_to_screen, copy_screen_to_memory}

-- `CON_BUFF_SIZE`
abbrev pub con_buff_size : ℕ
con_buff_size = 30

-- `chardev_console`
pub record Console : Type 0 where
  pub next : ℕ
  pub prev : ℕ
  pub refcount : ℕ
  pub fila : ℕ
  pub columna : ℕ
  pub style : ℕ
  pub buff : ℕ → ℕ
  pub buff_index_start : ℕ
  pub buff_index_end : ℕ
  pub buff_cant : ℕ
  pub busy : ℕ
  pub read_expected : ℕ
  pub sem : Sem
  pub console_screen : ℕ → ℕ

-- `altPressed` and `shiftPressed`
pub record Shifts : Type 0 where
  pub alt_pressed : ℕ
  pub shift_pressed : ℕ

-- The static variables of con.c, the consoles by address (0 is the null pointer), the video memory,
-- and the loader.
pub record Terminal : Type 0 where
  pub consoles : ℕ → Console
  pub current_console : ℕ
  pub empty_console : ℕ
  pub shifts : Shifts
  pub screen : ℕ → ℕ
  pub loader : Loader

-- The cases of the switch of `getc` that return a character: scan code and character.
abbrev pub getc_cases : List (ℕ × ℕ)
getc_cases =
    (0x1e, 97)
    ∷ (0x30, 98)
    ∷ (0x2e, 99)
    ∷ (0x20, 100)
    ∷ (0x12, 101)
    ∷ (0x21, 102)
    ∷ (0x22, 103)
    ∷ (0x23, 104)
    ∷ (0x17, 105)
    ∷ (0x24, 106)
    ∷ (0x25, 107)
    ∷ (0x26, 108)
    ∷ (0x32, 109)
    ∷ (0x31, 110)
    ∷ (0x18, 111)
    ∷ (0x19, 112)
    ∷ (0x10, 113)
    ∷ (0x13, 114)
    ∷ (0x1f, 115)
    ∷ (0x14, 116)
    ∷ (0x16, 117)
    ∷ (0x2f, 118)
    ∷ (0x11, 119)
    ∷ (0x2d, 120)
    ∷ (0x15, 121)
    ∷ (0x2c, 122)
    ∷ (0x02, 49)
    ∷ (0x03, 50)
    ∷ (0x04, 51)
    ∷ (0x05, 52)
    ∷ (0x06, 53)
    ∷ (0x07, 54)
    ∷ (0x08, 55)
    ∷ (0x09, 56)
    ∷ (0x0a, 57)
    ∷ (0x0b, 48)
    ∷ (0x34, 46)
    ∷ (0x39, 32)
    ∷ (0x1c, 10)
    ∷ (0x0f, 9)
    ∷ (0x0e, 8)
    ∷ []

-- The first case of a switch that fits.
abbrev pub case_of : List (ℕ × ℕ) → ℕ → Option ℕ
case_of [] code = none
case_of ((k, c) ∷ cases) code = if code == k then some c else case_of cases code

-- The cases of `getc` that only set a shift, and its default, 95 being `_`.
abbrev pub getc_rest : ℕ → Shifts → ℕ × Shifts
getc_rest code s =
    if code == 0x38
    then (0, record s { alt_pressed = 1 })
    else if code == 0x2a
    then (0, record s { shift_pressed = 1 })
    else if code == 0x38 + 0x80
    then (0, record s { alt_pressed = 0 })
    else if code == 0x2a + 0x80
    then (0, record s { shift_pressed = 0 })
    else (if (leb 0x3b code && leb code 0x44) || (leb 0x57 code && leb code 0x58) then 95 else 0, s)

abbrev pub getc_of : Option ℕ → ℕ → Shifts → ℕ × Shifts
getc_of (some c) code s = (c, s)
getc_of none code s = getc_rest code s

-- `getc`
unfoldable pub getc : ℕ → Shifts → ℕ × Shifts
getc code s = getc_of (case_of getc_cases code) code s

-- `move_to_right_console`
unfoldable pub move_to_right_console : Terminal → Terminal
move_to_right_console t =
    if t.current_console == 0
    then t
    else (let c = t.consoles t.current_console in
        let saved = record c { console_screen = copy_screen_to_memory t.screen c.console_screen } in
        let consoles = update t.consoles t.current_console saved in
        record t {
          consoles = consoles;
          screen = copy_memory_to_screen (consoles c.next).console_screen t.screen;
          current_console = c.next;
        })

-- `move_to_left_console`, which saves the screen before the test: with no console, that writes into
-- the memory at address 0.
unfoldable pub move_to_left_console : Terminal → Terminal
move_to_left_console t =
    let c = t.consoles t.current_console in
    let saved = record c { console_screen = copy_screen_to_memory t.screen c.console_screen } in
    let consoles = update t.consoles t.current_console saved in
    if t.current_console == 0 then record t { consoles = consoles } else record t {
      consoles = consoles;
      screen = copy_memory_to_screen (consoles c.prev).console_screen t.screen;
      current_console = c.prev;
    }

-- `move_to_empty_console`
unfoldable pub move_to_empty_console : Terminal → Terminal
move_to_empty_console t = record t {
  screen = copy_memory_to_screen (t.consoles t.empty_console).console_screen t.screen;
  current_console = t.empty_console;
}

-- The part of `console_keyPressed` that puts the character into the buffer; the indices are bytes.
unfoldable pub put_char : ℕ → Console → Console
put_char ch c =
    let index = c.buff_index_end in
    record c {
      buff = update c.buff index ch;
      buff_index_end = ((index + 1) % 2 ^ 8) % con_buff_size;
      buff_cant = (c.buff_cant + 1) % 2 ^ 8;
    }

-- Its last test: whether the reader that waits has enough by now; then it is woken.
unfoldable pub wake_reader : Console → Loader → Console × Loader
wake_reader c l =
    if leb c.read_expected c.buff_cant && not (c.busy == 0)
    then (let (s, l') = signal c.sem l in (record c { busy = 0; sem = s }, l'))
    else (c, l)

-- A character that has come in for a console: dropped when it is 0 or the buffer is full.
unfoldable pub take_char : ℕ → Console → Loader → Console × Loader
unfolding put_char wake_reader
take_char ch c l =
    if not (ch == 0) && ltb c.buff_cant con_buff_size then wake_reader (put_char ch c) l else (c, l)

-- The switch of consoles with alt and shift held.
unfoldable pub hot_key : ℕ → Terminal → Terminal
unfolding move_to_right_console move_to_left_console
hot_key code t =
    if t.shifts.alt_pressed == 1 && t.shifts.shift_pressed == 1
    then (if code == 0x4d
        then move_to_right_console t
        else if code == 0x4b
        then move_to_left_console t
        else t)
    else t

-- `console_keyPressed`
unfoldable pub key_pressed : ℕ → Terminal → Terminal
unfolding hot_key getc take_char
key_pressed code t₀ =
    let t = hot_key code t₀ in
    let (ch, shifts) = getc code t.shifts in
    let (c, l) = take_char ch (t.consoles t.current_console) t.loader in
    record t { consoles = update t.consoles t.current_console c; shifts = shifts; loader = l }

-- The first half of `con_read`: `none` is `CON_ERROR_READTOOLARGE`. When there is not enough to
-- read, the task takes the semaphore, and `sem_wait` blocks it; the second half runs when it has it.
unfoldable pub con_read_request : ℕ → Console → Loader → Option (Console × Loader)
con_read_request size c l =
    if ltb con_buff_size size
    then none
    else some (
        if ltb c.buff_cant size
        then (let (s, l') = wait c.sem l in
            (record c { busy = 1; read_expected = size; sem = s }, l'))
        else (c, l))

-- The loop of `con_read`: the characters copied, and where the buffer starts afterwards.
pub read_loop : ℕ → (ℕ → ℕ) → ℕ → List ℕ × ℕ
read_loop zero buff start = ([], start)
read_loop (suc n) buff start =
    let (cs, end) = read_loop n buff ((start + 1) % con_buff_size) in (buff start ∷ cs, end)

-- The second half of `con_read`. The subtraction wraps, as on a byte.
unfoldable pub con_read_rest : ℕ → Console → List ℕ × Console
unfolding read_loop
con_read_rest size c =
    let (cs, start) = read_loop size c.buff c.buff_index_start in
    (
      cs,
      record c {
        buff_index_start = start;
        buff_cant = (c.buff_cant + 2 ^ 8 - size) % 2 ^ 8;
        read_expected = 0;
      },
    )
