-- ===== src/Console/Lifecycle.antt =====
-- Opening and closing a console: `con_open` and `con_flush` of con.c, on the ring of consoles.
use pso.Base.{ℕ, zero, suc, ◌+◌, ◌-◌, ◌%◌, ◌==◌, if◌then◌else◌, ltb, update, List, [], ◌∷◌}
use pso.Sem.{sem_new}
use pso.Mm.{Mm, mm_mem_free}
use pso.Vga.{vga_write, copy_memory_to_screen, copy_screen_to_memory}
use pso.Console.{Console, Terminal, move_to_right_console, move_to_empty_console}

-- `CONSOLE_STYLE_DEFAULT`
abbrev pub console_style_default : ℕ
console_style_default = 0x0F

abbrev pub set_next : ℕ → ℕ → (ℕ → Console) → ℕ → Console
set_next p v consoles = update consoles p (record (consoles p) { next = v })

abbrev pub set_prev : ℕ → ℕ → (ℕ → Console) → ℕ → Console
set_prev p v consoles = update consoles p (record (consoles p) { prev = v })

-- The page of a console that is opened, before it is linked.
unfoldable pub new_console : Console
new_console = record {
  next = 0;
  prev = 0;
  refcount = 0;
  fila = 0;
  columna = 0;
  style = console_style_default;
  buff = λ i. 0;
  buff_index_start = 0;
  buff_index_end = 0;
  buff_cant = 0;
  busy = 0;
  read_expected = 0;
  sem = sem_new 0;
  console_screen = λ i. if i % 2 == 0 then 0 else console_style_default;
}

-- The links of `con_open`, with `this` the new console and `cur` the current one.
unfoldable pub link_console : ℕ → ℕ → (ℕ → Console) → ℕ → Console
link_console this cur consoles =
    if cur == 0
    then set_prev this this (set_next this this consoles)
    else (let a = set_prev this cur (set_next this (consoles cur).next consoles) in
        let b = set_prev (a cur).next this a in set_next cur this b)

-- `con_open`, on the clear page `this` that `mm_mem_kalloc` has returned. The screen is saved for
-- the current console also when there is none.
unfoldable pub con_open : ℕ → Terminal → Terminal
unfolding link_console new_console
con_open this t =
    let cur = t.current_console in
    let linked = link_console this cur (update t.consoles this new_console) in
    let consoles = update linked cur (record (linked cur) {
      console_screen = copy_screen_to_memory t.screen (linked cur).console_screen;
    }) in
    record t {
      consoles = consoles;
      current_console = this;
      screen = copy_memory_to_screen (consoles this).console_screen t.screen;
    }

-- The unlinking of `con_flush`.
unfoldable pub unlink_console : ℕ → (ℕ → Console) → ℕ → Console
unlink_console this consoles =
    let a = set_prev (consoles this).next (consoles this).prev consoles in
    let b = set_next (a this).prev (a this).next a in
    if (consoles this).next == this then consoles else b

-- `con_flush`
unfoldable pub con_flush : ℕ → Terminal → Mm → Terminal × Mm
unfolding unlink_console move_to_right_console move_to_empty_console
con_flush this t m =
    let c = t.consoles this in
    let consoles = unlink_console this t.consoles in
    let u = record t { consoles = consoles } in
    if ltb 1 c.refcount
    then (
      record t { consoles = update t.consoles this (record c { refcount = c.refcount - 1 }) },
      m,
    )
    else (
      if t.current_console == this
          then (if (consoles this).next == this
              then move_to_empty_console u
              else move_to_right_console u)
          else u,
      mm_mem_free this m,
    )

-- The loop of `set_console_style`, with `n` cells left, the next attribute at offset `i`.
unfoldable pub style_loop : ℕ → ℕ → ℕ → (ℕ → ℕ) → ℕ → ℕ
style_loop zero i style screen = screen
style_loop (suc n) i style screen = style_loop n (i + 2) style (update screen i style)

-- `set_console_style`
unfoldable pub set_console_style : ℕ → ℕ → Terminal → Terminal
unfolding style_loop
set_console_style this style t =
    let c = t.consoles this in
    let screen = style_loop 2000 1 style c.console_screen in
    record t {
      consoles = update t.consoles this (record c { style = style; console_screen = screen });
      screen =
          if t.current_console == this then copy_memory_to_screen screen t.screen else t.screen;
    }

-- "EMPTY CONSOLE"
abbrev pub empty_message : ℕ → ℕ
empty_message i = get_elem (69 ∷ 77 ∷ 80 ∷ 84 ∷ 89 ∷ 32 ∷ 67 ∷ 79 ∷ 78 ∷ 83 ∷ 79 ∷ 76 ∷ 69 ∷ []) i
  where
    get_elem : List ℕ → ℕ → ℕ
    get_elem [] i = 0
    get_elem (c ∷ cs) zero = c
    get_elem (c ∷ cs) (suc i) = get_elem cs i

-- `con_init` on the page `this`, but for the entry in the table of system calls and the ports of the
-- cursor. The style is red, green and light.
unfoldable pub con_init : ℕ → Terminal → Terminal
unfolding con_open set_console_style
con_init this t =
    let u = set_console_style this 0x4A (con_open this t) in
    let screen = vga_write 12 35 empty_message 0x4A u.screen in
    let c = u.consoles this in
    record u {
      empty_console = this;
      current_console = 0;
      screen = screen;
      consoles =
          update u.consoles this
            (record c { console_screen = copy_screen_to_memory screen c.console_screen });
    }
