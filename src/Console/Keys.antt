-- ===== src/Console/Keys.antt =====
-- What a key does to the terminal: con.c's `console_keyPressed`, and the switch between consoles.
use pso.Base.{
  ℕ, ◌<◌, ◌≡◌, ◌≢◌, refl, sym, ◌∙◌, List, [], ◌∷◌, ◌++◌, length, if◌then◌else◌, ltb, ◌==◌, not,
  ◌&&◌, Bool, false, arith, ==_refl, ==_ne,
}
use pso.Vga.{copy_memory_to_screen}
use pso.Vga.Screens.{copy_roundtrip}
use pso.Console.{Terminal, getc, hot_key, key_pressed, move_to_right_console, move_to_left_console}
use pso.Console.Queue.{IsBuffer, take_char-IsBuffer}

-- Whether alt and shift are both held.
abbrev pub held : Terminal → Bool
held t = t.shifts.alt_pressed == 1 && t.shifts.shift_pressed == 1

-- A key without alt and shift held puts its character at the end of the current console's queue,
-- when it has a character and there is room, and otherwise leaves the queue; it changes no other
-- console, no screen, and not which console is current.
pub key_pressed-IsBuffer :
    (code : ℕ) (t : Terminal) (cs : List ℕ)
    → held t ≡ false
    → IsBuffer (t.consoles t.current_console) cs
    → IsBuffer ((key_pressed code t).consoles t.current_console) (
        if not ((getc code t.shifts).0 == 0) && ltb (length cs) 30
        then cs ++ (getc code t.shifts).0 ∷ []
        else cs)
      × ((q : ℕ) → q ≢ t.current_console → (key_pressed code t).consoles q ≡ t.consoles q)
      × ((key_pressed code t).screen ≡ t.screen)
      × ((key_pressed code t).current_console ≡ t.current_console)
unfolding key_pressed hot_key
key_pressed-IsBuffer code t cs h b =
    rw (h, ==_refl t.current_console)
      (
        take_char-IsBuffer (getc code t.shifts).0 (t.consoles t.current_console) t.loader cs b,
        λ q n. rw (==_ne q t.current_console n) refl,
        refl,
        refl,
      )

-- The next console of the current one, whose previous console it is, neither the null pointer.
pub record IsNeighbour (t : Terminal) : Type 0 where
  pub current_ok : t.current_console ≢ 0
  pub next_ok : (t.consoles t.current_console).next ≢ 0
  pub back : (t.consoles (t.consoles t.current_console).next).prev ≡ t.current_console

-- Moving one console to the right and back to the left, where there is another console on the right,
-- shows the same console again with the same 4000 bytes on the screen.
pub right_then_left :
    (t : Terminal) (i : ℕ)
    → IsNeighbour t
    → (t.consoles t.current_console).next ≢ t.current_console
    → i < 4000
    → ((move_to_left_console (move_to_right_console t)).current_console ≡ t.current_console)
      × ((move_to_left_console (move_to_right_console t)).screen i ≡ t.screen i)
unfolding move_to_right_console move_to_left_console
right_then_left t i n d b =
    rw
      (
        ==_ne t.current_console 0 n.current_ok,
        ==_ne (t.consoles t.current_console).next 0 n.next_ok,
        ==_ne (t.consoles t.current_console).next t.current_console d,
        n.back,
        ==_ne t.current_console (t.consoles t.current_console).next (λ e. d (sym e)),
        ==_refl t.current_console,
      )
      (
        refl,
        copy_roundtrip t.screen (t.consoles t.current_console).console_screen
              (copy_memory_to_screen (t.consoles (t.consoles t.current_console).next).console_screen
                t.screen)
              i
            ∙ ground (arith, b),
      )
