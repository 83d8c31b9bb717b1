-- ===== src/Console/Examples.antt =====
-- Keys and reads at concrete consoles.
use pso.Base.{ℕ, ◌≡◌, ◌≢◌, refl, [], ◌∷◌, ◌==◌, if◌then◌else◌, minus_one, arith, false}
use pso.Mm.{Mm, no_entry}
use pso.Console.Lifecycle.{con_open}
use pso.Console.Output.{
  con_write, write_all, write_one, write_newline, write_char, write_in_console, scroll,
}
use pso.Console.Rings.{IsRing, con_open-IsRing}
use pso.Console.Cursor.{IsInside, con_write-IsInside}
use pso.Loader.{Loader}
use pso.Console.{Console, Terminal, getc, key_pressed, take_char, con_read_rest}
use pso.Console.Queue.{IsBuffer, take_char-IsBuffer, con_read_rest-IsBuffer}
use pso.Console.Keys.{key_pressed-IsBuffer}

abbrev idle : Loader
idle = record {
  task_table = λ p. record { next = 0; prev = 0; cr3 = 0; esp0 = 0 };
  cur_pid = 0;
  tasks_running = 0;
  tasks_blocked = 0;
  free_pids = λ p. 0;
  next_free = 1;
  sched = record {
    tasks = λ p. record { state = 0; next = 0; prev = 0 };
    quantum = 2;
    current_pid = 0;
    last = 0;
  };
  cpu = record { cr3 = 0; esp = 0 };
}

-- A console with the characters `l` and `s` at the end of its ring, its neighbours being `next`.
abbrev with_ls : ℕ → Console
with_ls next = record {
  next = next;
  prev = next;
  refcount = 1;
  fila = 3;
  columna = 5;
  style = 0x0F;
  buff = λ i. if i == 29 then 108 else 115;
  buff_index_start = 29;
  buff_index_end = 1;
  buff_cant = 2;
  busy = 0;
  read_expected = 0;
  sem = record { vl = 0; q = minus_one };
  console_screen = λ i. 0;
}

abbrev two_consoles : Terminal
two_consoles = record {
  consoles = λ p. if p == 1 then with_ls 2 else with_ls 1;
  current_console = 1;
  empty_console = 2;
  shifts = record { alt_pressed = 0; shift_pressed = 0 };
  screen = λ i. i;
  loader = idle;
}

with_ls-IsBuffer : (next : ℕ) → IsBuffer (with_ls next) (108 ∷ 115 ∷ [])
with_ls-IsBuffer next = record {
  holds = (refl, (refl, tt));
  fits = omega arith;
  counted = refl;
  start_ok = omega arith;
  end_at = refl;
}

take_char-IsBuffer_example : IsBuffer (take_char 10 (with_ls 1) idle).0 (108 ∷ 115 ∷ 10 ∷ [])
take_char-IsBuffer_example =
    take_char-IsBuffer 10 (with_ls 1) idle (108 ∷ 115 ∷ []) (with_ls-IsBuffer 1)

con_read_rest-IsBuffer_example :
    ((con_read_rest 1 (with_ls 1)).0 ≡ 108 ∷ [])
    × IsBuffer (con_read_rest 1 (with_ls 1)).1 (115 ∷ [])
con_read_rest-IsBuffer_example =
    con_read_rest-IsBuffer (with_ls 1) (108 ∷ []) (115 ∷ []) (with_ls-IsBuffer 1)

-- The key with scan code 0x1e types an `a`.
key_pressed-IsBuffer_example :
    IsBuffer ((key_pressed 0x1e two_consoles).consoles 1) (108 ∷ 115 ∷ 97 ∷ [])
    × ((q : ℕ) → q ≢ 1 → (key_pressed 0x1e two_consoles).consoles q ≡ two_consoles.consoles q)
    × ((key_pressed 0x1e two_consoles).screen ≡ two_consoles.screen)
    × ((key_pressed 0x1e two_consoles).current_console ≡ 1)
unfolding getc
key_pressed-IsBuffer_example =
    key_pressed-IsBuffer 0x1e two_consoles (108 ∷ 115 ∷ []) refl (with_ls-IsBuffer 2)

-- Consoles 1 and 2, the first of them current.
two_consoles-IsRing : IsRing two_consoles.consoles 1 (2 ∷ [])
two_consoles-IsRing = record {
  links = (refl, refl, (refl, refl));
  distinct = (refl, (refl, tt));
  not_null = refl;
}

con_open-IsRing_example :
    ((con_open 3 two_consoles).current_console ≡ 3)
    × IsRing (con_open 3 two_consoles).consoles 1 (3 ∷ 2 ∷ [])
con_open-IsRing_example =
    con_open-IsRing 3 two_consoles (2 ∷ []) (omega arith) two_consoles-IsRing refl

abbrev memory : Mm
memory = record {
  kernel_pf_info = λ j i. false;
  usr_pf_info = λ j i. false;
  usr_pf_limit = 4;
  tables = λ f i. no_entry;
}

-- A line feed, a backspace and a character.
con_write-IsInside_example :
    ((con_write 2 (10 ∷ 8 ∷ 97 ∷ []) two_consoles).0 ≡ 3)
    × IsInside ((con_write 2 (10 ∷ 8 ∷ 97 ∷ []) two_consoles).1.consoles 2)
con_write-IsInside_example =
    con_write-IsInside 2 (10 ∷ 8 ∷ 97 ∷ []) two_consoles
      record { row = omega arith; column = omega arith }

cursor_moves : ((con_write 2 (10 ∷ 97 ∷ []) two_consoles).1.consoles 2).columna ≡ 1
unfolding con_write write_all write_one write_newline write_char write_in_console scroll
cursor_moves = refl
