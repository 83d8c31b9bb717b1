-- ===== src/Printf.antt =====
-- Formatted printing: tp1/src/kernel/lib_printf.c. A format is the list of its bytes, and the
-- arguments behind it are a list: words, and strings where the source has pointers. `none` is a
-- format that reads an argument that is not there or is of the other kind.
pub mod Numerals
pub mod Render
mod Examples
use pso.Base.{
  ℕ, zero, suc, ◌+◌, ◌%◌, ◌^◌, ◌==◌, if◌then◌else◌, ◌||◌, Bool, true, false, List, [], ◌∷◌, Option,
  none, some, update,
}
use pso.LibStr.{strlen, str_into_string, char_into_string}
use pso.LibStr.Numbers.{dec_into_string, dec_into_string_len, hex_into_string, hex_into_string_len}

pub data Arg : Type 0 where
  word : ℕ → Arg
  text : List ℕ → Arg

-- The letters of the directives: `c`, `d` and `i`, `x`, `s`, and any other.
pub data Directive : Type 0 where
  chr dec hex str other : Directive

unfoldable pub directive : ℕ → Directive
directive c =
    if c == 99
    then chr
    else if c == 100 || c == 105
    then dec
    else if c == 120
    then hex
    else if c == 115
    then str
    else other

-- What a directive adds to the length, and the arguments behind it.
unfoldable pub directive_len : Directive → List Arg → Option (ℕ × List Arg)
directive_len other args = some (0, args)
directive_len chr (word x ∷ args) = some (1, args)
directive_len dec (word x ∷ args) = some (dec_into_string_len x, args)
directive_len hex (word x ∷ args) = some (hex_into_string_len x, args)
directive_len str (text s ∷ args) = some (strlen s, args)
directive_len d args = none

-- The loop of `printf_len`, from `count` on.
unfoldable pub len_loop : List ℕ → List Arg → ℕ → Option ℕ
unfolding directive directive_len
len_loop [] args count = some count
len_loop (c ∷ []) args count = if c == 37 then some count else some (count + 1)
len_loop (c ∷ d ∷ fmt) args count =
    let plain = len_loop (d ∷ fmt) args (count + 1) in
    let special = (elim (directive_len (directive d) args) as (λ x. Option ℕ) [
      | none ↦ none
      | some r ↦ len_loop fmt r.1 (count + r.0)
    ]) in
    if c == 37 then special else plain

-- `printf_len`
unfoldable pub printf_len : List ℕ → List Arg → Option ℕ
printf_len fmt args = len_loop fmt args 0

-- What a directive writes from index `count` on.
unfoldable pub directive_in : Directive → List Arg → (ℕ → ℕ) → ℕ → Option (((ℕ → ℕ) × ℕ) × List Arg)
directive_in other args buf count = some ((buf, count), args)
directive_in chr (word x ∷ args) buf count = some (char_into_string buf count (x % 2 ^ 8), args)
directive_in dec (word x ∷ args) buf count = some (dec_into_string buf count x, args)
directive_in hex (word x ∷ args) buf count = some (hex_into_string buf count x, args)
directive_in str (text s ∷ args) buf count = some (str_into_string buf count s, args)
directive_in d args buf count = none

-- The loop of `sprintf_in`: the buffer, and where the text ends.
unfoldable pub in_loop : List ℕ → List Arg → (ℕ → ℕ) → ℕ → Option ((ℕ → ℕ) × ℕ)
unfolding directive directive_in
in_loop [] args buf count = some (buf, count)
in_loop (c ∷ []) args buf count =
    if c == 37 then some (buf, count) else some (update buf count c, count + 1)
in_loop (c ∷ d ∷ fmt) args buf count =
    let plain = in_loop (d ∷ fmt) args (update buf count c) (count + 1) in
    let special = (elim (directive_in (directive d) args buf count) as (λ x. Option ((ℕ → ℕ) × ℕ)) [
      | none ↦ none
      | some r ↦ in_loop fmt r.1 r.0.0 r.0.1
    ]) in
    if c == 37 then special else plain

-- `sprintf_in`
unfoldable pub sprintf_in : (ℕ → ℕ) → List ℕ → List Arg → Option (ℕ → ℕ)
sprintf_in buf fmt args = elim (in_loop fmt args buf 0) as (λ x. Option (ℕ → ℕ)) [
  | none ↦ none
  | some r ↦ some (update r.0 r.1 0)
]
