-- ===== src/Printf/Examples.antt =====
-- A format at work: "a%s%c" with "bc" and "d".
use pso.Base.{ℕ, ◌^◌, ◌-◌, true, false, refl, inr, ◌≡◌, [], ◌∷◌, length, List, some, update, arith}
use pso.LibStr.{str_into_string}
use pso.Printf.{Arg, word, text, sprintf_in, printf_len, directive}
use pso.LibStr.Numbers.Digits.{digits}
use pso.Printf.Render.{
  Renders, ends, plain, char, string, negative, hexadecimal, sprintf_in-Renders,
  sprintf_in-Renders_numbers,
}

abbrev fmt : List ℕ
fmt = 97 ∷ 37 ∷ 115 ∷ 37 ∷ 99 ∷ []

abbrev args : List Arg
args = text (98 ∷ 99 ∷ []) ∷ word 100 ∷ []

abbrev abcd : List ℕ
abcd = 97 ∷ 98 ∷ 99 ∷ 100 ∷ []

abbrev clear : ℕ → ℕ
clear i = 0

fmt-Renders : Renders false fmt args abcd
fmt-Renders = plain (omega arith) (string (char ends))

sprintf_in-Renders_example :
    (sprintf_in clear fmt args ≡ some (update (str_into_string clear 0 abcd).0 (length abcd) 0))
    × (printf_len fmt args ≡ some (length abcd))
sprintf_in-Renders_example = sprintf_in-Renders fmt args abcd clear fmt-Renders

-- "%d %x" with -42 and 255.
abbrev numbers_fmt : List ℕ
numbers_fmt = 37 ∷ 100 ∷ 32 ∷ 37 ∷ 120 ∷ []

abbrev numbers_args : List Arg
numbers_args = word (2 ^ 32 - 42) ∷ word 255 ∷ []

abbrev numbers_text : List ℕ
numbers_text = 45 ∷ 52 ∷ 50 ∷ 32 ∷ 70 ∷ 70 ∷ []

minus_42_ff : Renders true numbers_fmt numbers_args numbers_text
unfolding digits directive
minus_42_ff =
    negative {m = 1} refl refl (omega arith) (omega arith) (omega arith, inr (omega arith))
      (plain (omega arith)
        (hexadecimal {m = 1} refl refl (omega arith) (omega arith, inr (omega arith)) ends))

sprintf_in-Renders_numbers_example :
    sprintf_in clear numbers_fmt numbers_args
    ≡ some (update (str_into_string clear 0 numbers_text).0 (length numbers_text) 0)
sprintf_in-Renders_numbers_example =
    sprintf_in-Renders_numbers numbers_fmt numbers_args numbers_text clear minus_42_ff
