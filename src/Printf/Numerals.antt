-- ===== src/Printf/Numerals.antt =====
-- What the directives of numbers write, as the digits that LibStr/Numbers/Digits.antt describes.
use pso.Base.{
  ℕ, ◌+◌, ◌-◌, ◌^◌, ◌≤◌, ◌<◌, leb, sub32, true, false, ◌≡◌, ap, List, ◌∷◌, some, update, arith,
}
use pso.LibStr.{str_into_string}
use pso.LibStr.Numbers.{dec_into_string, hex_into_string}
use pso.LibStr.Numbers.Digits.{Highest, digits, ten-Fits, sixteen-Fits, num_into_string-Highest}
use pso.Printf.{Arg, word, dec, hex, directive_in}

pub decimal_in :
    (x m : ℕ) (args : List Arg) (buf : ℕ → ℕ) (count : ℕ)
    → x < 2 ^ 31
    → Highest 10 m x
    → directive_in dec (word x ∷ args) buf count
      ≡ some (str_into_string buf count (digits 10 m x), args)
unfolding directive_in dec_into_string
decimal_in x m args buf count w high =
    let small : leb (2 ^ 31) x ≡ false = ground arith in
    rw small (
      ap (λ r. some (r, args))
        (num_into_string-Highest x 10 9 m buf count ten-Fits (omega arith) high))

pub negative_in :
    (x m : ℕ) (args : List Arg) (buf : ℕ → ℕ) (count : ℕ)
    → 2 ^ 31 ≤ x
    → x < 2 ^ 32
    → Highest 10 m (2 ^ 32 - x)
    → directive_in dec (word x ∷ args) buf count
      ≡ some (str_into_string buf count (45 ∷ digits 10 m (2 ^ 32 - x)), args)
unfolding directive_in dec_into_string str_into_string
negative_in x m args buf count le w high =
    let big : leb (2 ^ 31) x ≡ true = ground arith in
    let size : sub32 0 x ≡ 2 ^ 32 - x = omega arith in
    rw (big, size)
      (ap (λ r. some (r, args))
        (num_into_string-Highest (2 ^ 32 - x) 10 9 m (update buf count 45) (count + 1) ten-Fits
          (omega arith) high))

pub hexadecimal_in :
    (x m : ℕ) (args : List Arg) (buf : ℕ → ℕ) (count : ℕ)
    → x < 2 ^ 32
    → Highest 16 m x
    → directive_in hex (word x ∷ args) buf count
      ≡ some (str_into_string buf count (digits 16 m x), args)
unfolding directive_in hex_into_string
hexadecimal_in x m args buf count w high =
    ap (λ r. some (r, args)) (num_into_string-Highest x 16 7 m buf count sixteen-Fits w high)
