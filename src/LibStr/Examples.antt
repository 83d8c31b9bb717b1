-- ===== src/LibStr/Examples.antt =====
-- Strings at concrete inputs.
use pso.Base.{
  ℕ, ◌^◌, ◌-◌, ◌++◌, some, none, leb, if◌then◌else◌, ◌+◌, ◌≡◌, ◌↔◌, refl, List, [], ◌∷◌, arith,
}
use pso.LibStr.{strcmp, strncmp, strchr, str_into_string}
use pso.LibStr.Numbers.{
  num_into_string, num_into_string_len, dec_into_string, str_into_dec, str_into_hex,
}
use pso.LibStr.Numbers.Reading.{str_into_dec-dec_into_string}
use pso.LibStr.Compare.{strcmp_iff}

-- `/disk`, and `/disc`
abbrev disk : List ℕ
disk = 47 ∷ 100 ∷ 105 ∷ 115 ∷ 107 ∷ []

abbrev disc : List ℕ
disc = 47 ∷ 100 ∷ 105 ∷ 115 ∷ 99 ∷ []

abbrev letters : ℕ → ℕ
letters i = 97 + i

compare_runs : (strcmp disk disc ≡ 8) × (strncmp disk disc 4 ≡ 0) × (strchr disk 105 ≡ 2)
unfolding strcmp strncmp strchr
compare_runs = (refl, refl, refl)

-- `sk`, and `sc`
abbrev sk : List ℕ
sk = 115 ∷ 107 ∷ []

abbrev sc : List ℕ
sc = 115 ∷ 99 ∷ []

strcmp_iff_example : (strcmp sk sc ≡ 0) ↔ (sk ≡ sc)
strcmp_iff_example =
    strcmp_iff sk sc ((omega arith, omega arith), ((omega arith, omega arith), tt))
      ((omega arith, omega arith), ((omega arith, omega arith), tt))

-- `55` has two digits, and is printed with two, but `num_into_string_len` counts one.
short_by_one : (num_into_string_len 55 10 ≡ 1) × ((num_into_string (λ i. 0) 0 55 10).1 ≡ 2)
unfolding num_into_string_len num_into_string
short_by_one = (refl, refl)

-- -42 with a space behind it.
str_into_dec-dec_into_string_example :
    (sign text : List ℕ) × (dec_into_string letters 0 (2 ^ 32 - 42)
      ≡ str_into_string letters 0 (sign ++ text))
    × (str_into_dec ((sign ++ text) ++ 32 ∷ []) 0 ≡ some (text, 2 ^ 32 - 42))
    × (sign ≡ (if leb (2 ^ 31) (2 ^ 32 - 42) then 45 ∷ [] else []))
str_into_dec-dec_into_string_example =
    str_into_dec-dec_into_string (2 ^ 32 - 42) letters 0 (32 ∷ []) (omega arith) refl

-- A `0` that is followed by an `x` is no number of one digit for `str_into_hex`.
zero_x :
    (str_into_hex (48 ∷ 120 ∷ []) 0 ≡ none)
    × (str_into_hex (48 ∷ 120 ∷ 65 ∷ []) 0 ≡ some (65 ∷ [], 10))
unfolding str_into_hex
zero_x = (refl, refl)
