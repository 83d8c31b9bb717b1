-- ===== src/LibStr/Numbers.antt =====
-- Numbers as text: the second half of lib_str.c. Words wrap at 2 ^ 32; a loop that multiplies its
-- divisor up to the number has 32 rounds at most for a base of 2 or more.
pub mod Digits
pub mod Reading
use pso.Base.{
  ℕ, zero, suc, ◌+◌, ◌-◌, ◌*◌, ◌/◌, ◌%◌, ◌^◌, ◌==◌, if◌then◌else◌, ltb, leb, not, ◌&&◌, ◌||◌, Bool,
  List, [], ◌∷◌, Option, none, some, update, sub32,
}

-- The loop of `num_into_string`: the divisor.
pub scale : ℕ → ℕ → ℕ → ℕ → ℕ
scale zero num base acum = acum
scale (suc n) num base acum =
    let rest = scale n num base ((acum * base) % 2 ^ 32) in
    if leb base (num / acum) then rest else acum

-- `digits[val]`
abbrev pub digit_char : ℕ → ℕ
digit_char val = if ltb val 10 then 48 + val else 55 + val

-- The second loop: a digit for each power of the base, and the last digit behind it. `acum` is an
-- `int`, and a base is one that fits into 31 bits: the test is one of signed numbers.
pub put_digits : ℕ → ℕ → ℕ → ℕ → (ℕ → ℕ) → ℕ → (ℕ → ℕ) × ℕ
put_digits zero num base acum str index = (update str index (digit_char num), index + 1)
put_digits (suc n) num base acum str index =
    let val = num / acum in
    let rest =
      put_digits n (num - val * acum) base (acum / base) (update str index (digit_char val))
        (index + 1) in
    if leb base acum && ltb acum (2 ^ 31)
    then rest
    else (update str index (digit_char num), index + 1)

-- `num_into_string`
unfoldable pub num_into_string : (ℕ → ℕ) → ℕ → ℕ → ℕ → (ℕ → ℕ) × ℕ
unfolding scale put_digits
num_into_string str index num base = put_digits 32 num base (scale 32 num base 1) str index

-- `dec_into_string`, on the word of an `int`, and `hex_into_string`.
unfoldable pub dec_into_string : (ℕ → ℕ) → ℕ → ℕ → (ℕ → ℕ) × ℕ
unfolding num_into_string
dec_into_string str index num =
    if leb (2 ^ 31) num
    then num_into_string (update str index 45) (index + 1) (sub32 0 num) 10
    else num_into_string str index num 10

unfoldable pub hex_into_string : (ℕ → ℕ) → ℕ → ℕ → (ℕ → ℕ) × ℕ
unfolding num_into_string
hex_into_string str index num = num_into_string str index num 16

-- The loop of `num_into_string_len`, which starts at the base and not at 1.
pub count_scale : ℕ → ℕ → ℕ → ℕ → ℕ → ℕ
count_scale zero num base acum dignum = dignum
count_scale (suc n) num base acum dignum =
    let rest = count_scale n num base ((acum * base) % 2 ^ 32) (dignum + 1) in
    if leb base (num / acum) then rest else dignum

-- `num_into_string_len`, `dec_into_string_len` and `hex_into_string_len`.
unfoldable pub num_into_string_len : ℕ → ℕ → ℕ
unfolding count_scale
num_into_string_len num base = count_scale 32 num base base 1

unfoldable pub dec_into_string_len : ℕ → ℕ
unfolding num_into_string_len
dec_into_string_len num =
    if leb (2 ^ 31) num then 1 + num_into_string_len num 10 else num_into_string_len num 10

unfoldable pub hex_into_string_len : ℕ → ℕ
unfolding num_into_string_len
hex_into_string_len num = num_into_string_len num 16

-- Whether `str_into_num` takes a character for a digit, and which digit it is.
abbrev pub is_digit : ℕ → ℕ → Bool
is_digit c base =
    (leb 0x30 c && ltb c 0x3A && ltb (c - 0x30) base)
    || (leb 0x41 c && ltb c 0x47 && ltb (c + 10) (base + 0x41))
    || (leb 0x61 c && ltb c 0x67 && ltb (c + 10) (base + 0x61))

abbrev pub digit_of : ℕ → ℕ
digit_of c = if ltb c 0x3A then c - 0x30 else if ltb c 0x47 then c - 0x41 + 10 else c - 0x61 + 10

-- The digits that `str_into_num` reads, at most `n` of them when `limited`.
pub take_digits : Bool → ℕ → ℕ → List ℕ → List ℕ
take_digits limited n base [] = []
take_digits limited n base (c ∷ str) =
    let rest = take_digits limited (n - 1) base str in
    if not (limited && n == 0) && is_digit c base then c ∷ rest else []

-- The power of the base for the first of the digits.
pub top_power : ℕ → List ℕ → ℕ
top_power base [] = 1
top_power base (c ∷ []) = 1
top_power base (c ∷ d ∷ cs) = (top_power base (d ∷ cs) * base) % 2 ^ 32

pub sum_digits : ℕ → ℕ → ℕ → List ℕ → ℕ
sum_digits base acum num [] = num
sum_digits base acum num (c ∷ cs) =
    sum_digits base (acum / base) ((num + digit_of c * acum) % 2 ^ 32) cs

abbrev pub num_of : ℕ → List ℕ → Option (List ℕ × ℕ)
num_of base [] = none
num_of base (c ∷ cs) = some (c ∷ cs, sum_digits base (top_power base (c ∷ cs)) 0 (c ∷ cs))

-- `str_into_num`: the digits read and their number; `none` is -1.
unfoldable pub str_into_num : List ℕ → ℕ → ℕ → Option (List ℕ × ℕ)
unfolding take_digits top_power sum_digits
str_into_num str len base = num_of base (take_digits (not (len == 0)) len base str)

abbrev pub negated : Option (List ℕ × ℕ) → Option (List ℕ × ℕ)
negated none = none
negated (some (read, num)) = some (read, sub32 0 num)

-- `str_into_dec`. The length that is given is that of the digits, without the sign.
unfoldable pub str_into_dec : List ℕ → ℕ → Option (List ℕ × ℕ)
unfolding str_into_num
str_into_dec [] len = str_into_num [] len 10
str_into_dec (c ∷ str) len =
    if c == 45 then negated (str_into_num str len 10) else str_into_num (c ∷ str) len 10

-- `str_into_hex`
unfoldable pub str_into_hex : List ℕ → ℕ → Option (List ℕ × ℕ)
unfolding str_into_num
str_into_hex [] len = str_into_num [] len 16
str_into_hex (c ∷ []) len = str_into_num (c ∷ []) len 16
str_into_hex (c ∷ d ∷ str) len =
    if c == 48 && d == 120 then str_into_num str len 16 else str_into_num (c ∷ d ∷ str) len 16
