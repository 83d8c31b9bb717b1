-- ===== src/LibStr.antt =====
-- Strings: tp1/src/kernel/lib_str.c. A string that is only read is the list of its bytes before the
-- zero byte; a buffer that is written is a function of the index. Words and `char` are two's
-- complement: the `int` -1 is `minus_one`.
pub mod Compare
pub mod Case
pub mod Numbers
mod Examples
use pso.Base.{
  ℕ, zero, suc, ◌+◌, ◌-◌, ◌*◌, ◌/◌, ◌^◌, ◌==◌, if◌then◌else◌, ltb, leb, not, ◌&&◌, ◌||◌, Bool,
  Option, none, some, List, [], ◌∷◌, update, minus_one, sub32, add32, length,
}

-- `(int) c` for a `char`, which is signed.
abbrev pub int_of : ℕ → ℕ
int_of c = if ltb c 128 then c else c + 2 ^ 32 - 2 ^ 8

-- What `strcmp` and `strncmp` return for the bytes where the comparison stops.
abbrev pub str_result : ℕ → ℕ → ℕ
str_result p q =
    if p == 0
    then (if q == 0 then 0 else minus_one)
    else if q == 0
    then 1
    else sub32 (int_of p) (int_of q)

-- The byte that a pointer into a string points at.
abbrev pub first_byte : List ℕ → ℕ
first_byte [] = 0
first_byte (c ∷ cs) = c

-- `strcmp`
unfoldable pub strcmp : List ℕ → List ℕ → ℕ
strcmp [] q = str_result 0 (first_byte q)
strcmp (c ∷ p) [] = str_result c 0
strcmp (c ∷ p) (d ∷ q) = let rest = strcmp p q in if c == d then rest else str_result c d

-- `strncmp`
unfoldable pub strncmp : List ℕ → List ℕ → ℕ → ℕ
strncmp p q zero = 0
strncmp [] q (suc n) = str_result 0 (first_byte q)
strncmp (c ∷ p) [] (suc n) = str_result c 0
strncmp (c ∷ p) (d ∷ q) (suc n) =
    let rest = strncmp p q n in if c == d then rest else str_result c d

-- `strlen`
abbrev pub strlen : List ℕ → ℕ
strlen str = length str

-- The loop of `strchr`, from index `i` on.
unfoldable pub strchr_from : ℕ → List ℕ → ℕ → ℕ
strchr_from i [] c = minus_one
strchr_from i (d ∷ str) c =
    let rest = strchr_from (i + 1) str c in if int_of d == c then i else rest

-- `strchr`
unfoldable pub strchr : List ℕ → ℕ → ℕ
unfolding strchr_from
strchr str c = strchr_from 0 str c

-- The loop of `strncpy` from index `i` on: `room` is false when `count` is 0, and else `n` bytes may
-- still be copied. It returns the index where it stops, and the buffer.
pub copy_from : ℕ → Bool → ℕ → List ℕ → (ℕ → ℕ) → ℕ × (ℕ → ℕ)
copy_from i room n [] dest = if room && n == 0 then (i, dest) else (i, update dest i 0)
copy_from i room n (c ∷ src) dest =
    let rest = copy_from (i + 1) room (n - 1) src (update dest i c) in
    if room && n == 0 then (i, dest) else rest

-- `strncpy`
unfoldable pub strncpy : (ℕ → ℕ) → List ℕ → ℕ → ℕ × (ℕ → ℕ)
unfolding copy_from
strncpy dest src count = copy_from 0 (not (count == 0)) count src dest

-- `str_into_string`: the bytes of the string behind `index`, and where it ends.
unfoldable pub str_into_string : (ℕ → ℕ) → ℕ → List ℕ → (ℕ → ℕ) × ℕ
str_into_string str index [] = (str, index)
str_into_string str index (c ∷ str2) = str_into_string (update str index c) (index + 1) str2

-- `char_into_string`
abbrev pub char_into_string : (ℕ → ℕ) → ℕ → ℕ → (ℕ → ℕ) × ℕ
char_into_string str index c = (update str index c, index + 1)

-- `mayuscula`. A byte from 128 on is negative as a `char`, and stays as it is.
unfoldable pub mayuscula : ℕ → ℕ
mayuscula c = if leb 97 c && leb c 122 then c - (97 - 65) else c

-- The loop of `str_convert_to_mayus`, with `n` bytes left from `from` on.
pub mayus_loop : ℕ → ℕ → (ℕ → ℕ) → ℕ → ℕ
unfolding mayuscula
mayus_loop zero from str = str
mayus_loop (suc n) from str = mayus_loop n (from + 1) (update str from (mayuscula (str from)))

-- `str_convert_to_mayus`
unfoldable pub str_convert_to_mayus : (ℕ → ℕ) → ℕ → ℕ → ℕ → ℕ
unfolding mayus_loop
str_convert_to_mayus str from to = mayus_loop (to - from) from str
