-- ===== src/LibStr/Case.antt =====
-- Upper case, copies and searches: what the routines of lib_str.c leave in a buffer.
use pso.Base.{
  ℕ, zero, suc, ◌+◌, ◌-◌, ◌<◌, ◌≡◌, refl, ap, ◌∙◌, List, [], ◌∷◌, some, get_elem?, length,
  if◌then◌else◌, leb, ltb, ◌&&◌, update, arith,
}
use pso.LibStr.{mayuscula, mayus_loop, str_convert_to_mayus, str_into_string}

mayus_loop_lem :
    (n from : ℕ) (str : ℕ → ℕ) (i : ℕ)
    → mayus_loop n from str i
      ≡ (if leb from i && ltb i (from + n) then mayuscula (str i) else str i)
unfolding mayus_loop
mayus_loop_lem zero from str i = ground arith
mayus_loop_lem (suc n) from str i =
    ground (arith, mayus_loop_lem n (from + 1) (update str from (mayuscula (str from))) i)

once :
    (str : ℕ → ℕ) (from to i : ℕ)
    → str_convert_to_mayus str from to i ≡ (
        if leb from i && ltb i to
        then (if leb 97 (str i) && leb (str i) 122 then str i - 32 else str i)
        else str i)
unfolding str_convert_to_mayus mayuscula
once str from to i = ground (arith, mayus_loop_lem (to - from) from str i)

-- Converting a range of a buffer to upper case turns the letters of the range from `a` to `z` into
-- those from `A` to `Z` and changes nothing else, and converting it again changes nothing.
pub str_convert_to_mayus_lem :
    (str : ℕ → ℕ) (from to i : ℕ)
    → (str_convert_to_mayus str from to i ≡ (
        if leb from i && ltb i to
        then (if leb 97 (str i) && leb (str i) 122 then str i - 32 else str i)
        else str i))
      × (str_convert_to_mayus (str_convert_to_mayus str from to) from to i
          ≡ str_convert_to_mayus str from to i)
str_convert_to_mayus_lem str from to i = (
  once str from to i,
  ground (arith, once str from to i, once (str_convert_to_mayus str from to) from to i),
)

str_into_string_below :
    (str : ℕ → ℕ) (index : ℕ) (cs : List ℕ) (i : ℕ)
    → i < index
    → (str_into_string str index cs).0 i ≡ str i
unfolding str_into_string
str_into_string_below str index [] i h = refl
str_into_string_below str index (c ∷ cs) i h =
    str_into_string_below (update str index c) (index + 1) cs i (omega (arith, h))
    ∙ ground (arith, h)

str_into_string_end :
    (str : ℕ → ℕ) (index : ℕ) (cs : List ℕ) → (str_into_string str index cs).1 ≡ index + length cs
unfolding str_into_string
str_into_string_end str index [] = omega arith
str_into_string_end str index (c ∷ cs) =
    omega (arith, str_into_string_end (update str index c) (index + 1) cs)

str_into_string_at :
    (str : ℕ → ℕ) (index : ℕ) (cs : List ℕ) (k c : ℕ)
    → get_elem? cs k ≡ some c
    → (str_into_string str index cs).0 (index + k) ≡ c
unfolding str_into_string
str_into_string_at str index [] k c e = absurd (ground (arith, e))
str_into_string_at str index (d ∷ cs) zero c e =
    ap (str_into_string (update str index d) (index + 1) cs).0 (omega arith)
    ∙ str_into_string_below (update str index d) (index + 1) cs index (omega arith)
    ∙ ground (arith, e)
str_into_string_at str index (d ∷ cs) (suc k) c e =
    ap (str_into_string (update str index d) (index + 1) cs).0 (omega arith)
    ∙ str_into_string_at (update str index d) (index + 1) cs k c e

-- `str_into_string` puts character `k` of the string `k` places behind the index, and moves the index
-- to the place behind the last of them; the bytes before the index stay.
pub str_into_string_lem :
    (str : ℕ → ℕ) (index : ℕ) (cs : List ℕ) (k c : ℕ)
    → get_elem? cs k ≡ some c
    → ((str_into_string str index cs).0 (index + k) ≡ c)
      × ((str_into_string str index cs).1 ≡ index + length cs)
      × ((i : ℕ) → i < index → (str_into_string str index cs).0 i ≡ str i)
str_into_string_lem str index cs k c e = (
  str_into_string_at str index cs k c e,
  str_into_string_end str index cs,
  str_into_string_below str index cs,
)
