-- ===== src/LibStr/Numbers/Reading.antt =====
-- Numbers read back: `str_into_num` on what `num_into_string` writes.
use native.Mathlib.Nat.{mod-lt, mul-div_left, div-lt_iff_lt-mul, div-add-mod'}
use pso.Base.{
  if◌then◌else◌, leb, ◌==◌, sub32, update, inl, inr, Bool-cases, ℕ, zero, suc, ◌+◌, ◌-◌, ◌*◌, ◌/◌,
  ◌%◌, ◌^◌, ◌≤◌, ◌<◌, ◌≡◌, ◌∙◌, refl, ap, true, false, List, [], ◌∷◌, ◌++◌, some, arith,
}
use pso.LibStr.{str_into_string}
use pso.LibStr.Numbers.{
  digit_char, num_into_string, is_digit, digit_of, take_digits, top_power, sum_digits, num_of,
  str_into_num, str_into_dec, dec_into_string,
}
use pso.LibStr.Numbers.Digits.{
  power, power-pos, power_mono, digits, Fits, ten-Fits, num_into_string-digits,
}

digit_of-digit_char : (v : ℕ) → v < 16 → digit_of (digit_char v) ≡ v
digit_of-digit_char v h = ground arith

is_digit-digit_char : (v base : ℕ) → v < base → base ≤ 16 → is_digit (digit_char v) base ≡ true
is_digit-digit_char v base h w = ground arith

-- What stands behind the number does not begin with a digit.
abbrev pub Ends : ℕ → List ℕ → Type 0
Ends base [] = Unit
Ends base (c ∷ cs) = is_digit c base ≡ false

take_end : (base : ℕ) (rest : List ℕ) → Ends base rest → take_digits false 0 base rest ≡ []
unfolding take_digits
take_end base [] e = refl
take_end base (c ∷ cs) e = rw e refl

module _ (base k : ℕ) (f : Fits base k) where
  -- The first digit is below the base, and the others are those of the remainder.
  first-lt : (i num : ℕ) → num < power base (suc (suc i)) → num / power base (suc i) < base
  first-lt i num h = (div-lt_iff_lt-mul (power-pos base (suc i) f.least)).1 (omega arith)

  take_digits-digits :
      (i num : ℕ) (rest : List ℕ)
      → num < power base (suc i)
      → Ends base rest
      → take_digits false 0 base (digits base i num ++ rest) ≡ digits base i num
  unfolding take_digits digits
  take_digits-digits zero num rest h e =
      rw (is_digit-digit_char num base (omega arith) f.most, take_end base rest e) refl
  take_digits-digits (suc i) num rest h e =
      rw
        (
          is_digit-digit_char _ base (first-lt i num h) f.most,
          take_digits-digits i (num % power base (suc i)) rest
              (mod-lt num (power-pos base (suc i) f.least)) e,
        )
        refl

  top_power-digits : (i num : ℕ) → i ≤ k → top_power base (digits base i num) ≡ power base i
  unfolding top_power digits
  top_power-digits zero num h = refl
  top_power-digits (suc zero) num h = let b = f.most in omega arith
  top_power-digits (suc (suc i)) num h =
      let b = power_mono base (suc (suc i)) (k - suc (suc i)) k f.least (omega arith) in
      rw (top_power-digits (suc i) (num % power base (suc (suc i))) (omega arith))
        (omega (arith, f.below))

  sum_digits-digits :
      (i num acc : ℕ)
      → num < power base (suc i)
      → acc + num < 2 ^ 32
      → sum_digits base (power base i) acc (digits base i num) ≡ acc + num
  unfolding sum_digits digits
  sum_digits-digits zero num acc h w =
      rw (digit_of-digit_char num (omega (arith, f.most))) (omega arith)
  sum_digits-digits (suc i) num acc h w =
      let p = power base (suc i) in
      let whole = div-add-mod' num p in
      let next : p / base ≡ power base i = mul-div_left (power base i) (omega (arith, f.least)) in
      let fits : (acc + num / p * p) % 2 ^ 32 ≡ acc + num / p * p = omega arith in
      let v-lt : num / p < 16 = omega (arith, first-lt i num h, f.most) in
      ap (λ d. sum_digits base (p / base) ((acc + d * p) % 2 ^ 32) (digits base i (num % p)))
        (digit_of-digit_char (num / p) v-lt)
      ∙ rw (next, fits)
          (sum_digits-digits i (num % p) (acc + num / p * p)
              (mod-lt num (power-pos base (suc i) f.least)) (omega arith)
            ∙ omega arith)

  num_of-digits :
      (i num : ℕ)
      → i ≤ k
      → num < power base (suc i)
      → num < 2 ^ 32
      → num_of base (digits base i num) ≡ some (digits base i num, num)
  unfolding digits top_power
  num_of-digits zero num le h w =
      ap (λ a. some (digits base zero num, a))
        (sum_digits-digits zero num 0 h (omega arith) ∙ omega arith)
  num_of-digits (suc i) num le h w = rw (top_power-digits (suc i) num le) (
      ap (λ a. some (digits base (suc i) num, a))
        (sum_digits-digits (suc i) num 0 h (omega arith) ∙ omega arith))

  read-digits :
      (m num : ℕ) (rest : List ℕ)
      → m ≤ k
      → num < power base (suc m)
      → num < 2 ^ 32
      → Ends base rest
      → str_into_num (digits base m num ++ rest) 0 base ≡ some (digits base m num, num)
  unfolding str_into_num
  read-digits m num rest le lt w e =
      rw (take_digits-digits m num rest lt e) (num_of-digits m num le lt w)

  -- A word that `num_into_string` writes is read back by `str_into_num`, whatever follows it that
  -- is not a digit: the characters written are those read, and they stand for the word.
  pub str_into_num-num_into_string :
      (num : ℕ) (str : ℕ → ℕ) (index : ℕ) (rest : List ℕ)
      → num < 2 ^ 32
      → Ends base rest
      → (text : List ℕ) × (num_into_string str index num base ≡ str_into_string str index text)
        × (str_into_num (text ++ rest) 0 base ≡ some (text, num))
  str_into_num-num_into_string num str index rest w e =
      let (m, le, high, written) = num_into_string-digits num base k str index f w in
      (digits base m num, written, read-digits m num rest le high.0 w e)

digit_char_ne_dash : (v : ℕ) → (digit_char v == 45) ≡ false
digit_char_ne_dash v = ground arith

-- A number without a sign is read by `str_into_num`.
str_into_dec_plain :
    (m num : ℕ) (rest : List ℕ)
    → str_into_dec (digits 10 m num ++ rest) 0 ≡ str_into_num (digits 10 m num ++ rest) 0 10
unfolding str_into_dec digits
str_into_dec_plain zero num rest = rw (digit_char_ne_dash num) refl
str_into_dec_plain (suc m) num rest = rw (digit_char_ne_dash (num / power 10 (suc m))) refl

-- What `dec_into_string` writes of any word, taken as an `int`, is read back by `str_into_dec` as
-- the same word, whatever follows it that is not a digit. The characters that it counts are those
-- written, without the sign.
pub str_into_dec-dec_into_string :
    (num : ℕ) (str : ℕ → ℕ) (index : ℕ) (rest : List ℕ)
    → num < 2 ^ 32
    → Ends 10 rest
    → (sign text : List ℕ) × (dec_into_string str index num
        ≡ str_into_string str index (sign ++ text))
      × (str_into_dec ((sign ++ text) ++ rest) 0 ≡ some (text, num))
      × (sign ≡ (if leb (2 ^ 31) num then 45 ∷ [] else []))
unfolding dec_into_string str_into_dec str_into_string
str_into_dec-dec_into_string num str index rest w e = elim (Bool-cases (leb (2 ^ 31) num)) [
  | inr plus ↦
      (let (m, le, high, written) = num_into_string-digits num 10 9 str index ten-Fits w in
        (
          [],
          digits 10 m num,
          rw plus written,
          str_into_dec_plain m num rest ∙ read-digits 10 9 ten-Fits m num rest le high.0 w e,
          rw plus refl,
        ))
  | inl minus ↦
      (let size = sub32 0 num in
        let (m, le, high, written) =
          num_into_string-digits size 10 9 (update str index 45) (index + 1) ten-Fits
            (omega arith) in
        let back : sub32 0 size ≡ num = ground arith in
        (
          45 ∷ [],
          digits 10 m size,
          rw minus written,
          rw (read-digits 10 9 ten-Fits m size rest le high.0 (omega arith) e)
              (ap (λ a. some (digits 10 m size, a)) back),
          rw minus refl,
        ))
]
