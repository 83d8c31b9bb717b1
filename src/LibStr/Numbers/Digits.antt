-- ===== src/LibStr/Numbers/Digits.antt =====
-- What `num_into_string` writes: the digits of the number, first that of the highest power.
use native.Mathlib.Nat.{mod-eq-sub-div-mul, mul-div_left, div-lt_iff_lt-mul, le-div_iff_mul-le}
use pso.Base.{
  ◌⊎◌, ℕ, zero, suc, ◌+◌, ◌-◌, ◌*◌, ◌/◌, ◌%◌, ◌^◌, ◌≤◌, ◌<◌, ◌≡◌, ◌∙◌, refl, ap, sym, ltb, leb,
  true, false, inl, inr, List, [], ◌∷◌, update, arith, Bool-cases,
}
use pso.LibStr.{str_into_string}
use pso.LibStr.Numbers.{scale, digit_char, put_digits, num_into_string}

-- The powers of the base.
abbrev pub power : ℕ → ℕ → ℕ
power base zero = 1
power base (suc i) = power base i * base

-- The digits of `num` for the powers from `i` down to 0.
unfoldable pub digits : ℕ → ℕ → ℕ → List ℕ
digits base zero num = digit_char num ∷ []
digits base (suc i) num =
    digit_char (num / power base (suc i)) ∷ digits base i (num % power base (suc i))

-- A base whose powers up to `k` fit into an `int`, and all words below the next one.
pub record Fits (base k : ℕ) : Type 0 where
  pub least : 2 ≤ base
  pub most : base ≤ 16
  pub rounds : k < 32
  pub below : power base k < 2 ^ 31
  pub above : 2 ^ 32 ≤ power base (suc k)

pub ten-Fits : Fits 10 9
ten-Fits = omega arith

pub sixteen-Fits : Fits 16 7
sixteen-Fits = omega arith

pub power-pos : (base i : ℕ) → 2 ≤ base → 0 < power base i
power-pos base zero h = omega arith
power-pos base (suc i) h = let p = power-pos base i h in grind arith

power-le_suc : (base i : ℕ) → 2 ≤ base → power base i ≤ power base (suc i)
power-le_suc base i h = let p = power-pos base i h in grind arith

pub power_mono : (base i j k : ℕ) → 2 ≤ base → i + j ≡ k → power base i ≤ power base k
power_mono base i zero k h e = let e' : i ≡ k = omega arith in rw e' (omega arith)
power_mono base i (suc j) zero h e = absurd (omega arith)
power_mono base i (suc j) (suc k) h e =
    omega (arith, power_mono base i j k h (omega arith), power-le_suc base k h)

lt-leb : (a b : ℕ) → b < a → leb a b ≡ false
lt-leb a b h = ground arith

-- The highest power that the number reaches, or 0.
abbrev pub Highest : ℕ → ℕ → ℕ → Type 0
Highest base m num = (num < power base (suc m)) × ((m ≡ 0) ⊎ (power base m ≤ num))

-- The first loop ends at the highest power that the number reaches, or at 1.
scale-power :
    (j n num base i k : ℕ)
    → Fits base k
    → num < 2 ^ 32
    → i + j ≡ k
    → j < n
    → (i ≡ 0) ⊎ (power base i ≤ num)
    → (m : ℕ) × (scale n num base (power base i) ≡ power base m) × (m ≤ k) × Highest base m num
unfolding scale
scale-power j zero num base i k f w e h r = absurd (omega arith)
scale-power zero (suc n) num base i k f w e h r =
    let e' : i ≡ k = omega arith in
    let up : power base (suc i) ≡ power base (suc k) = ap (λ a. power base (suc a)) e' in
    let below : num < base * power base i = omega (arith, f.above) in
    let stop : num / power base i < base = (div-lt_iff_lt-mul (power-pos base i f.least)).1 below in
    (i, rw (lt-leb base _ stop) refl, omega arith, (omega arith, r))
scale-power (suc j) (suc n) num base i k f w e h r =
    elim (Bool-cases (leb base (num / power base i))) [
      | inr stop ↦
          (let less : num / power base i < base = ground arith in
            let below = (div-lt_iff_lt-mul (power-pos base i f.least)).0 less in
            (i, rw stop refl, omega arith, (omega arith, r)))
      | inl go ↦
          (let more : base ≤ num / power base i = ground arith in
            let up = (le-div_iff_mul-le (power-pos base i f.least)).0 more in
            let fits : (power base i * base) % 2 ^ 32 ≡ power base (suc i) = omega arith in
            rw (go, fits)
              (scale-power j n num base (suc i) k f w (omega arith) (omega arith)
                (inr (omega arith))))
    ]

-- The second loop writes the digits.
put_digits_lem :
    (i n num base k : ℕ) (str : ℕ → ℕ) (index : ℕ)
    → Fits base k
    → i ≤ k
    → i ≤ n
    → put_digits n num base (power base i) str index ≡ str_into_string str index (digits base i num)
unfolding put_digits digits str_into_string
put_digits_lem zero zero num base k str index f h w = refl
put_digits_lem zero (suc n) num base k str index f h w = rw (lt-leb base 1 (f.least)) refl
put_digits_lem (suc i) zero num base k str index f h w = absurd (omega arith)
put_digits_lem (suc i) (suc n) num base k str index f h w =
    let p = power-pos base i f.least in
    let big : leb base (power base i * base) ≡ true =
      (let m : 1 * base ≤ power base i * base = grind arith in ground arith) in
    let small : ltb (power base i * base) (2 ^ 31) ≡ true =
      (let m = power_mono base (suc i) (k - suc i) k f.least (omega arith) in
        let b = f.below in ground arith) in
    let left : num - num / (power base i * base) * (power base i * base)
        ≡ num % (power base i * base) =
      sym (mod-eq-sub-div-mul num (power base i * base)) in
    let next : power base i * base / base ≡ power base i =
      mul-div_left (power base i) (omega (arith, f.least)) in
    rw (big, small, left, next)
      (put_digits_lem i n (num % (power base i * base)) base k
        (update str index (digit_char (num / (power base i * base)))) (index + 1) f (omega arith)
        (omega arith))

-- `num_into_string` writes the digits of the number, from its highest power on.
pub num_into_string-digits :
    (num base k : ℕ) (str : ℕ → ℕ) (index : ℕ)
    → Fits base k
    → num < 2 ^ 32
    → (m : ℕ) × (m ≤ k)
      × Highest base m num
      × (num_into_string str index num base ≡ str_into_string str index (digits base m num))
unfolding num_into_string
num_into_string-digits num base k str index f w =
    let (m, e, le, high) = scale-power k 32 num base 0 k f w (omega arith) f.rounds (inl refl) in
    (m, le, high, rw e (put_digits_lem m 32 num base k str index f le (omega (arith, f.rounds))))

-- There is only one highest power.
Highest-le : (num base a b : ℕ) → 2 ≤ base → Highest base a num → Highest base b num → a ≤ b
Highest-le num base a b two ha hb = elim (Bool-cases (leb a b)) [
  | inl le ↦ ground arith
  | inr gt ↦
      (let lt : b < a = ground arith in
        let up = power_mono base (suc b) (a - suc b) a two (omega arith) in
        elim ha.1 [ inl z ↦ omega arith | inr reached ↦ absurd (omega (arith, hb.0)) ])
]

pub num_into_string-Highest :
    (num base k m : ℕ) (str : ℕ → ℕ) (index : ℕ)
    → Fits base k
    → num < 2 ^ 32
    → Highest base m num
    → num_into_string str index num base ≡ str_into_string str index (digits base m num)
num_into_string-Highest num base k m str index f w high =
    let (n, le, high', written) = num_into_string-digits num base k str index f w in
    let up = Highest-le num base n m f.least high' high in
    let down = Highest-le num base m n f.least high high' in
    let e : n ≡ m = omega arith in
    written ∙ ap (λ a. str_into_string str index (digits base a num)) e
