-- ===== src/Base/Pigeon.antt =====
-- Lists of different numbers below a bound are no longer than the bound.
use Prim.Native.Nat.{ℕ, zero, suc, ◌+◌, ◌≤◌, ◌<◌}
use mathlib.Core.Path.{◌≡◌, refl}
use mathlib.Core.Logic.{inl, inr}
use mathlib.Core.Bool.{false}
use mathlib.Core.List.{List, [], ◌∷◌}
use native.Mathlib.Omega.{arith}
use pso.Base.Tests.{◌==◌, if◌then◌else◌, Bool-cases}
use pso.Base.Lists.{length, has, Distinct, All}

without : ℕ → List ℕ → List ℕ
without a [] = []
without a (x ∷ xs) = if x == a then without a xs else x ∷ without a xs

has-without : (a b : ℕ) (xs : List ℕ) → has b xs ≡ false → has b (without a xs) ≡ false
unfolding without
has-without a b [] h = refl
has-without a b (x ∷ xs) h = ground (arith, has-without a b xs)

without_absent : (a : ℕ) (xs : List ℕ) → has a xs ≡ false → length xs ≤ length (without a xs)
unfolding without
without_absent a [] h = omega arith
without_absent a (x ∷ xs) h = ground (arith, without_absent a xs)

length-without : (a : ℕ) (xs : List ℕ) → Distinct xs → length xs ≤ length (without a xs) + 1
unfolding without
length-without a [] d = omega arith
length-without a (x ∷ xs) d = ground (arith, length-without a xs d.1, without_absent a xs, d.0)

Distinct-without : (a : ℕ) (xs : List ℕ) → Distinct xs → Distinct (without a xs)
unfolding without
Distinct-without a [] d = tt
Distinct-without a (x ∷ xs) d = elim (Bool-cases (x == a)) [
  | inl e ↦ rw e (Distinct-without a xs d.1)
  | inr e ↦ rw e (has-without a x xs d.0, Distinct-without a xs d.1)
]

All-without : (n : ℕ) (xs : List ℕ) → All (λ p. p < suc n) xs → All (λ p. p < n) (without n xs)
unfolding without
All-without n [] h = tt
All-without n (x ∷ xs) h = elim (Bool-cases (x == n)) [
  | inl e ↦ rw e (All-without n xs h.1)
  | inr e ↦ rw e (ground (arith, h.0), All-without n xs h.1)
]

pub length-le_of_Distinct :
    (n : ℕ) (xs : List ℕ) → Distinct xs → All (λ p. p < n) xs → length xs ≤ n
length-le_of_Distinct zero [] d h = omega arith
length-le_of_Distinct zero (x ∷ xs) d h = absurd (omega (arith, h.0))
length-le_of_Distinct (suc n) xs d h = omega (
  arith,
  length-without n xs d,
  length-le_of_Distinct n (without n xs) (Distinct-without n xs d) (All-without n xs h),
)
