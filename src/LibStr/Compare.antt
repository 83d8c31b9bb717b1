-- ===== src/LibStr/Compare.antt =====
-- What `strcmp` and `strncmp` tell.
use pso.Base.{
  ℕ, zero, suc, ◌<◌, ◌≡◌, ◌≢◌, ◌↔◌, refl, ap, ◌∙◌, length, true, false, List, [], ◌∷◌, ◌==◌, All,
  arith, Bool-cases, inl, inr,
}
use pso.LibStr.{str_result, first_byte, strcmp, strncmp}

-- A byte of a string.
abbrev pub IsByte : ℕ → Type 0
IsByte c = (0 < c) × (c < 256)

-- The first `n` bytes of a string, or all of them.
abbrev pub prefix : ℕ → List ℕ → List ℕ
prefix zero p = []
prefix (suc n) [] = []
prefix (suc n) (c ∷ p) = c ∷ prefix n p

abbrev tail : List ℕ → List ℕ
tail [] = []
tail (c ∷ p) = p

same_of : (a b : ℕ) → (a == b) ≡ true → a ≡ b
same_of a b h = ground (arith, h)

ap2_cons : (c d : ℕ) (p q : List ℕ) → c ≡ d → p ≡ q → c ∷ p ≡ d ∷ q
ap2_cons c d p q e f = ap (λ x. x ∷ p) e ∙ ap (λ x. d ∷ x) f

result_ne : (c d : ℕ) → IsByte c → IsByte d → (c == d) ≡ false → str_result c d ≢ 0
result_ne c d p q e = ground (arith, p, q, e)

-- `strcmp` returns 0 exactly for two strings with the same bytes.
pub strcmp_iff : (p q : List ℕ) → All IsByte p → All IsByte q → (strcmp p q ≡ 0) ↔ (p ≡ q)
unfolding strcmp
strcmp_iff [] [] a b = (λ e. refl, λ e. refl)
strcmp_iff [] (d ∷ q) a b =
    (λ e. absurd (ground (arith, e, b.0)), λ e. absurd (omega (arith, ap length e)))
strcmp_iff (c ∷ p) [] a b =
    (λ e. absurd (ground (arith, e, a.0)), λ e. absurd (omega (arith, ap length e)))
strcmp_iff (c ∷ p) (d ∷ q) a b = elim (Bool-cases (c == d)) [
  | inl e ↦ rw e (
    λ h. ap2_cons c d p q (same_of c d e) ((strcmp_iff p q a.1 b.1).0 h),
    λ h. (strcmp_iff p q a.1 b.1).1 (ap tail h),
  )
  | inr e ↦
      rw e
        (λ h. absurd (result_ne c d a.0 b.0 e h), λ h. absurd (ground (arith, e, ap first_byte h)))
]

pub IsByte-prefix : (n : ℕ) (p : List ℕ) → All IsByte p → All IsByte (prefix n p)
IsByte-prefix zero p h = tt
IsByte-prefix (suc n) [] h = tt
IsByte-prefix (suc n) (c ∷ p) h = (h.0, IsByte-prefix n p h.1)

-- `strncmp` is `strcmp` on the first `n` bytes of both strings.
pub strncmp-prefix : (p q : List ℕ) (n : ℕ) → strncmp p q n ≡ strcmp (prefix n p) (prefix n q)
unfolding strncmp strcmp
strncmp-prefix p q zero = refl
strncmp-prefix [] [] (suc n) = refl
strncmp-prefix [] (d ∷ q) (suc n) = refl
strncmp-prefix (c ∷ p) [] (suc n) = refl
strncmp-prefix (c ∷ p) (d ∷ q) (suc n) = rw (strncmp-prefix p q n) refl
