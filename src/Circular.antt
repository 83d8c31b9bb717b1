-- ===== src/Circular.antt =====
-- Characters in a circular buffer: what key buffers, pipes and serial port share. The buffer
-- has `n` places; a position is followed by the next one modulo `n`.
use native.Mathlib.Nat.{mod-add-mod, mod-eq_of_lt, mod-eq-sub-mod, mod-lt}
use pso.Base.{
  ℕ, suc, ◌+◌, ◌-◌, ◌%◌, ◌≤◌, ◌<◌, ◌≡◌, ◌≢◌, ◌⊎◌, inl, inr, sym, ap, ◌∙◌, List, [], ◌∷◌, ◌++◌,
  length, update, ◌==◌, false, arith,
}

-- The characters `cs` stand in the buffer from `start` on.
abbrev pub Holds : ℕ → List ℕ → ℕ → (ℕ → ℕ) → Type 0
Holds n [] start buff = Unit
Holds n (c ∷ cs) start buff = (buff start ≡ c) × Holds n cs ((start + 1) % n) buff

pub next_start : (n start k : ℕ) → ((start + 1) % n + k) % n ≡ (start + suc k) % n
next_start n start k = mod-add-mod (start + 1) n k ∙ ap (λ x. x % n) (omega arith)

pub same_start : (n start : ℕ) → start < n → (start + 0) % n ≡ start
same_start n start h = ap (λ x. x % n) (omega arith) ∙ mod-eq_of_lt h

-- Fewer steps than the buffer has places do not lead back.
apart : (n start k : ℕ) → start < n → 0 < k → k < n → (start + k) % n ≢ start
apart n start k a b c e = elim (places n start k) [
  | inl h ↦ absurd (omega (arith, sym (mod-eq_of_lt h) ∙ e, b))
  | inr h ↦
      (let l : start + k - n < n = omega (arith, a, c) in
        absurd (omega (arith, sym (mod-eq_of_lt l) ∙ sym (mod-eq-sub-mod h) ∙ e, c, h)))
]
  where
    places : (n start k : ℕ) → (start + k < n) ⊎ (n ≤ start + k)
    places n start k = ground arith

-- Writing to the place behind the characters leaves them.
pub Holds-update :
    (n : ℕ) (cs : List ℕ) (start i v : ℕ) (buff : ℕ → ℕ)
    → start < n
    → (start + length cs) % n ≡ i
    → length cs < n
    → Holds n cs start buff
    → Holds n cs start (update buff i v)
Holds-update n [] start i v buff s e f h = tt
Holds-update n (c ∷ cs) start i v buff s e f (p, h) = (
  rw (other start i (λ g. apart n start (suc (length cs)) s (omega arith) f (e ∙ sym g))) p,
  Holds-update n cs ((start + 1) % n) i v buff (mod-lt (start + 1) (omega (arith, s)))
      (next_start n start (length cs) ∙ e) (omega (arith, f)) h,
)
  where
    other : (a b : ℕ) → a ≢ b → (a == b) ≡ false
    other a b h = ground (arith, h)

-- What is written behind the characters joins them.
pub Holds-append :
    (n : ℕ) (cs : List ℕ) (start v : ℕ) (buff : ℕ → ℕ)
    → start < n
    → Holds n cs start buff
    → buff ((start + length cs) % n) ≡ v
    → Holds n (cs ++ v ∷ []) start buff
Holds-append n [] start v buff s h e = (ap buff (sym (same_start n start s)) ∙ e, tt)
Holds-append n (c ∷ cs) start v buff s (p, h) e = (
  p,
  Holds-append n cs ((start + 1) % n) v buff (mod-lt (start + 1) (omega (arith, s))) h
      (ap buff (next_start n start (length cs)) ∙ e),
)
