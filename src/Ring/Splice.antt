-- ===== src/Ring/Splice.antt =====
-- What the pointer writes of the kernel do to a linked list: insertion behind the first element,
-- insertion at the end, and removal of the first element. Each lemma speaks of two pairs of link
-- functions, before and after, that agree away from the elements that are rewritten.
use pso.Base.{ℕ, ◌≡◌, ◌≢◌, refl, ◌∙◌, true, false, List, [], ◌∷◌, ◌++◌, arith, has, Distinct}
use pso.Ring.{last, Links, Ring}

pub has-last : (a : ℕ) (xs : List ℕ) → has (last a xs) (a ∷ xs) ≡ true
has-last a [] = ground arith
has-last a (x ∷ xs) = ground (arith, has-last x xs)

pub last-append : (a : ℕ) (xs : List ℕ) (v : ℕ) → last a (xs ++ (v ∷ [])) ≡ v
last-append a [] v = refl
last-append a (x ∷ xs) v = last-append x xs v

ne-last : (a x : ℕ) (xs : List ℕ) → has a (x ∷ xs) ≡ false → a ≢ last x xs
ne-last a x xs h e = ground (arith, has-last x xs)

-- The last link of a list.
pub Links-last :
    (next prev : ℕ → ℕ) (a : ℕ) (xs : List ℕ) (z : ℕ)
    → Links next prev a xs z
    → (next (last a xs) ≡ z) × (prev z ≡ last a xs)
Links-last next prev a [] z h = h
Links-last next prev a (x ∷ xs) z (n, p, r) = Links-last next prev x xs z r

module _ {next prev next' prev' : ℕ → ℕ} where
  -- The links stay where the fields that they read stay.
  pub Links-frame :
      (a : ℕ) (xs : List ℕ) (z : ℕ)
      → ((b : ℕ) → has b (a ∷ xs) ≡ true → next' b ≡ next b)
      → ((b : ℕ) → has b xs ≡ true → prev' b ≡ prev b)
      → prev' z ≡ prev z
      → Links next prev a xs z
      → Links next' prev' a xs z
  Links-frame a [] z hn hp hz (n, p) = (ground (arith, hn a), hz ∙ p)
  Links-frame a (x ∷ xs) z hn hp hz (n, p, r) = (
    ground (arith, hn a),
    ground (arith, hp x),
    Links-frame x xs z (λ b h. ground (arith, hn b)) (λ b h. ground (arith, hp b)) hz r,
  )

  -- The same up to the last link, which now leads to `w`.
  pub Links-retarget :
      (a : ℕ) (xs : List ℕ) (z w : ℕ)
      → Distinct (a ∷ xs)
      → ((b : ℕ) → has b (a ∷ xs) ≡ true → b ≢ last a xs → next' b ≡ next b)
      → ((b : ℕ) → has b xs ≡ true → prev' b ≡ prev b)
      → next' (last a xs) ≡ w
      → prev' w ≡ last a xs
      → Links next prev a xs z
      → Links next' prev' a xs w
  Links-retarget a [] z w d hn hp e f (n, p) = (e, f)
  Links-retarget a (x ∷ xs) z w (out, d) hn hp e f (n, p, r) = (
    ground (arith, hn a, ne-last a x xs out),
    ground (arith, hp x),
    Links-retarget x xs z w d (λ b h ne. ground (arith, hn b)) (λ b h. ground (arith, hp b)) e f r,
  )

  -- One more element at the end.
  pub Links-snoc :
      (a : ℕ) (xs : List ℕ) (z v w : ℕ)
      → Distinct (a ∷ xs)
      → ((b : ℕ) → has b (a ∷ xs) ≡ true → b ≢ last a xs → next' b ≡ next b)
      → ((b : ℕ) → has b xs ≡ true → prev' b ≡ prev b)
      → next' (last a xs) ≡ v
      → prev' v ≡ last a xs
      → next' v ≡ w
      → prev' w ≡ v
      → Links next prev a xs z
      → Links next' prev' a (xs ++ (v ∷ [])) w
  Links-snoc a [] z v w d hn hp e f g k (n, p) = (e, f, (g, k))
  Links-snoc a (x ∷ xs) z v w (out, d) hn hp e f g k (n, p, r) = (
    ground (arith, hn a, ne-last a x xs out),
    ground (arith, hp x),
    Links-snoc x xs z v w d (λ b h ne. ground (arith, hn b)) (λ b h. ground (arith, hp b)) e f g k
        r,
  )

  -- `v` comes in right behind the first element.
  pub Ring-insert :
      (a : ℕ) (xs : List ℕ) (v : ℕ)
      → Distinct (a ∷ xs)
      → has v (a ∷ xs) ≡ false
      → ((b : ℕ) → b ≢ a → b ≢ v → next' b ≡ next b)
      → ((b : ℕ) → b ≢ next a → b ≢ v → prev' b ≡ prev b)
      → next' a ≡ v
      → prev' v ≡ a
      → next' v ≡ next a
      → prev' (next a) ≡ v
      → Ring next prev a xs
      → Ring next' prev' a (v ∷ xs)
  Ring-insert a [] v d out hn hp e f g k (n, p) = (e, f, (g ∙ n, ground arith))
  Ring-insert a (x ∷ xs) v d out hn hp e f g k (n, p, r) = (
    e,
    f,
    (
      g ∙ n,
      ground arith,
      Links-frame x xs a (λ b h. ground (arith, hn b)) (λ b h. ground (arith, hp b))
          (ground (arith, hp a)) r,
    ),
  )

  -- The first element `a` goes out, and the rest closes on `x`.
  pub Ring-remove :
      (a x : ℕ) (xs : List ℕ)
      → Distinct (a ∷ x ∷ xs)
      → ((b : ℕ) → b ≢ a → b ≢ prev a → next' b ≡ next b)
      → ((b : ℕ) → b ≢ a → b ≢ next a → prev' b ≡ prev b)
      → next' (prev a) ≡ next a
      → prev' (next a) ≡ prev a
      → Ring next prev a (x ∷ xs)
      → Ring next' prev' x xs
  Ring-remove a x xs (out, d) hn hp e f (n, p, r) =
      let (_, q) = Links-last next prev x xs a r in
      Links-retarget x xs a x d (λ b h ne. ground (arith, hn b)) (λ b h. ground (arith, hp b))
        (ground arith) (ground arith) r

  -- `v` comes in at the end.
  pub Ring-push :
      (a : ℕ) (xs : List ℕ) (v : ℕ)
      → Distinct (a ∷ xs)
      → has v (a ∷ xs) ≡ false
      → ((b : ℕ) → b ≢ v → b ≢ prev a → next' b ≡ next b)
      → ((b : ℕ) → b ≢ v → b ≢ a → prev' b ≡ prev b)
      → next' (prev a) ≡ v
      → prev' v ≡ prev a
      → next' v ≡ a
      → prev' a ≡ v
      → Ring next prev a xs
      → Ring next' prev' a (xs ++ (v ∷ []))
  Ring-push a xs v d out hn hp e f g k r =
      let (_, q) = Links-last next prev a xs a r in
      Links-snoc a xs a v a d (λ b h ne. ground (arith, hn b)) (λ b h. ground (arith, hp b))
        (ground arith) (ground arith) g k r

-- One step more along the links that are there.
pub Links-turn :
    (next prev : ℕ → ℕ) (a : ℕ) (xs : List ℕ) (z w : ℕ)
    → Links next prev a xs z
    → next z ≡ w
    → prev w ≡ z
    → Links next prev a (xs ++ (z ∷ [])) w
Links-turn next prev a [] z w (n, p) e f = (n, p, (e, f))
Links-turn next prev a (x ∷ xs) z w (n, p, r) e f = (n, p, Links-turn next prev x xs z w r e f)
