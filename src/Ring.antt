-- ===== src/Ring.antt =====
-- Circular doubly linked lists, as the kernel threads them through its tables: a table holds the
-- `next` and `prev` index of each element, and the elements of one list are a list of indices.
-- The scheduler's run queue, the wait queues of the semaphores and the consoles are such lists.
pub mod Splice
use pso.Base.{ℕ, ◌≡◌, List, [], ◌∷◌}

-- The last element of `a ∷ xs`.
abbrev pub last : ℕ → List ℕ → ℕ
last a [] = a
last a (x ∷ xs) = last x xs

module _ (next prev : ℕ → ℕ) where
  -- From `a` through `xs` to `z`, with every step linked both ways.
  abbrev pub Links : ℕ → List ℕ → ℕ → Type 0
  Links a [] z = (next a ≡ z) × (prev z ≡ a)
  Links a (x ∷ xs) z = (next a ≡ x) × (prev x ≡ a) × Links x xs z

  -- The list closes on its first element.
  abbrev pub Ring : ℕ → List ℕ → Type 0
  Ring a xs = Links a xs a
