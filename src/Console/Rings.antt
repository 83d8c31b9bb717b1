-- ===== src/Console/Rings.antt =====
-- The ring of consoles, which opening and closing rewrite.
use pso.Base.{
  ℕ, ◌≡◌, ◌≢◌, refl, ap, ◌∙◌, List, [], ◌∷◌, ◌==◌, if◌then◌else◌, ltb, false, has, Distinct, arith,
}
use pso.Ring.{Ring}
use pso.Ring.Splice.{Ring-insert, Ring-remove, Links-last, has-last}
use pso.Mm.{Mm}
use pso.Console.{Console, Terminal, move_to_right_console, move_to_empty_console}
use pso.Console.Lifecycle.{link_console, con_open, unlink_console, con_flush}

-- The consoles `a ∷ xs` stand in a ring; none is the null pointer.
pub record IsRing (consoles : ℕ → Console) (a : ℕ) (xs : List ℕ) : Type 0 where
  pub links : Ring (λ p. (consoles p).next) (λ p. (consoles p).prev) a xs
  pub distinct : Distinct (a ∷ xs)
  pub not_null : has 0 (a ∷ xs) ≡ false

-- What `con_open` does to the links, with a current console other than the new one.
module _ (this : ℕ) (t : Terminal) (n : t.current_console ≢ 0) (d : this ≢ t.current_console)
    (x : (t.consoles t.current_console).next ≢ this) where
  next_old :
      (b : ℕ)
      → b ≢ t.current_console
      → b ≢ this
      → ((con_open this t).consoles b).next ≡ (t.consoles b).next
  unfolding con_open link_console
  next_old b y z = ground (arith, n, d, y, z)

  prev_old :
      (b : ℕ)
      → b ≢ (t.consoles t.current_console).next
      → b ≢ this
      → ((con_open this t).consoles b).prev ≡ (t.consoles b).prev
  unfolding con_open link_console
  prev_old b y z = ground (arith, n, d, y, z)

  next_cur : ((con_open this t).consoles t.current_console).next ≡ this
  unfolding con_open link_console
  next_cur = ground (arith, n, d)

  prev_this : ((con_open this t).consoles this).prev ≡ t.current_console
  unfolding con_open link_console
  prev_this = ground (arith, n, d, x)

  next_this : ((con_open this t).consoles this).next ≡ (t.consoles t.current_console).next
  unfolding con_open link_console
  next_this = ground (arith, n, d, x)

  prev_next : ((con_open this t).consoles (t.consoles t.current_console).next).prev ≡ this
  unfolding con_open link_console
  prev_next = ground (arith, n, d, x)

current_null : (a : ℕ) (xs : List ℕ) → has 0 (a ∷ xs) ≡ false → a ≢ 0
current_null a xs h e = ground (arith, h, e)

opened : (this : ℕ) (t : Terminal) → (con_open this t).current_console ≡ this
unfolding con_open
opened this t = refl

alone :
    (this : ℕ) (t : Terminal)
    → this ≢ 0
    → t.current_console ≡ 0
    → (((con_open this t).consoles this).next ≡ this)
      × (((con_open this t).consoles this).prev ≡ this)
unfolding con_open link_console
alone this t n e = (ground (arith, n, e), ground (arith, n, e))

next_in :
    (next prev : ℕ → ℕ) (a v : ℕ) (xs : List ℕ)
    → Ring next prev a xs
    → has v (a ∷ xs) ≡ false
    → next a ≢ v
next_in next prev a v [] (p, q) h e = ground (arith, p, h, e)
next_in next prev a v (x ∷ xs) (p, q, r) h e = ground (arith, p, h, e)

-- A console that is opened without a current one is alone.
con_open-IsRing_alone :
    (this : ℕ) (t : Terminal)
    → this ≢ 0
    → t.current_console ≡ 0
    → IsRing (con_open this t).consoles this []
con_open-IsRing_alone this t z e = record {
  links = alone this t z e;
  distinct = (refl, tt);
  not_null = ground (arith, z);
}

-- A console that is opened while another one is current is the current one then; it stands right
-- behind the one that was, and the others follow in the order that they had.
pub con_open-IsRing :
    (this : ℕ) (t : Terminal) (xs : List ℕ)
    → this ≢ 0
    → IsRing t.consoles t.current_console xs
    → has this (t.current_console ∷ xs) ≡ false
    → ((con_open this t).current_console ≡ this)
      × IsRing (con_open this t).consoles t.current_console (this ∷ xs)
con_open-IsRing this t xs z r o =
    let n = current_null t.current_console xs r.not_null in
    let d : this ≢ t.current_console = λ e. ground (arith, o, e) in
    let x = next_in _ _ t.current_console this xs r.links o in
    (
      opened this t,
      record {
        links =
            Ring-insert t.current_console xs this r.distinct o (next_old this t n d x)
              (prev_old this t n d x) (next_cur this t n d x) (prev_this this t n d x)
              (next_this this t n d x) (prev_next this t n d x) r.links;
        distinct = ground (arith, o, r.distinct);
        not_null = ground (arith, z, r.not_null);
      },
    )

-- What `con_flush` does to the links, when other consoles are left.
module _ (this : ℕ) (t : Terminal) (m : Mm) (n : this ≢ 0)
    (r : ltb 1 (t.consoles this).refcount ≡ false) (x : (t.consoles this).next ≢ this) where
  next_kept :
      (b : ℕ)
      → b ≢ this
      → b ≢ (t.consoles this).prev
      → ((con_flush this t m).0.consoles b).next ≡ (t.consoles b).next
  unfolding con_flush unlink_console move_to_right_console move_to_empty_console
  next_kept b y z = ground (arith, n, r, x, y, z)

  prev_kept :
      (b : ℕ)
      → b ≢ this
      → b ≢ (t.consoles this).next
      → ((con_flush this t m).0.consoles b).prev ≡ (t.consoles b).prev
  unfolding con_flush unlink_console move_to_right_console move_to_empty_console
  prev_kept b y z = ground (arith, n, r, x, y, z)

  next_closed :
      (t.consoles this).prev ≢ this
      → ((con_flush this t m).0.consoles (t.consoles this).prev).next ≡ (t.consoles this).next
  unfolding con_flush unlink_console move_to_right_console move_to_empty_console
  next_closed y = ground (arith, n, r, x, y)

  prev_closed :
      (t.consoles this).prev ≢ this
      → ((con_flush this t m).0.consoles (t.consoles this).next).prev ≡ (t.consoles this).prev
  unfolding con_flush unlink_console move_to_right_console move_to_empty_console
  prev_closed y = ground (arith, n, r, x, y)

  current_after :
      (con_flush this t m).0.current_console
      ≡ (if t.current_console == this then (t.consoles this).next else t.current_console)
  unfolding con_flush unlink_console move_to_right_console move_to_empty_console
  current_after = ground (arith, n, r, x)

prev_in :
    (next prev : ℕ → ℕ) (a x : ℕ) (xs : List ℕ)
    → Ring next prev a (x ∷ xs)
    → has a (x ∷ xs) ≡ false
    → prev a ≢ a
prev_in next prev a x xs (p, q, r) h e =
    ground (arith, (Links-last next prev x xs a r).1, has-last x xs, h, e)

-- A console that is closed by its last user, with other consoles open, goes out of the ring: the
-- others keep their order, and if it was the current one, the console behind it is that now.
pub con_flush-IsRing :
    (this x : ℕ) (xs : List ℕ) (t : Terminal) (m : Mm)
    → IsRing t.consoles this (x ∷ xs)
    → ltb 1 (t.consoles this).refcount ≡ false
    → IsRing (con_flush this t m).0.consoles x xs
      × ((con_flush this t m).0.current_console
          ≡ (if t.current_console == this then x else t.current_console))
con_flush-IsRing this x xs t m r e =
    let n = current_null this (x ∷ xs) r.not_null in
    let nx = r.links.0 in
    let d : (t.consoles this).next ≢ this = λ g. ground (arith, r.distinct.0, nx, g) in
    let p = prev_in _ _ this x xs r.links r.distinct.0 in
    (
      record {
        links =
            Ring-remove this x xs r.distinct (next_kept this t m n e d) (prev_kept this t m n e d)
              (next_closed this t m n e d p) (prev_closed this t m n e d p) r.links;
        distinct = r.distinct.1;
        not_null = ground (arith, r.not_null);
      },
      current_after this t m n e d
          ∙ ap (λ k. if t.current_console == this then k else t.current_console) nx,
    )
