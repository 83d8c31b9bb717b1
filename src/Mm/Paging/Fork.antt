-- ===== src/Mm/Paging/Fork.antt =====
-- Forking a table of pages, and what the parent and the child find in it afterwards.
use pso.Base.{
  ℕ, zero, suc, ◌+◌, ◌<◌, ◌≡◌, ◌≢◌, refl, sym, ap, ◌∙◌, true, false, ◌&&◌, not, ◌==◌, if◌then◌else◌,
  leb, ltb, arith, Bool-cases, inl, inr, ==_refl, ==_ne,
}
use pso.Mm.{Entry, Mm}
use pso.Mm.Paging.{
  fork_entry, fork_loop, mm_page_fork, set_entry, is_present, is_shared, is_copy_on_write, rw_bit,
  cow_bit, with_bit,
}

-- One round's writes, seen in the parent's table and in the child's.
in_parent :
    (p c i k : ℕ) (e child : Entry) (m : Mm)
    → p ≢ c
    → (set_entry c i child (set_entry p i e m)).tables p k ≡ (if k == i then e else m.tables p k)
in_parent p c i k e child m d = rw (==_ne p c d, ==_refl p) refl

in_child :
    (p c i k : ℕ) (e child : Entry) (m : Mm)
    → p ≢ c
    → (set_entry c i child (set_entry p i e m)).tables c k
      ≡ (if k == i then child else m.tables c k)
in_child p c i k e child m d = rw (==_refl c, ==_ne c p (λ e. d (sym e))) refl

fork_loop_lem :
    (n i p c : ℕ) (m : Mm) (k : ℕ)
    → p ≢ c
    → ((fork_loop n i p c m).tables p k ≡ (
        if leb i k && ltb k (i + n)
        then (fork_entry (m.tables p k) (m.tables c k)).0
        else m.tables p k))
      × ((fork_loop n i p c m).tables c k ≡ (
          if leb i k && ltb k (i + n)
          then (fork_entry (m.tables p k) (m.tables c k)).1
          else m.tables c k))
unfolding fork_loop
fork_loop_lem zero i p c m k d = (ground arith, ground arith)
fork_loop_lem (suc n) i p c m k d =
    let (e, child) = fork_entry (m.tables p i) (m.tables c i) in
    let m₁ = set_entry c i child (set_entry p i e m) in
    let (a, b) = fork_loop_lem n (i + 1) p c m₁ k d in
    let q = in_parent p c i k e child m d in
    let r = in_child p c i k e child m d in (ground (arith, a, q, r), ground (arith, b, q, r))

pub in_fork :
    (n p c : ℕ) (m : Mm) (k : ℕ)
    → p ≢ c
    → k < n
    → ((fork_loop n 0 p c m).tables p k ≡ (fork_entry (m.tables p k) (m.tables c k)).0)
      × ((fork_loop n 0 p c m).tables c k ≡ (fork_entry (m.tables p k) (m.tables c k)).1)
in_fork n p c m k d b = ground (arith, fork_loop_lem n 0 p c m k d, b)

copied :
    (e child : Entry)
    → is_present e ≡ true
    → is_shared e ≡ false
    → fork_entry e child ≡ (
      with_bit rw_bit false (with_bit cow_bit true e),
      with_bit rw_bit false (with_bit cow_bit true e),
    )
copied e child q s = rw (q, s) refl

unchanged :
    (e child : Entry)
    → (is_present e && not (is_shared e)) ≡ false
    → fork_entry e child ≡ (e, if is_present e then e else child)
unchanged e child h = elim (Bool-cases (is_present e)) [
  | inl q ↦ elim (Bool-cases (is_shared e)) [
    | inl s ↦ rw (q, s) refl
    | inr s ↦ absurd (ground (arith, h, q, s))
  ]
  | inr q ↦ rw q refl
]

-- Forking a table with another page frame for the child leaves each present entry that is not shared
-- the same in the parent's table and in the child's: mapped to the frame it had, copied on write,
-- and not writable.
pub mm_page_fork-copied :
    (p c : ℕ) (m : Mm) (k : ℕ)
    → p ≢ c
    → k < 1024
    → is_present (m.tables p k) ≡ true
    → is_shared (m.tables p k) ≡ false
    → ((mm_page_fork p c m).tables p k ≡ (mm_page_fork p c m).tables c k)
      × (((mm_page_fork p c m).tables c k).base ≡ (m.tables p k).base)
      × (is_copy_on_write ((mm_page_fork p c m).tables c k) ≡ true)
      × (((mm_page_fork p c m).tables c k).attr rw_bit ≡ false)
unfolding mm_page_fork
mm_page_fork-copied p c m k d b q s =
    let (x, y) = in_fork 1024 p c m k d b in
    let x' = x ∙ ap (λ r. r.0) (copied (m.tables p k) (m.tables c k) q s) in
    let y' = y ∙ ap (λ r. r.1) (copied (m.tables p k) (m.tables c k) q s) in
    (x' ∙ sym y', ap (λ r. r.base) y', ap is_copy_on_write y', ap (λ r. r.attr rw_bit) y')

-- Forking leaves a shared entry, and one that is not present, as it is in the parent's table; the
-- child's has the shared entry too, and keeps its own where the parent's is not present.
pub mm_page_fork-kept :
    (p c : ℕ) (m : Mm) (k : ℕ)
    → p ≢ c
    → k < 1024
    → (is_present (m.tables p k) && not (is_shared (m.tables p k))) ≡ false
    → ((mm_page_fork p c m).tables p k ≡ m.tables p k)
      × ((mm_page_fork p c m).tables c k
          ≡ (if is_present (m.tables p k) then m.tables p k else m.tables c k))
unfolding mm_page_fork
mm_page_fork-kept p c m k d b h =
    let (x, y) = in_fork 1024 p c m k d b in
    let r = unchanged (m.tables p k) (m.tables c k) h in (x ∙ ap (λ r. r.0) r, y ∙ ap (λ r. r.1) r)
