-- ===== src/Serial/Reading.antt =====
-- Reading from the serial port.
use mathlib.Core.List.{append-nil}
use pso.Base.{
  ℕ, zero, suc, ◌+◌, ◌≤◌, ◌<◌, ◌≡◌, ◌⊎◌, inl, inr, refl, sym, ap, ◌∙◌, subst, List, [], ◌∷◌, ◌++◌,
  length, length-append, some, update, ◌==◌, ltb, not, ◌&&◌, Bool-cases, true, false, add32,
  split_at, arith,
}
use pso.Serial.{Serial, drop_byte, read_loop, serial_read}
use pso.Serial.Queue.{IsQueue, drop_byte-IsQueue}

-- The bytes `cs` in the caller's buffer from `i` on, and no other cell changed.
abbrev pub stored : ℕ → List ℕ → (ℕ → ℕ) → ℕ → ℕ
stored i [] buff = buff
stored i (c ∷ cs) buff = stored (i + 1) cs (update buff i c)

-- With bytes left in the queue, the positions differ.
apart :
    (s : Serial) (c : ℕ) (cs : List ℕ)
    → IsQueue s (c ∷ cs)
    → (s.serial_buf_pos == s.serial_buf_end) ≡ false
apart s c cs q = ground (arith, q.fits, q.start_ok, q.end_at)

together : (s : Serial) → IsQueue s [] → (s.serial_buf_pos == s.serial_buf_end) ≡ true
together s q = ground (arith, q.start_ok, q.end_at)

-- Whether the loop goes on behind a byte.
stops :
    (i size : ℕ) (s : Serial) (ds : List ℕ)
    → IsQueue s ds
    → i + 1 ≤ size
    → size ≤ 64
    → (ds ≡ []) ⊎ (i + 1 ≡ size)
    → (ltb (add32 i 1) size && not (s.serial_buf_pos == s.serial_buf_end)) ≡ false
stops i size s ds q l m (inl e) = let t = together s (subst (IsQueue s) e q) in ground (arith, t)
stops i size s ds q l m (inr e) = ground (arith, e)

goes_on :
    (i size : ℕ) (s : Serial) (c : ℕ) (ds : List ℕ)
    → IsQueue s (c ∷ ds)
    → i + 2 ≤ size
    → size ≤ 64
    → (ltb (add32 i 1) size && not (s.serial_buf_pos == s.serial_buf_end)) ≡ true
goes_on i size s c ds q l m = let t = apart s c ds q in ground (arith, t)

next_index : (i : ℕ) → i ≤ 64 → add32 i 1 ≡ i + 1
next_index i l = omega arith

-- Whether a byte of the queue comes last: nothing is left, or as much is read as was asked for.
shift :
    (i n size : ℕ) (ds : List ℕ)
    → (ds ≡ []) ⊎ (i + suc (suc n) ≡ size)
    → (ds ≡ []) ⊎ (i + 1 + suc n ≡ size)
shift i n size ds (inl e) = inl e
shift i n size ds (inr e) = inr (omega (arith, e))

read_loop_lem :
    (fuel i size : ℕ) (buff : ℕ → ℕ) (s : Serial) (c : ℕ) (cs ds : List ℕ)
    → IsQueue s (c ∷ (cs ++ ds))
    → length cs < fuel
    → i + suc (length cs) ≤ size
    → size ≤ 64
    → (ds ≡ []) ⊎ (i + suc (length cs) ≡ size)
    → (s' : Serial) × ((read_loop fuel i size buff s
          ≡ (i + suc (length cs), (stored i (c ∷ cs) buff, s')))
        × IsQueue s' ds)
unfolding read_loop
read_loop_lem (suc fuel) i size buff s c [] ds q f l m d =
    let q' = drop_byte-IsQueue c s ds q in
    (
      drop_byte s,
      (
        rw (stops i size (drop_byte s) ds q' l m d, next_index i (omega (arith, l, m)), q.holds.0)
            refl,
        q',
      ),
    )
read_loop_lem (suc fuel) i size buff s c (c' ∷ cs) ds q f l m d =
    let q' = drop_byte-IsQueue c s (c' ∷ (cs ++ ds)) q in
    let (s', (e, r)) =
      read_loop_lem fuel (i + 1) size (update buff i c) (drop_byte s) c' cs ds q' (omega (arith, f))
        (omega (arith, l)) m (shift i (length cs) size ds d) in
    (
      s',
      (
        rw
            (
              goes_on i size (drop_byte s) c' (cs ++ ds) q' (omega (arith, l)) m,
              next_index i (omega (arith, l, m)),
              q.holds.0,
            )
            (e ∙ ap (λ n. (n, (stored i (c ∷ (c' ∷ cs)) buff, s'))) (omega arith)),
        r,
      ),
    )
read_loop_lem zero i size buff s c cs ds q f l m d = absurd (omega (arith, f))

-- What a read of `size` bytes leaves: it returns how many bytes it took, the oldest ones of the queue,
-- as many as asked for or all; they stand at the beginning of the caller's buffer, of which nothing
-- else changes, and the queue keeps the others.
pub record IsOldest (size : ℕ) (buff : ℕ → ℕ) (s : Serial) (cs : List ℕ) : Type 0 where
  pub front : List ℕ
  pub back : List ℕ
  pub behind : Serial
  pub split : cs ≡ front ++ back
  pub returns : serial_read 0 size buff s ≡ some (length front, (stored 0 front buff, behind))
  pub queue : IsQueue behind back
  pub bound : length front ≤ size
  pub enough : (back ≡ []) ⊎ (length front ≡ size)

small : (size : ℕ) → size ≤ 64 → ltb 64 size ≡ false
small size m = ground (arith, m)

read_front :
    (size : ℕ) (buff : ℕ → ℕ) (s : Serial) (front back : List ℕ)
    → IsQueue s (front ++ back)
    → 0 < length front
    → length front ≤ size
    → size ≤ 64
    → (back ≡ []) ⊎ (length front ≡ size)
    → IsOldest size buff s (front ++ back)
unfolding serial_read
read_front size buff s [] back q z l m d = absurd (omega (arith, z))
read_front size buff s (c ∷ cs) back q z l m d =
    let n = length-append cs back in
    let z' : 0 + suc (length cs) ≡ suc (length cs) = omega arith in
    let (s', (e, r)) =
      read_loop_lem 64 0 size buff s c cs back q (omega (arith, q.fits, n)) (omega (arith, l)) m
        (subst (λ k. (back ≡ []) ⊎ (k ≡ size)) (sym z') d) in
    record {
      front = c ∷ cs;
      back = back;
      behind = s';
      split = refl;
      returns = rw (small size m) (ap some (e ∙ ap (λ k. (k, (stored 0 (c ∷ cs) buff, s'))) z'));
      queue = r;
      bound = l;
      enough = d;
    }

-- A read of at least one and at most 64 bytes from a buffer that is not empty ends, and takes the
-- oldest bytes in their order: as many as it asks for, or all when there are fewer. It returns their
-- number, writes them to the beginning of the caller's buffer and nothing else, and leaves the queue
-- of the others. The count that the source never sets is taken to be 0.
pub serial_read-IsOldest :
    (size : ℕ) (buff : ℕ → ℕ) (s : Serial) (cs : List ℕ)
    → IsQueue s cs
    → 0 < length cs
    → 0 < size
    → size ≤ 64
    → IsOldest size buff s cs
serial_read-IsOldest size buff s cs q z p m = elim (Bool-cases (ltb (length cs) size)) [
  | inl e ↦ subst (IsOldest size buff s) (append-nil cs) (
      read_front size buff s cs [] (subst (IsQueue s) (sym (append-nil cs)) q) z (ground (arith, e))
        m (inl refl))
  | inr e ↦
      (let (front, back, (g, h)) = split_at size cs (ground (arith, e)) in
        subst (IsOldest size buff s) (sym g) (
          read_front size buff s front back (subst (IsQueue s) g q) (omega (arith, h, p))
            (omega (arith, h)) m (inr h)))
]
