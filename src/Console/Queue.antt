-- ===== src/Console/Queue.antt =====
-- The key buffer of a console as a queue of characters: what `console_keyPressed` puts in,
-- `con_read` takes out in the same order.
use pso.Base.{
  ℕ, ◌+◌, ◌%◌, ◌≤◌, ◌<◌, ◌≡◌, refl, sym, ap, ◌∙◌, subst, List, [], ◌∷◌, ◌++◌, length, length-append,
  Option, none, some, update, if◌then◌else◌, ltb, leb, ◌==◌, Bool-cases, inl, inr, ◌⊎◌, not, ◌&&◌,
  arith,
}
use pso.Circular.{Holds, Holds-update, Holds-append, next_start}
use pso.Loader.{Loader}
use pso.Console.{
  Console, con_read_request, wake_reader, put_char, take_char, read_loop, con_read_rest,
}

-- The buffer of `c` holds the unread characters `cs`, oldest first.
pub record IsBuffer (c : Console) (cs : List ℕ) : Type 0 where
  pub holds : Holds 30 cs c.buff_index_start c.buff
  pub fits : length cs ≤ 30
  pub counted : c.buff_cant ≡ length cs
  pub start_ok : c.buff_index_start < 30
  pub end_at : c.buff_index_end ≡ (c.buff_index_start + length cs) % 30

-- Reading the first of the characters gives them, and leaves the rest in the ring.
read_loop_lem :
    (cs ds : List ℕ) (start : ℕ) (buff : ℕ → ℕ)
    → start < 30
    → Holds 30 (cs ++ ds) start buff
    → (read_loop (length cs) buff start ≡ (cs, (start + length cs) % 30))
      × Holds 30 ds ((start + length cs) % 30) buff
unfolding read_loop
read_loop_lem [] ds start buff s h =
    (ap (λ k. ([], k)) (omega (arith, s)), subst (λ k. Holds 30 ds k buff) (omega (arith, s)) h)
read_loop_lem (c ∷ cs) ds start buff s (p, h) =
    let (e, rest) = read_loop_lem cs ds ((start + 1) % 30) buff (omega arith) h in
    (
      (rw (e, p) refl) ∙ ap (λ k. (c ∷ cs, k)) (next_start 30 start (length cs)),
      subst (λ k. Holds 30 ds k buff) (next_start 30 start (length cs)) rest,
    )

put_char-IsBuffer :
    (ch : ℕ) (c : Console) (cs : List ℕ)
    → IsBuffer c cs
    → length cs < 30
    → IsBuffer (put_char ch c) (cs ++ ch ∷ [])
unfolding put_char
put_char-IsBuffer ch c cs b f = record {
  holds =
      Holds-append 30 cs c.buff_index_start ch (update c.buff c.buff_index_end ch) b.start_ok
        (Holds-update 30 cs c.buff_index_start c.buff_index_end ch c.buff b.start_ok (sym b.end_at)
          f b.holds)
        (ground (arith, b.end_at));
  fits = omega (arith, length-append cs (ch ∷ []), f);
  counted = omega (arith, length-append cs (ch ∷ []), f, b.counted);
  start_ok = b.start_ok;
  end_at = omega (arith, length-append cs (ch ∷ []), b.end_at);
}

-- `wake_reader` and the two halves of a read touch no other part of the buffer.
IsBuffer-wake :
    (c : Console) (l : Loader) (cs : List ℕ) → IsBuffer c cs → IsBuffer (wake_reader c l).0 cs
unfolding wake_reader
IsBuffer-wake c l cs b = elim (Bool-cases (leb c.read_expected c.buff_cant && not (c.busy == 0))) [
  | inl e ↦ rw e record {
    holds = b.holds;
    fits = b.fits;
    counted = b.counted;
    start_ok = b.start_ok;
    end_at = b.end_at;
  }
  | inr e ↦ rw e b
]

-- A character that comes in joins the end of the queue of unread characters, unless it is 0 or the
-- queue holds 30 characters already: then the queue stays as it is.
pub take_char-IsBuffer :
    (ch : ℕ) (c : Console) (l : Loader) (cs : List ℕ)
    → IsBuffer c cs
    → IsBuffer
        (take_char ch c l).0
        (if not (ch == 0) && ltb (length cs) 30 then cs ++ ch ∷ [] else cs)
unfolding take_char
take_char-IsBuffer ch c l cs b =
    subst
      (λ n. IsBuffer (take_char ch c l).0 (if not (ch == 0) && ltb n 30 then cs ++ ch ∷ [] else cs))
      b.counted
      (elim (Bool-cases (not (ch == 0) && ltb c.buff_cant 30)) [
        | inl e ↦ rw e (
            IsBuffer-wake (put_char ch c) l (cs ++ ch ∷ [])
              (put_char-IsBuffer ch c cs b (ground (arith, e, b.counted))))
        | inr e ↦ rw e b
      ])

-- Once a read of some characters goes on, it returns the oldest unread characters in the order in
-- which they came in, and leaves the queue of the others.
pub con_read_rest-IsBuffer :
    (c : Console) (cs ds : List ℕ)
    → IsBuffer c (cs ++ ds)
    → ((con_read_rest (length cs) c).0 ≡ cs) × IsBuffer (con_read_rest (length cs) c).1 ds
unfolding con_read_rest
con_read_rest-IsBuffer c cs ds b =
    let (e, h) = read_loop_lem cs ds c.buff_index_start c.buff b.start_ok b.holds in
    let n = length-append cs ds in
    rw e (
      refl,
      record {
        holds = h;
        fits = omega (arith, b.fits, n);
        counted = omega (arith, b.counted, b.fits, n);
        start_ok = omega arith;
        end_at = omega (arith, b.end_at, n);
      },
    )

-- A reader waits only while there are too few characters for it.
abbrev pub IsAwake : Console → Type 0
IsAwake c = (c.busy ≡ 0) ⊎ (c.buff_cant < c.read_expected)

-- What a request of `size` characters leads to: an error when the buffer can never hold as many, and
-- a reader that is awake or rightly waits otherwise.
abbrev pub IsAnswered : ℕ → Option (Console × Loader) → Type 0
IsAnswered size none = 30 < size
IsAnswered size (some r) = IsAwake r.0 × (size ≤ 30)

wake_reader-IsAwake : (c : Console) (l : Loader) → IsAwake (wake_reader c l).0
unfolding wake_reader
wake_reader-IsAwake c l = elim (Bool-cases (leb c.read_expected c.buff_cant && not (c.busy == 0))) [
  | inl e ↦ rw e (inl refl)
  | inr e ↦ rw e (ground (arith, e))
]

-- No wake-up of a reader is lost when a character comes in: after it, a console has no reader marked
-- as waiting while its buffer holds as many characters as that reader asked for.
pub take_char-IsAwake :
    (ch : ℕ) (c : Console) (l : Loader) → IsAwake c → IsAwake (take_char ch c l).0
unfolding take_char
take_char-IsAwake ch c l w = elim (Bool-cases (not (ch == 0) && ltb c.buff_cant 30)) [
  | inl e ↦ rw e (wake_reader-IsAwake (put_char ch c) l)
  | inr e ↦ rw e w
]

-- A request to read is refused exactly when it asks for more than the 30 characters that the buffer
-- holds; otherwise it leaves no reader marked as waiting while there is enough for it.
pub con_read_request-IsAnswered :
    (size : ℕ) (c : Console) (l : Loader) → IsAwake c → IsAnswered size (con_read_request size c l)
unfolding con_read_request
con_read_request-IsAnswered size c l w = elim (Bool-cases (ltb 30 size)) [
  | inl e ↦ rw e (ground (arith, e))
  | inr e ↦ elim (Bool-cases (ltb c.buff_cant size)) [
    | inl f ↦ rw (e, f) (inr (ground (arith, f)), ground (arith, e))
    | inr f ↦ rw (e, f) (w, ground (arith, e))
  ]
]
