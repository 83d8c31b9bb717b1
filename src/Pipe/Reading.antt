-- ===== src/Pipe/Reading.antt =====
-- Reading from a pipe.
use pso.Base.{
  ℕ, ◌+◌, ◌-◌, ◌%◌, ◌^◌, ◌≤◌, ◌<◌, ◌≡◌, inl, inr, refl, sym, ap, ◌∙◌, subst, List, [], ◌∷◌, ◌++◌,
  length, length-append, some, ◌==◌, not, Bool-cases, split_at, ◌⊎◌, ◌≢◌, ltb, leb, if◌then◌else◌,
  ==_ne, true, false, arith,
}
use pso.Circular.{Holds, next_start, same_start}
use pso.Loader.{Loader}
use pso.Pipe.{PipePage, read_amount, read_bytes, read_rest}
use pso.Pipe.Queue.{IsPipe, IsPipe-woken}

-- The loop gives the first of the bytes, and leaves the others in the buffer.
read_bytes_lem :
    (cs ds : List ℕ) (start : ℕ) (buff : ℕ → ℕ)
    → start < 3072
    → Holds 3072 (cs ++ ds) start buff
    → (read_bytes (length cs) start 3072 buff ≡ (cs, (start + length cs) % 3072))
      × Holds 3072 ds ((start + length cs) % 3072) buff
unfolding read_bytes
read_bytes_lem [] ds start buff s h =
    let e = sym (same_start 3072 start s) in
    (ap (λ k. ([], k)) e, subst (λ k. Holds 3072 ds k buff) e h)
read_bytes_lem (c ∷ cs) ds start buff s (p, h) =
    let (e, rest) = read_bytes_lem cs ds ((start + 1) % 3072) buff (omega arith) h in
    let n = next_start 3072 start (length cs) in
    (rw (e, p) refl ∙ ap (λ k. (c ∷ cs, k)) n, subst (λ k. Holds 3072 ds k buff) n rest)

-- The pipe behind a read, before it wakes anyone.
abbrev taken : ℕ → ℕ → PipePage → PipePage
taken total cursor p = record p {
  read_pipe = record p.read_pipe {
    cursor = cursor;
    buffer_cant = (p.read_pipe.buffer_cant + 2 ^ 32 - total) % 2 ^ 32;
  };
  write_pipe = record p.write_pipe {
    buffer_cant = (p.write_pipe.buffer_cant + 2 ^ 32 - total) % 2 ^ 32;
  };
}

taken-IsPipe :
    (p : PipePage) (cs ds : List ℕ)
    → IsPipe p (cs ++ ds)
    → IsPipe (taken (length cs) ((p.read_pipe.cursor + length cs) % 3072) p) ds
taken-IsPipe p cs ds b =
    let n = length-append cs ds in
    record {
      read_size = b.read_size;
      write_size = b.write_size;
      holds = (read_bytes_lem cs ds p.read_pipe.cursor p.buffer b.start_ok b.holds).1;
      fits = omega (arith, b.fits, n);
      read_count = omega (arith, b.read_count, b.fits, n);
      write_count = omega (arith, b.write_count, b.fits, n);
      start_ok = omega arith;
      end_at = omega (arith, b.end_at, n);
    }

-- Reading as many bytes as `cs` has gives `cs`, and leaves the bytes behind them.
read_rest-IsPipe :
    (p : PipePage) (l : Loader) (cs ds : List ℕ)
    → IsPipe p (cs ++ ds)
    → ((read_rest (length cs) p l).0 ≡ cs) × IsPipe (read_rest (length cs) p l).1.0 ds
unfolding read_rest
read_rest-IsPipe p l cs ds b =
    let e =
      ap (λ n. read_bytes (length cs) p.read_pipe.cursor n p.buffer) b.read_size
      ∙ (read_bytes_lem cs ds p.read_pipe.cursor p.buffer b.start_ok b.holds).0 in
    let q = taken-IsPipe p cs ds b in
    elim (Bool-cases (not (p.write_pipe.busy == 0))) [
      | inl g ↦ rw (e, g) (refl, IsPipe-woken _ ds _ _ _ _ q)
      | inr g ↦ rw (e, g) (refl, IsPipe-woken _ ds _ _ _ _ q)
    ]

-- How many bytes there are to take: as many as asked for, or all when there are fewer.
abbrev pub least : ℕ → ℕ → ℕ
least size n = if ltb n size then n else size

amount_lem :
    (size n : ℕ) (p : PipePage)
    → p.read_pipe.buffer_cant ≡ n
    → (size ≤ n) ⊎ (p.write_pipe.busy ≢ 0)
    → read_amount size p ≡ some (least size n)
unfolding read_amount
amount_lem size n p e (inl h) = ground (arith, e, h)
amount_lem size n p e (inr h) = elim (Bool-cases (leb size p.read_pipe.buffer_cant)) [
  | inl g ↦ rw g (ap some (all size p.read_pipe.buffer_cant n e g))
  | inr g ↦
      rw (g, ==_ne p.write_pipe.busy 0 h)
        (ap some (e ∙ sym (rest size p.read_pipe.buffer_cant n e g)))
]
  where
    all : (size c n : ℕ) → c ≡ n → leb size c ≡ true → size ≡ least size n
    all size c n e g = ground (arith, e, g)

    rest : (size c n : ℕ) → c ≡ n → leb size c ≡ false → least size n ≡ n
    rest size c n e g = ground (arith, e, g)

least-le : (size n : ℕ) → least size n ≤ n
least-le size n = ground arith

-- A read need not wait when the pipe holds as many bytes as it asks for, or a writer waits. Then it
-- takes the oldest bytes of the pipe, in their order: as many as asked for, or all when there are
-- fewer; the pipe keeps the others.
pub read_rest-oldest :
    (size : ℕ) (p : PipePage) (l : Loader) (cs : List ℕ)
    → IsPipe p cs
    → (size ≤ length cs) ⊎ (p.write_pipe.busy ≢ 0)
    → (front : List ℕ) × (back : List ℕ) × (cs ≡ front ++ back)
      × (length front ≡ (if ltb (length cs) size then length cs else size))
      × (read_amount size p ≡ some (length front))
      × ((read_rest (length front) p l).0 ≡ front)
      × IsPipe (read_rest (length front) p l).1.0 back
read_rest-oldest size p l cs b w =
    let n = least size (length cs) in
    let (front, back, (g, h)) = split_at n cs (least-le size (length cs)) in
    let (r, q) = read_rest-IsPipe p l front back (subst (IsPipe p) g b) in
    (front, back, g, h, amount_lem size (length cs) p b.read_count w ∙ ap some (sym h), r, q)
