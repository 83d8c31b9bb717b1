-- ===== src/Pipe/Queue.antt =====
-- A pipe as a queue of bytes: what is written comes out at the other end in the same order.
use mathlib.Core.List.{append_assoc, append-nil}
use pso.Base.{
  ℕ, ◌+◌, ◌%◌, ◌≤◌, ◌<◌, ◌≡◌, ◌⊎◌, inl, inr, refl, sym, ap, ◌∙◌, subst, List, [], ◌∷◌, ◌++◌, length,
  length-append, none, some, update, ◌==◌, not, Bool-cases, true, false, arith,
}
use pso.Circular.{Holds, Holds-update, Holds-append}
use pso.Sem.{Sem}
use pso.Mm.{Mm, mm_mem_kalloc}
use pso.Loader.{Loader}
use pso.Pipe.{
  PipePage, new_end, pipe_open, read_wait, write_wait, write_rest, write_byte, write_bytes,
}

-- The pipe holds the bytes `cs`, oldest first.
pub record IsPipe (p : PipePage) (cs : List ℕ) : Type 0 where
  pub read_size : p.read_pipe.buffer_size ≡ 3072
  pub write_size : p.write_pipe.buffer_size ≡ 3072
  pub holds : Holds 3072 cs p.read_pipe.cursor p.buffer
  pub fits : length cs ≤ 3072
  pub read_count : p.read_pipe.buffer_cant ≡ length cs
  pub write_count : p.write_pipe.buffer_cant ≡ length cs
  pub start_ok : p.read_pipe.cursor < 3072
  pub end_at : p.write_pipe.cursor ≡ (p.read_pipe.cursor + length cs) % 3072

-- The flags and the semaphores have no part in it.
pub IsPipe-woken :
    (p : PipePage) (cs : List ℕ) (b b' : ℕ) (s s' : Sem)
    → IsPipe p cs
    → IsPipe
        (record p {
          read_pipe = record p.read_pipe { busy = b; sem = s };
          write_pipe = record p.write_pipe { busy = b'; sem = s' };
        })
        cs
IsPipe-woken p cs b b' s s' h = record {
  read_size = h.read_size;
  write_size = h.write_size;
  holds = h.holds;
  fits = h.fits;
  read_count = h.read_count;
  write_count = h.write_count;
  start_ok = h.start_ok;
  end_at = h.end_at;
}

one_more : (cs : List ℕ) (c : ℕ) → length (cs ++ c ∷ []) ≡ length cs + 1
one_more cs c = length-append cs (c ∷ []) ∙ omega arith

write_byte-IsPipe :
    (c : ℕ) (p : PipePage) (cs : List ℕ)
    → IsPipe p cs
    → length cs < 3072
    → IsPipe (write_byte c p) (cs ++ c ∷ [])
unfolding write_byte
write_byte-IsPipe c p cs b f = record {
  read_size = b.read_size;
  write_size = b.write_size;
  holds =
      Holds-append 3072 cs p.read_pipe.cursor c (update p.buffer p.write_pipe.cursor c) b.start_ok
        (Holds-update 3072 cs p.read_pipe.cursor p.write_pipe.cursor c p.buffer b.start_ok
          (sym b.end_at) f b.holds)
        (ground (arith, b.end_at));
  fits = omega (arith, one_more cs c, f);
  read_count = omega (arith, one_more cs c, b.read_count, f);
  write_count = omega (arith, one_more cs c, b.write_count, f);
  start_ok = b.start_ok;
  end_at =
      ap (λ n. (p.write_pipe.cursor + 1) % n) b.write_size ∙ omega (arith, b.end_at, one_more cs c);
}

-- Bytes are written behind those that the pipe holds, in their order, until all are written or the
-- pipe is full; those that are left are the last of them.
pub write_bytes-IsPipe :
    (ds : List ℕ) (p : PipePage) (cs : List ℕ)
    → IsPipe p cs
    → (front : List ℕ) × (back : List ℕ) × ((ds ≡ front ++ back)
        × (((write_bytes ds p).0 ≡ back)
            × (IsPipe (write_bytes ds p).1 (cs ++ front)
                × ((back ≡ []) ⊎ (length (cs ++ front) ≡ 3072)))))
unfolding write_bytes
write_bytes-IsPipe [] p cs b =
    ([], [], (refl, (refl, (subst (IsPipe p) (sym (append-nil cs)) b, inl refl))))
write_bytes-IsPipe (d ∷ ds) p cs b =
    elim (Bool-cases (p.write_pipe.buffer_cant == p.write_pipe.buffer_size)) [
      | inl e ↦ rw e (
        [],
        d ∷ ds,
        (
          refl,
          (
            refl,
            (
              subst (IsPipe p) (sym (append-nil cs)) b,
              inr (ap length (append-nil cs) ∙ full (length cs) p b.write_count b.write_size e),
            ),
          ),
        ),
      )
      | inr e ↦
          (let f = space (length cs) p b.write_count b.write_size b.fits e in
            let (front, back, (g, (h, (i, j)))) =
              write_bytes-IsPipe ds (write_byte d p) (cs ++ d ∷ [])
                (write_byte-IsPipe d p cs b f) in
            let a = append_assoc cs (d ∷ []) front in
            rw e (
              d ∷ front,
              back,
              (
                ap (λ l. d ∷ l) g,
                (h, (subst (IsPipe _) a i, subst (λ l. (back ≡ []) ⊎ (length l ≡ 3072)) a j)),
              ),
            ))
    ]
  where
    full :
        (n : ℕ) (p : PipePage)
        → p.write_pipe.buffer_cant ≡ n
        → p.write_pipe.buffer_size ≡ 3072
        → (p.write_pipe.buffer_cant == p.write_pipe.buffer_size) ≡ true
        → n ≡ 3072
    full n p x y e = ground (arith, x, y, e)

    space :
        (n : ℕ) (p : PipePage)
        → p.write_pipe.buffer_cant ≡ n
        → p.write_pipe.buffer_size ≡ 3072
        → n ≤ 3072
        → (p.write_pipe.buffer_cant == p.write_pipe.buffer_size) ≡ false
        → n < 3072
    space n p x y l e = ground (arith, x, y, l, e)

-- A pipe that is opened is empty.
pipe_open-IsPipe :
    (buffer : ℕ → ℕ) (m : Mm)
    → ((pipe_open buffer m).0 ≡ none)
      ⊎ ((p : PipePage) × (((pipe_open buffer m).0 ≡ some p) × IsPipe p []))
unfolding pipe_open
pipe_open-IsPipe buffer m = elim (Bool-cases ((mm_mem_kalloc m).0 == 0)) [
  | inl e ↦ inl (rw e refl)
  | inr e ↦ inr (
    record {
      read_pipe = new_end 0;
      write_pipe = new_end 1;
      buffer = buffer;
      page = (mm_mem_kalloc m).0;
    },
    (
      rw e refl,
      record {
        read_size = refl;
        write_size = refl;
        holds = tt;
        fits = omega arith;
        read_count = refl;
        write_count = refl;
        start_ok = omega arith;
        end_at = refl;
      },
    ),
  )
]

read_wait-keeps :
    (p : PipePage) (l : Loader) (cs : List ℕ) → IsPipe p cs → IsPipe (read_wait p l).0 cs
unfolding read_wait
read_wait-keeps p l cs b = IsPipe-woken p cs _ _ _ _ b

write_wait-keeps :
    (p : PipePage) (l : Loader) (cs : List ℕ) → IsPipe p cs → IsPipe (write_wait p l).0 cs
unfolding write_wait
write_wait-keeps p l cs b = elim (Bool-cases (not (p.read_pipe.busy == 0))) [
  | inl e ↦ rw e (IsPipe-woken p cs _ _ _ _ b)
  | inr e ↦ rw e (IsPipe-woken p cs _ _ _ _ b)
]

write_rest-keeps :
    (p : PipePage) (l : Loader) (cs : List ℕ) → IsPipe p cs → IsPipe (write_rest p l).0 cs
unfolding write_rest
write_rest-keeps p l cs b = elim (Bool-cases (not (p.read_pipe.busy == 0))) [
  | inl e ↦ rw e (IsPipe-woken p cs _ _ _ _ b)
  | inr e ↦ rw e (IsPipe-woken p cs _ _ _ _ b)
]

-- A pipe is empty when it has been opened, and waiting at either of its ends and waking the other
-- side leave the bytes that it holds.
pub pipe_open-IsPipe_kept :
    (buffer : ℕ → ℕ) (m : Mm) (p : PipePage) (l : Loader) (cs : List ℕ)
    → IsPipe p cs
    → (((pipe_open buffer m).0 ≡ none)
        ⊎ ((q : PipePage) × (((pipe_open buffer m).0 ≡ some q) × IsPipe q [])))
      × (IsPipe (read_wait p l).0 cs
          × (IsPipe (write_wait p l).0 cs × IsPipe (write_rest p l).0 cs))
pipe_open-IsPipe_kept buffer m p l cs b = (
  pipe_open-IsPipe buffer m,
  (read_wait-keeps p l cs b, (write_wait-keeps p l cs b, write_rest-keeps p l cs b)),
)
