-- ===== src/Pipe/Examples.antt =====
-- A small pipe at work.
use pso.Base.{inl, ℕ, ◌≡◌, ◌⊎◌, refl, List, [], ◌∷◌, ◌++◌, length, some, arith, false, update}
use pso.Loader.Sample.{booted}
use pso.Mm.{Mm, no_entry}
use pso.Pipe.{PipePage, new_end, write_bytes, read_amount, read_rest}
use pso.Pipe.Queue.{IsPipe, write_bytes-IsPipe}
use pso.Pipe.Reading.{read_rest-oldest}

-- A pipe whose ends have a buffer of three bytes.
abbrev three_bytes : PipePage
three_bytes = record {
  read_pipe = record (new_end 0) { buffer_size = 3 };
  write_pipe = record (new_end 0) { buffer_size = 3 };
  buffer = λ i. 0;
  page = 0x10_0000;
}

-- Of four bytes the fourth has to wait, and the first two can be read then.
four_written :
    ((write_bytes (1 ∷ 2 ∷ 3 ∷ 4 ∷ []) three_bytes).0 ≡ 4 ∷ [])
    × (read_amount 2 (write_bytes (1 ∷ 2 ∷ 3 ∷ 4 ∷ []) three_bytes).1 ≡ some 2)
unfolding write_bytes read_amount
four_written = (refl, refl)

abbrev zeros : ℕ → ℕ
zeros i = 0

-- A pipe with two bytes, which stand at the end of the buffer and at its beginning.
abbrev two_bytes : PipePage
two_bytes = record {
  read_pipe = record (new_end 0) { cursor = 3071; buffer_cant = 2 };
  write_pipe = record (new_end 1) { cursor = 1; buffer_cant = 2 };
  buffer = update (update zeros 3071 7) 0 8;
  page = 0x10_0000;
}

two_bytes-IsPipe : IsPipe two_bytes (7 ∷ 8 ∷ [])
two_bytes-IsPipe = record {
  read_size = refl;
  write_size = refl;
  holds = (refl, (refl, tt));
  fits = omega arith;
  read_count = refl;
  write_count = refl;
  start_ok = omega arith;
  end_at = refl;
}

write_bytes-IsPipe_example :
    (front : List ℕ) × (back : List ℕ) × (((9 ∷ 10 ∷ []) ≡ front ++ back)
      × (((write_bytes (9 ∷ 10 ∷ []) two_bytes).0 ≡ back)
          × (IsPipe (write_bytes (9 ∷ 10 ∷ []) two_bytes).1 ((7 ∷ 8 ∷ []) ++ front)
              × ((back ≡ []) ⊎ (length ((7 ∷ 8 ∷ []) ++ front) ≡ 3072)))))
write_bytes-IsPipe_example =
    write_bytes-IsPipe (9 ∷ 10 ∷ []) two_bytes (7 ∷ 8 ∷ []) two_bytes-IsPipe

one_asked : read_amount 1 two_bytes ≡ some 1
unfolding read_amount
one_asked = refl

read_rest-oldest_example :
    (front : List ℕ) × (back : List ℕ) × ((7 ∷ 8 ∷ []) ≡ front ++ back)
    × (length front ≡ 1)
    × (read_amount 1 two_bytes ≡ some (length front))
    × ((read_rest (length front) two_bytes booted).0 ≡ front)
    × IsPipe (read_rest (length front) two_bytes booted).1.0 back
read_rest-oldest_example =
    read_rest-oldest 1 two_bytes booted (7 ∷ 8 ∷ []) two_bytes-IsPipe (inl (omega arith))

abbrev memory : Mm
memory = record {
  kernel_pf_info = λ j i. false;
  usr_pf_info = λ j i. false;
  usr_pf_limit = 4;
  tables = λ f i. no_entry;
}
