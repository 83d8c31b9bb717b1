-- ===== src/Serial/Queue.antt =====
-- The buffer of the serial port as a queue of bytes: what the interrupt handler puts in, a read takes
-- out in the same order.
use mathlib.Core.List.{append_assoc, append-nil}
use pso.Base.{
  ℕ, ◌+◌, ◌%◌, ◌≤◌, ◌<◌, ◌≡◌, ◌⊎◌, inl, inr, refl, sym, ap, ◌∙◌, subst, List, [], ◌∷◌, ◌++◌, length,
  length-append, update, ltb, Bool-cases, true, false, Bool, arith,
}
use pso.Circular.{Holds, Holds-update, Holds-append, next_start}
use pso.Serial.{Serial, put_byte, drop_byte, is_full, receive_loop, isr_serial}

-- The buffer holds the bytes `cs`, oldest first. One of its 64 places stays empty.
pub record IsQueue (s : Serial) (cs : List ℕ) : Type 0 where
  pub holds : Holds 64 cs s.serial_buf_pos s.serial_buffer
  pub fits : length cs ≤ 63
  pub start_ok : s.serial_buf_pos < 64
  pub end_at : s.serial_buf_end ≡ (s.serial_buf_pos + length cs) % 64

put_byte-IsQueue :
    (c : ℕ) (s : Serial) (cs : List ℕ)
    → IsQueue s cs
    → length cs < 63
    → IsQueue (put_byte c s) (cs ++ c ∷ [])
put_byte-IsQueue c s cs q f =
    let n = length-append cs (c ∷ []) in
    record {
      holds =
          Holds-append 64 cs s.serial_buf_pos c (update s.serial_buffer s.serial_buf_end c)
            q.start_ok
            (Holds-update 64 cs s.serial_buf_pos s.serial_buf_end c s.serial_buffer q.start_ok
              (sym q.end_at) (omega (arith, f)) q.holds)
            (ground (arith, q.end_at));
      fits = omega (arith, n, f);
      start_ok = q.start_ok;
      end_at = omega (arith, n, q.end_at);
    }

pub drop_byte-IsQueue :
    (c : ℕ) (s : Serial) (cs : List ℕ) → IsQueue s (c ∷ cs) → IsQueue (drop_byte s) cs
drop_byte-IsQueue c s cs q = record {
  holds = q.holds.1;
  fits = omega (arith, q.fits);
  start_ok = omega arith;
  end_at = q.end_at ∙ sym (next_start 64 s.serial_buf_pos (length cs));
}

-- The test of the handler finds exactly the buffer with 63 bytes.
is_full-full : (s : Serial) (cs : List ℕ) → IsQueue s cs → is_full s ≡ true → length cs ≡ 63
is_full-full s cs q e = ground (arith, e, q.fits, q.start_ok, q.end_at)

is_full-room : (s : Serial) (cs : List ℕ) → IsQueue s cs → is_full s ≡ false → length cs < 63
is_full-room s cs q e = ground (arith, e, q.fits, q.start_ok, q.end_at)

receive_loop-IsQueue :
    (bytes : List ℕ) (s : Serial) (cs : List ℕ)
    → IsQueue s cs
    → length cs < 63
    → (front : List ℕ) × (back : List ℕ) × ((bytes ≡ front ++ back)
        × (((receive_loop bytes s).0 ≡ back)
            × (IsQueue (receive_loop bytes s).1 (cs ++ front)
                × ((back ≡ []) ⊎ (length (cs ++ front) ≡ 63)))))
unfolding receive_loop
receive_loop-IsQueue [] s cs q f =
    ([], [], (refl, (refl, (subst (IsQueue s) (sym (append-nil cs)) q, inl refl))))
receive_loop-IsQueue (c ∷ bytes) s cs q f =
    let q' = put_byte-IsQueue c s cs q f in
    elim (Bool-cases (is_full (put_byte c s))) [
      | inl e ↦ rw e (
        c ∷ [],
        bytes,
        (refl, (refl, (q', inr (is_full-full (put_byte c s) (cs ++ c ∷ []) q' e)))),
      )
      | inr e ↦
          (let (front, back, (g, (h, (i, j)))) =
              receive_loop-IsQueue bytes (put_byte c s) (cs ++ c ∷ []) q'
                (is_full-room (put_byte c s) (cs ++ c ∷ []) q' e) in
            let a = append_assoc cs (c ∷ []) front in
            rw e (
              c ∷ front,
              back,
              (
                ap (λ l. c ∷ l) g,
                (h, (subst (IsQueue _) a i, subst (λ l. (back ≡ []) ⊎ (length l ≡ 63)) a j)),
              ),
            ))
    ]

-- What the handler leaves: the first of the bytes stand behind those that were there, in their order,
-- and the port keeps the others, which there are only when the buffer holds 63 bytes. The interrupt
-- controller is told exactly when there was room.
pub record IsReceived (bytes cs : List ℕ) (r : Bool × (List ℕ × Serial)) : Type 0 where
  pub front : List ℕ
  pub back : List ℕ
  pub split : bytes ≡ front ++ back
  pub left : r.1.0 ≡ back
  pub queue : IsQueue r.1.1 (cs ++ front)
  pub stopped : (back ≡ []) ⊎ (length (cs ++ front) ≡ 63)
  pub told : r.0 ≡ ltb (length cs) 63

-- The interrupt handler of a port puts the bytes that the port has behind those of the buffer, in
-- their order, until none is left or the buffer holds 63 bytes; it tells the interrupt controller that
-- the interrupt is over exactly when the buffer held less than 63 bytes before.
pub isr_serial-IsReceived :
    (bytes : List ℕ) (s : Serial) (cs : List ℕ)
    → IsQueue s cs
    → IsReceived bytes cs (isr_serial bytes s)
unfolding isr_serial
isr_serial-IsReceived bytes s cs q = elim (Bool-cases (is_full s)) [
  | inl e ↦
      (let n = is_full-full s cs q e in
        rw e record {
          front = [];
          back = bytes;
          split = refl;
          left = refl;
          queue = subst (IsQueue s) (sym (append-nil cs)) q;
          stopped = inr (ap length (append-nil cs) ∙ n);
          told = ground (arith, n);
        })
  | inr e ↦
      (let n = is_full-room s cs q e in
        let (front, back, (g, (h, (i, j)))) = receive_loop-IsQueue bytes s cs q n in
        rw e record {
          front = front;
          back = back;
          split = g;
          left = h;
          queue = i;
          stopped = j;
          told = ground (arith, n);
        })
]
