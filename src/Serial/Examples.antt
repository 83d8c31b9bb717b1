-- ===== src/Serial/Examples.antt =====
-- The serial port at work: right after the start the buffer counts as one short of full.
use pso.Base.{◌≡◌, refl, [], ◌∷◌, false, ◌==◌, if◌then◌else◌, arith}
use pso.Serial.{Serial, serial_init, serial_write, isr_serial}
use pso.Serial.Queue.{IsQueue, IsReceived, isr_serial-IsReceived}
use pso.Serial.Reading.{IsOldest, serial_read-IsOldest}

abbrev start : Serial
start = record { serial_buffer = λ i. 0; serial_buf_pos = 0; serial_buf_end = 0 }

first_bytes_wait :
    isr_serial (65 ∷ 66 ∷ []) (serial_init start) ≡ (false, (65 ∷ 66 ∷ [], serial_init start))
unfolding isr_serial serial_init
first_bytes_wait = refl

write_pads : (serial_write (65 ∷ 66 ∷ [])).1 ≡ 65 ∷ 66 ∷ 0x20 ∷ 0x20 ∷ []
unfolding serial_write
write_pads = refl

start-IsQueue : IsQueue start []
start-IsQueue = record { holds = tt; fits = omega arith; start_ok = omega arith; end_at = refl }

isr_serial-IsReceived_example : IsReceived (65 ∷ 66 ∷ []) [] (isr_serial (65 ∷ 66 ∷ []) start)
isr_serial-IsReceived_example = isr_serial-IsReceived (65 ∷ 66 ∷ []) start [] start-IsQueue

-- Three bytes, the last of which is behind the end of the array.
abbrev around : Serial
around = record {
  serial_buffer = λ i. if i == 62 then 65 else if i == 63 then 66 else 67;
  serial_buf_pos = 62;
  serial_buf_end = 1;
}

around-IsQueue : IsQueue around (65 ∷ 66 ∷ 67 ∷ [])
around-IsQueue = record {
  holds = (refl, (refl, (refl, tt)));
  fits = omega arith;
  start_ok = omega arith;
  end_at = refl;
}

serial_read-IsRead_example : IsOldest 2 (λ i. 0) around (65 ∷ 66 ∷ 67 ∷ [])
serial_read-IsRead_example =
    serial_read-IsOldest 2 (λ i. 0) around (65 ∷ 66 ∷ 67 ∷ []) around-IsQueue (omega arith)
      (omega arith) (omega arith)
