-- ===== src/Serial.antt =====
-- The serial port: tp1/src/kernel/serial.c. The bytes that the port holds for the handler are a list,
-- and so are the bytes that a write sends; the registers of the port are not modelled.
mod Examples
pub mod Queue
pub mod Reading
use pso.Base.{
  ℕ, zero, suc, ◌+◌, ◌%◌, ◌^◌, ◌==◌, if◌then◌else◌, ltb, not, ◌&&◌, Bool, true, false, List, [],
  ◌∷◌, ◌++◌, update, add32, Option, none, some, length,
}

-- `SERIAL_BUFF_SIZE`
abbrev pub serial_buff_size : ℕ
serial_buff_size = 64

-- The static variables of the file.
pub record Serial : Type 0 where
  pub serial_buffer : ℕ → ℕ
  pub serial_buf_pos : ℕ
  pub serial_buf_end : ℕ

-- `port_addr`
unfoldable pub port_addr : ℕ → ℕ
port_addr line =
    if line == 0 then 0x3F8 else if line == 1 then 0x2F8 else if line == 2 then 0x3E8 else 0x2E8

-- The variables that `serial_init` sets; the first byte is an `H`.
unfoldable pub serial_init : Serial → Serial
serial_init s = record s {
  serial_buffer = update s.serial_buffer 0 72;
  serial_buf_pos = 1;
  serial_buf_end = 0;
}

-- The position behind the next byte.
abbrev pub drop_byte : Serial → Serial
drop_byte s = record s { serial_buf_pos = (s.serial_buf_pos + 1) % serial_buff_size }

-- The loop of `serial_read`, `n` rounds at most: `i`, the caller's buffer and the position behind it.
unfoldable pub read_loop : ℕ → ℕ → ℕ → (ℕ → ℕ) → Serial → ℕ × ((ℕ → ℕ) × Serial)
read_loop zero i size buff s = (i, (buff, s))
read_loop (suc n) i size buff s =
    let buff' = update buff i (s.serial_buffer s.serial_buf_pos) in
    let rest = read_loop n (add32 i 1) size buff' (drop_byte s) in
    if ltb (add32 i 1) size && not ((drop_byte s).serial_buf_pos == s.serial_buf_end)
    then rest
    else (add32 i 1, (buff', drop_byte s))

-- `serial_read`; `none` is `SERIAL_ERROR_READTOOLARGE`. The source does not set `i` before the loop:
-- what it holds is the argument `i`. The position is at the end again after 64 rounds at most.
unfoldable pub serial_read : ℕ → ℕ → (ℕ → ℕ) → Serial → Option (ℕ × ((ℕ → ℕ) × Serial))
serial_read i size buff s =
    if ltb serial_buff_size size then none else some (read_loop 64 i size buff s)

-- `n` spaces.
pub spaces : ℕ → List ℕ
spaces zero = []
spaces (suc n) = 0x20 ∷ spaces n

-- `serial_write`: what it returns, which counts the spaces sent behind the bytes, and what it sends.
unfoldable pub serial_write : List ℕ → ℕ × List ℕ
unfolding spaces
serial_write buff = (length buff % 16, buff ++ spaces (length buff % 16))

-- A byte put into the buffer.
abbrev pub put_byte : ℕ → Serial → Serial
put_byte c s = record s {
  serial_buffer = update s.serial_buffer s.serial_buf_end c;
  serial_buf_end = (s.serial_buf_end + 1) % serial_buff_size;
}

-- The test for a full buffer.
abbrev pub is_full : Serial → Bool
is_full s = (s.serial_buf_end + 1) % serial_buff_size == s.serial_buf_pos

-- The loop of `isr_serial_c` on the bytes that are there: those that it leaves, and the buffer.
unfoldable pub receive_loop : List ℕ → Serial → List ℕ × Serial
receive_loop [] s = ([], s)
receive_loop (c ∷ cs) s =
    let rest = receive_loop cs (put_byte c s) in
    if is_full (put_byte c s) then (cs, put_byte c s) else rest

-- `isr_serial_c`: whether it tells the interrupt controller that the interrupt is over, the bytes
-- that it leaves, and the buffer.
unfoldable pub isr_serial : List ℕ → Serial → Bool × (List ℕ × Serial)
unfolding receive_loop
isr_serial bytes s = if is_full s then (false, (bytes, s)) else (true, receive_loop bytes s)
