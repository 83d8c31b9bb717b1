-- ===== src/Pipe.antt =====
-- Pipes: tp1/src/kernel/pipe.c, tp1/src/include/pipe.h. The two ends share one ring buffer. A read
-- and a write are cut where a task may block in `sem_wait`: the piece behind a cut runs when the task
-- has the semaphore.
pub mod Queue
pub mod Reading
mod Examples
use pso.Base.{
  ℕ, zero, suc, ◌+◌, ◌-◌, ◌%◌, ◌^◌, ◌==◌, if◌then◌else◌, ltb, leb, not, ◌&&◌, ◌||◌, Option, none,
  some, List, [], ◌∷◌, update, add32, sub32,
}
use pso.Loader.{Loader}
use pso.Sem.{Sem, sem_new, wait, signal}
use pso.Mm.{Mm, mm_mem_kalloc, mm_mem_free}

-- `PIPE_BUFF_SIZE`
abbrev pub pipe_buff_size : ℕ
pipe_buff_size = 3072

-- `str_pipe`, one end.
pub record PipeEnd : Type 0 where
  pub refcount : ℕ
  pub buffer_size : ℕ
  pub cursor : ℕ
  pub buffer_cant : ℕ
  pub busy : ℕ
  pub sem : Sem

-- `str_pipe_page`: the two ends, their buffer and their page.
pub record PipePage : Type 0 where
  pub read_pipe : PipeEnd
  pub write_pipe : PipeEnd
  pub buffer : ℕ → ℕ
  pub page : ℕ

abbrev pub new_end : ℕ → PipeEnd
new_end places = record {
  refcount = 0;
  buffer_size = pipe_buff_size;
  cursor = 0;
  buffer_cant = 0;
  busy = 0;
  sem = sem_new places;
}

-- `pipe_open`; `none` is `PIPE_ERROR_NOPIPE`. What the buffer holds at first is an argument.
unfoldable pub pipe_open : (ℕ → ℕ) → Mm → Option PipePage × Mm
pipe_open buffer m =
    let (page, m') = mm_mem_kalloc m in
    if page == 0 then (none, m') else (
      some record { read_pipe = new_end 0; write_pipe = new_end 1; buffer = buffer; page = page },
      m',
    )

-- The two semaphores: the reader's end has the condition, the writer's end the mutex.
abbrev pub wait_read : PipePage × Loader → PipePage × Loader
wait_read (p, l) =
    let (s, l') = wait p.read_pipe.sem l in
    (record p { read_pipe = record p.read_pipe { sem = s } }, l')

abbrev pub wait_write : PipePage × Loader → PipePage × Loader
wait_write (p, l) =
    let (s, l') = wait p.write_pipe.sem l in
    (record p { write_pipe = record p.write_pipe { sem = s } }, l')

abbrev pub signal_read : PipePage × Loader → PipePage × Loader
signal_read (p, l) =
    let (s, l') = signal p.read_pipe.sem l in
    (record p { read_pipe = record p.read_pipe { sem = s } }, l')

abbrev pub signal_write : PipePage × Loader → PipePage × Loader
signal_write (p, l) =
    let (s, l') = signal p.write_pipe.sem l in
    (record p { write_pipe = record p.write_pipe { sem = s } }, l')

abbrev pub set_read_busy : ℕ → PipePage → PipePage
set_read_busy b p = record p { read_pipe = record p.read_pipe { busy = b } }

abbrev pub set_write_busy : ℕ → PipePage → PipePage
set_write_busy b p = record p { write_pipe = record p.write_pipe { busy = b } }

-- `pipe_read` up to the mutex; `none` is `PIPE_ERROR_CLOSED`.
unfoldable pub pipe_read : PipePage → Loader → Option (PipePage × Loader)
pipe_read p l = if p.write_pipe.refcount == 0 then none else some (wait_write (p, l))

-- With the mutex: how many bytes are read, or the wait for a writer.
unfoldable pub read_amount : ℕ → PipePage → Option ℕ
read_amount size p =
    if leb size p.read_pipe.buffer_cant
    then some size
    else if not (p.write_pipe.busy == 0)
    then some p.read_pipe.buffer_cant
    else none

-- The wait for a writer, up to its end; and then the mutex is taken again by `wait_write`.
unfoldable pub read_wait : PipePage → Loader → PipePage × Loader
read_wait p l = wait_read (signal_write (set_read_busy 1 p, l))

-- `min(pipe->buffer_cant, size)`, the amount after such a wait.
abbrev pub amount_after_wait : ℕ → PipePage → ℕ
amount_after_wait size p =
    if ltb p.read_pipe.buffer_cant size then p.read_pipe.buffer_cant else size

-- The loop that copies `n` bytes: the bytes, and the cursor.
pub read_bytes : ℕ → ℕ → ℕ → (ℕ → ℕ) → List ℕ × ℕ
read_bytes zero cursor size buffer = ([], cursor)
read_bytes (suc n) cursor size buffer =
    let (bytes, end) = read_bytes n ((cursor + 1) % size) size buffer in
    (buffer cursor ∷ bytes, end)

-- The rest of `pipe_read`: the bytes read, and the wake-up of a writer that waits for space.
unfoldable pub read_rest : ℕ → PipePage → Loader → List ℕ × (PipePage × Loader)
unfolding read_bytes
read_rest total p l =
    let (bytes, cursor) = read_bytes total p.read_pipe.cursor p.read_pipe.buffer_size p.buffer in
    let q = record p {
      read_pipe = record p.read_pipe {
        cursor = cursor;
        buffer_cant = sub32 p.read_pipe.buffer_cant total;
      };
      write_pipe = record p.write_pipe { buffer_cant = sub32 p.write_pipe.buffer_cant total };
    } in
    (
      bytes,
      signal_write
          (if not (q.write_pipe.busy == 0) then signal_read (set_write_busy 0 q, l) else (q, l)),
    )

-- `pipe_write` up to the mutex; `none` is `PIPE_ERROR_CLOSED`.
unfoldable pub pipe_write : PipePage → Loader → Option (PipePage × Loader)
pipe_write p l = if p.read_pipe.refcount == 0 then none else some (wait_write (p, l))

-- A round of its loop on a full buffer, up to the wait; then the mutex is taken by `wait_write`.
unfoldable pub write_wait : PipePage → Loader → PipePage × Loader
write_wait p l =
    let (q, l') = signal_write (set_write_busy 1 p, l) in
    wait_read (if not (q.read_pipe.busy == 0) then signal_read (set_read_busy 0 q, l') else (q, l'))

-- The last four lines of a round: one byte goes in.
unfoldable pub write_byte : ℕ → PipePage → PipePage
write_byte c p = record p {
  buffer = update p.buffer p.write_pipe.cursor c;
  write_pipe = record p.write_pipe {
    cursor = (p.write_pipe.cursor + 1) % p.write_pipe.buffer_size;
    buffer_cant = add32 p.write_pipe.buffer_cant 1;
  };
  read_pipe = record p.read_pipe { buffer_cant = add32 p.read_pipe.buffer_cant 1 };
}

-- The loop up to its end or to a full buffer: what is still to write, and the pipe.
unfoldable pub write_bytes : List ℕ → PipePage → List ℕ × PipePage
unfolding write_byte
write_bytes [] p = ([], p)
write_bytes (c ∷ cs) p =
    let rest = write_bytes cs (write_byte c p) in
    if p.write_pipe.buffer_cant == p.write_pipe.buffer_size then (c ∷ cs, p) else rest

-- The end of `pipe_write`.
unfoldable pub write_rest : PipePage → Loader → PipePage × Loader
write_rest p l = signal_write (if not (p.read_pipe.busy == 0) then signal_read (p, l) else (p, l))

-- `pipe_flush` of the reading end, and of the writing end.
unfoldable pub flush_read : PipePage → Mm → PipePage × Mm
flush_read p m =
    let n = sub32 p.read_pipe.refcount 1 in
    (
      record p { read_pipe = record p.read_pipe { refcount = n } },
      if n == 0 && p.write_pipe.refcount == 0 then mm_mem_free p.page m else m,
    )

unfoldable pub flush_write : PipePage → Mm → PipePage × Mm
flush_write p m =
    let n = sub32 p.write_pipe.refcount 1 in
    (
      record p { write_pipe = record p.write_pipe { refcount = n } },
      if n == 0 && p.read_pipe.refcount == 0 then mm_mem_free p.page m else m,
    )
