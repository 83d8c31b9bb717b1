-- ===== src/Fat12/Access.antt =====
-- Reading and writing an open file, within its first seven sectors.
use pso.Base.{
  ℕ, zero, suc, ◌+◌, ◌-◌, ◌^◌, ◌≤◌, ◌<◌, ◌==◌, if◌then◌else◌, ltb, leb, ◌&&◌, true, false, List,
  ◌≡◌, refl, ap, ◌∙◌, arith, update,
}
use pso.LibStr.{strncpy}
use pso.Fat12.File.{
  ChardevFile, moved, mov_loop, mov_size, turn_page, first_bytes, chardev_file_mov,
  chardev_file_read, chardev_file_write,
}

add_zero : (a : ℕ) → a ≡ a + zero
add_zero a = omega arith

add_one : (a n : ℕ) → a + 1 + n ≡ a + suc n
add_one a n = omega arith

room : (n : ℕ) (f : ChardevFile) → f.cursor + suc n ≤ 3584 → ltb f.cursor first_bytes ≡ true
room n f h = ground (arith, h)

none_read :
    (i k : ℕ) (f : ChardevFile) (buf : ℕ → ℕ)
    → buf k ≡ (if leb i k && ltb k (i + zero) then f.contents (f.cursor + (k - i)) else buf k)
none_read i k f buf = ground arith

one_more :
    (n i k : ℕ) (f : ChardevFile) (buf : ℕ → ℕ)
    → (if leb (i + 1) k && ltb k (i + 1 + n)
        then f.contents (f.cursor + 1 + (k - (i + 1)))
        else update buf i (f.contents f.cursor) k)
      ≡ (if leb i k && ltb k (i + suc n) then f.contents (f.cursor + (k - i)) else buf k)
one_more n i k f buf = ground arith

loop_reads :
    (n i : ℕ) (buf : ℕ → ℕ) (f : ChardevFile)
    → f.cursor + n ≤ 3584
    → ((mov_loop n i false buf f).0 ≡ i + n)
      × (((k : ℕ)
            → (mov_loop n i false buf f).1.0 k
              ≡ (if leb i k && ltb k (i + n) then f.contents (f.cursor + (k - i)) else buf k))
          × ((mov_loop n i false buf f).1.1 ≡ record f { cursor = f.cursor + n }))
unfolding mov_loop
loop_reads zero i buf f h =
    (omega arith, (λ k. none_read i k f buf, ap (λ c. record f { cursor = c }) (add_zero f.cursor)))
loop_reads (suc n) i buf f h =
    let (p, (q, r)) =
      loop_reads n (i + 1) (update buf i (f.contents f.cursor)) (record f { cursor = f.cursor + 1 })
        (omega (arith, h)) in
    rw (room n f h) (
      p ∙ add_one i n,
      (λ k. q k ∙ one_more n i k f buf, r ∙ ap (λ c. record f { cursor = c }) (add_one f.cursor n)),
    )

-- How many bytes a read gives: no more than the file has behind the position.
size_lem :
    (size : ℕ) (f : ChardevFile)
    → f.cursor ≤ f.size
    → size + f.cursor < 2 ^ 32
    → f.size < 2 ^ 32
    → mov_size size f ≡ (if leb size (f.size - f.cursor) then size else f.size - f.cursor)
size_lem size f a b c = ground (arith, a, b, c)

within : (f : ChardevFile) → f.cursor < 3584 → ltb f.cursor first_bytes ≡ true
within f h = ground (arith, h)

all_moved : (i n : ℕ) → i ≡ 0 + n → (i == n) ≡ true
all_moved i n h = ground (arith, h)

moved_of :
    (size : ℕ) (buf : ℕ → ℕ) (f : ChardevFile)
    → ltb f.cursor first_bytes ≡ true
    → ((mov_loop (mov_size size f) 0 false buf f).0 == mov_size size f) ≡ true
    → chardev_file_mov false size buf f
      ≡ moved
          (mov_size size f)
          (mov_loop (mov_size size f) 0 false buf f).1.0
          (turn_page (mov_loop (mov_size size f) 0 false buf f).1.1)
unfolding chardev_file_mov
moved_of size buf f e g = rw (e, g) refl

mov_reads :
    (size : ℕ) (buf : ℕ → ℕ) (f : ChardevFile)
    → f.cursor < 3584
    → f.cursor + mov_size size f ≤ 3584
    → (buf' : ℕ → ℕ) × ((chardev_file_mov false size buf f
          ≡ moved
              (mov_size size f)
              buf'
              (turn_page (record f { cursor = f.cursor + mov_size size f })))
        × ((k : ℕ)
            → buf' k ≡ (
                if leb 0 k && ltb k (0 + mov_size size f)
                then f.contents (f.cursor + (k - 0))
                else buf k)))
mov_reads size buf f h l =
    let (p, (q, r)) = loop_reads (mov_size size f) 0 buf f l in
    (
      (mov_loop (mov_size size f) 0 false buf f).1.0,
      (
        moved_of size buf f (within f h) (all_moved _ _ p)
            ∙ ap
                (λ g.
                  moved (mov_size size f) (mov_loop (mov_size size f) 0 false buf f).1.0
                    (turn_page g))
                r,
        q,
      ),
    )

from_start :
    (a k n : ℕ) (c buf : ℕ → ℕ)
    → (if leb 0 k && ltb k (0 + n) then c (a + (k - 0)) else buf k)
      ≡ (if ltb k n then c (a + k) else buf k)
from_start a k n c buf = ground arith

-- The least of the bytes asked for and the bytes that the file has behind its position.
abbrev pub available : ℕ → ChardevFile → ℕ
available size f = if leb size (f.size - f.cursor) then size else f.size - f.cursor

-- A read within the first seven sectors gives the bytes of the file from its position on, as many
-- as asked for or as the file has left, leaves the rest of the buffer, and moves the position
-- behind them.
pub chardev_file_read-bytes :
    (size : ℕ) (buf : ℕ → ℕ) (f : ChardevFile)
    → f.cursor ≤ f.size
    → f.size < 2 ^ 32
    → size + f.cursor < 2 ^ 32
    → f.cursor < 3584
    → f.cursor + available size f ≤ 3584
    → (buf' : ℕ → ℕ) × ((chardev_file_read size buf f
          ≡ moved
              (available size f)
              buf'
              (turn_page (record f { cursor = f.cursor + available size f })))
        × ((k : ℕ)
            → buf' k ≡ (if ltb k (available size f) then f.contents (f.cursor + k) else buf k)))
unfolding chardev_file_read
chardev_file_read-bytes size buf f a b c d l =
    let e = size_lem size f a c b in
    let (buf', (p, q)) = mov_reads size buf f d (omega (arith, e, l)) in
    (
      buf',
      (
        p ∙ ap (λ n. moved n buf' (turn_page (record f { cursor = f.cursor + n }))) e,
        λ k.
            q k
            ∙ from_start f.cursor k (mov_size size f) f.contents buf
            ∙ ap (λ n. if ltb k n then f.contents (f.cursor + k) else buf k) e,
      ),
    )

-- A write within the first seven sectors does not write: it reports as many bytes as were given, or
-- as the file has left behind its position, and moves the position behind them, but every byte of the
-- file stays as it is, as do its size and its name.
pub chardev_file_write-keeps :
    (size : ℕ) (buf : List ℕ) (junk : ℕ → ℕ) (f : ChardevFile)
    → f.cursor ≤ f.size
    → f.size < 2 ^ 32
    → size + f.cursor < 2 ^ 32
    → f.cursor < 3584
    → f.cursor + available size f ≤ 3584
    → (buf' : ℕ → ℕ) × (f' : ChardevFile) × (chardev_file_write size buf junk f
        ≡ moved (available size f) buf' f')
      × (f'.contents ≡ f.contents)
      × (f'.cursor ≡ f.cursor + available size f)
      × (f'.size ≡ f.size)
      × (f'.name ≡ f.name)
unfolding chardev_file_write
chardev_file_write-keeps size buf junk f a b c d l =
    let e = size_lem size f a c b in
    let (buf', (p, q)) = mov_reads size (strncpy junk buf size).1 f d (omega (arith, e, l)) in
    (
      buf',
      turn_page (record f { cursor = f.cursor + available size f }),
      p ∙ ap (λ n. moved n buf' (turn_page (record f { cursor = f.cursor + n }))) e,
      refl,
      refl,
      refl,
      refl,
    )
