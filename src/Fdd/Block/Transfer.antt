-- ===== src/Fdd/Block/Transfer.antt =====
-- What a read of several sectors leaves in the user's buffer, and what it does to the semaphore.
use pso.Base.{
  ℕ, zero, suc, ◌+◌, ◌-◌, ◌*◌, ◌/◌, ◌%◌, ◌^◌, ◌≤◌, ◌<◌, ◌≡◌, refl, sym, ap, ◌∙◌, true, false, ◌&&◌,
  ◌==◌, if◌then◌else◌, leb, ltb, update, arith, Bool-cases, inl, inr,
}
use pso.Loader.{Loader}
use pso.Sem.{Sem, signal}
use pso.Fdd.{Result, ok}
use pso.Fdd.Block.{
  Floppy, Reader, wanted, copy_bytes, next_chs, block_loop, block_read, sect_count, cylinder_of,
  head_of, sector_of, leave,
}
use pso.Fdd.Block.Geometry.{chs_lem, same_track_lem}

-- A device that reads what `disk` has at a cylinder, a head, a sector and a byte.
pub record IsDisk {S : Type 0} (reader : Reader S) (disk : ℕ → ℕ → ℕ → ℕ → ℕ) : Type 0 where
  pub reads : (c h s : ℕ) (st : S) → (reader.read c h s st).0 ≡ ok tt
  pub fills : (c h s : ℕ) (st : S) (i : ℕ) → reader.buffer (reader.read c h s st).1 i ≡ disk c h s i

pub copy_bytes_lem :
    (n i at : ℕ) (buffer usr : ℕ → ℕ) (k : ℕ)
    → copy_bytes n i at buffer usr k
      ≡ (if leb (at + i) k && ltb k (at + i + n) then buffer (k - at) else usr k)
unfolding copy_bytes
copy_bytes_lem zero i at buffer usr k = ground arith
copy_bytes_lem (suc n) i at buffer usr k =
    ground (arith, copy_bytes_lem n (i + 1) at buffer (update usr (at + i) (buffer i)) k)

module _ {S : Type 0} (reader : Reader S) (disk : ℕ → ℕ → ℕ → ℕ → ℕ) (d : IsDisk reader disk) where
  -- The user's buffer after `n` sectors of one track, the first of them number `j` of the request.
  sectors : ℕ → ℕ → ℕ → ℕ → ℕ → ℕ → (ℕ → ℕ) → ℕ → ℕ
  sectors size n j c h s usr k =
      if leb (512 * j) k && (ltb k (512 * (j + n)) && ltb k size)
      then disk c h (s + (k / 512 - j)) (k % 512)
      else usr k

  one_sector :
      (size j c h s : ℕ) (usr buffer : ℕ → ℕ)
      → ((i : ℕ) → buffer i ≡ disk c h s i)
      → (k : ℕ) → copy_bytes (wanted size j) 0 (512 * j) buffer usr k ≡ sectors size 1 j c h s usr k
  unfolding sectors
  one_sector size j c h s usr buffer e k =
      copy_bytes_lem (wanted size j) 0 (512 * j) buffer usr k ∙ ground (arith, e (k - 512 * j))

  low : (c : ℕ) → c < 256 → c % 2 ^ 8 ≡ c
  low c x = omega (arith, x)

  no_zero : (n : ℕ) → 0 < n → (n == 0) ≡ false
  no_zero n x = ground (arith, x)

  room : (n h : ℕ) → h < n → leb n h ≡ false
  room n h l = ground (arith, l)

  filled :
      (c h s : ℕ) (st : S)
      → c < 256
      → h < 256
      → s < 256
      → (i : ℕ)
      → reader.buffer (reader.read (c % 2 ^ 8) (h % 2 ^ 8) (s % 2 ^ 8) st).1 i ≡ disk c h s i
  filled c h s st x y z i =
      d.fills (c % 2 ^ 8) (h % 2 ^ 8) (s % 2 ^ 8) st i ∙ (rw (low c x, low h y, low s z) refl)

  step :
      (f : Floppy) (size n j c h s : ℕ) (usr : ℕ → ℕ) (st : S)
      → h < f.head_count
      → c < 256
      → h < 256
      → s < 256
      → (st' : S) × (usr' : ℕ → ℕ) × (block_loop reader f size (suc n) j (c, (h, s)) usr st
          ≡ block_loop reader f size n (j + 1) (next_chs f (c, (h, s))) usr' st')
        × ((k : ℕ) → usr' k ≡ sectors size 1 j c h s usr k)
  unfolding block_loop sectors
  step f size n j c h s usr st l x y z =
      let st' = (reader.read (c % 2 ^ 8) (h % 2 ^ 8) (s % 2 ^ 8) st).1 in
      (
        st',
        copy_bytes (wanted size j) 0 (512 * j) (reader.buffer st') usr,
        rw (room f.head_count h l, d.reads (c % 2 ^ 8) (h % 2 ^ 8) (s % 2 ^ 8) st) refl,
        λ k. one_sector size j c h s usr (reader.buffer st') (filled c h s st x y z) k,
      )

  room_left : (n s : ℕ) → s < n → ltb n (s + 1) ≡ false
  room_left n s l = ground (arith, l)

  same_track :
      (f : Floppy) (c h s : ℕ) → s < f.sect_per_track → next_chs f (c, (h, s)) ≡ (c, (h, s + 1))
  same_track f c h s l = rw (room_left f.sect_per_track s l) refl

  merge :
      (size n j c h s : ℕ) (usr usr' : ℕ → ℕ) (k : ℕ)
      → usr' k ≡ sectors size 1 j c h s usr k
      → sectors size n (j + 1) c h (s + 1) usr' k ≡ sectors size (suc n) j c h s usr k
  unfolding sectors
  merge size n j c h s usr usr' k p = ground (arith, p)

  ended :
      (f : Floppy) (size j : ℕ) (chs : ℕ × (ℕ × ℕ)) (usr : ℕ → ℕ) (st : S)
      → block_loop reader f size zero j chs usr st ≡ (ok tt, (usr, st))
  unfolding block_loop
  ended f size j chs usr st = refl

  no_sectors : (size j c h s : ℕ) (usr : ℕ → ℕ) (k : ℕ) → sectors size zero j c h s usr k ≡ usr k
  unfolding sectors
  no_sectors size j c h s usr k = ground arith

  -- `n` sectors from one track: none of the updates leaves the track before the last is read.
  track :
      (f : Floppy) (size n j c h s : ℕ) (usr : ℕ → ℕ) (st : S)
      → h < f.head_count
      → c < 256
      → h < 256
      → f.sect_per_track < 256
      → s + n ≤ f.sect_per_track + 1
      → ((block_loop reader f size n j (c, (h, s)) usr st).0 ≡ ok tt)
        × ((k : ℕ)
            → (block_loop reader f size n j (c, (h, s)) usr st).1.0 k
              ≡ sectors size n j c h s usr k)
  track f size zero j c h s usr st l x y z w =
      let e = ended f size j (c, (h, s)) usr st in
      (ap (λ r. r.0) e, λ k. ap (λ r. r.1.0 k) e ∙ sym (no_sectors size j c h s usr k))
  track f size (suc zero) j c h s usr st l x y z w =
      let (st', usr', e, p) = step f size zero j c h s usr st l x y (omega (arith, z, w)) in
      let e' = e ∙ ended f size (j + 1) (next_chs f (c, (h, s))) usr' st' in
      (ap (λ r. r.0) e', λ k. ap (λ r. r.1.0 k) e' ∙ p k)
  track f size (suc (suc n)) j c h s usr st l x y z w =
      let (st', usr', e, p) = step f size (suc n) j c h s usr st l x y (omega (arith, z, w)) in
      let e' =
        e
        ∙ ap (λ a. block_loop reader f size (suc n) (j + 1) a usr' st')
            (same_track f c h s (omega (arith, w))) in
      let (q, r) = track f size (suc n) (j + 1) c h (s + 1) usr' st' l x y z (omega (arith, w)) in
      (
        ap (λ r. r.0) e' ∙ q,
        λ k. ap (λ r. r.1.0 k) e' ∙ r k ∙ merge size (suc n) j c h s usr usr' k (p k),
      )

  -- Byte `k` of sector number `pos` of the disk.
  abbrev pub lba : ℕ → ℕ → ℕ → ℕ
  lba spt pos = disk (cylinder_of spt pos) (head_of spt pos) (sector_of spt pos)

  count_lem : (size k : ℕ) → k < size → k / 512 < sect_count size
  count_lem size k l = ground (arith, l)

  inside :
      (size k : ℕ)
      → ltb k size ≡ true
      → (k / 512 < sect_count size)
        × ((ltb k (512 * (0 + sect_count size)) ≡ true)
            × ((leb (512 * 0) k ≡ true) × (k / 512 - 0 ≡ k / 512)))
  inside size k e = (ground (arith, e), (ground (arith, e), (ground arith, omega arith)))

  whole :
      (size pos spt : ℕ) (usr : ℕ → ℕ) (k : ℕ)
      → 0 < spt
      → pos % spt + sect_count size ≤ spt
      → sectors size
          (sect_count size)
          0
          (cylinder_of spt pos)
          (head_of spt pos)
          (sector_of spt pos)
          usr
          k
        ≡ (if ltb k size then lba spt (pos + k / 512) (k % 512) else usr k)
  unfolding sectors
  whole size pos spt usr k x y = elim (Bool-cases (ltb k size)) [
    | inl e ↦
        (let (l, (m, (b, z))) = inside size k e in
          rw (e, m, b, z)
            (sym (
              same_track_lem (λ c h s. disk c h s (k % 512)) spt pos (k / 512) x
                (omega (arith, l, y)))))
    | inr e ↦ rw e (ground arith)
  ]

  later :
      (pos size : ℕ) (f : Floppy) (usr : ℕ → ℕ) (st : S) (fdc_sem : Sem) (l : Loader)
      → 0 < pos
      → block_read reader pos size f usr st fdc_sem l
        ≡ leave reader fdc_sem l (
            block_loop reader f size
              (sect_count size)
              0
              (
                cylinder_of f.sect_per_track pos,
                (head_of f.sect_per_track pos, sector_of f.sect_per_track pos),
              )
              usr
              st)
  unfolding block_read
  later pos size f usr st fdc_sem l x = rw (no_zero pos x) refl

  leave_ok :
      (fdc_sem : Sem) (l : Loader) (r : Result (Unit {0}) × ((ℕ → ℕ) × S))
      → r.0 ≡ ok tt
      → leave reader fdc_sem l r ≡ (ok tt, (r.1, signal fdc_sem l))
  leave_ok fdc_sem l (x, r) e = ap (λ y. leave reader fdc_sem l (y, r)) e

  -- A read that begins at a sector other than 0, of sectors of one track of a configured device
  -- with two heads, ends without an error. The user's buffer has then the bytes of the disk,
  -- sector after sector in the order of their numbers, `size` of them and no more, and the
  -- semaphore is released.
  pub block_read-disk :
      (pos size : ℕ) (f : Floppy) (usr : ℕ → ℕ) (st : S) (fdc_sem : Sem) (l : Loader)
      → 0 < pos
      → 1 < f.head_count
      → 0 < f.sect_per_track
      → f.sect_per_track < 256
      → cylinder_of f.sect_per_track pos < 256
      → pos % f.sect_per_track + sect_count size ≤ f.sect_per_track
      → ((block_read reader pos size f usr st fdc_sem l).0 ≡ ok tt)
        × (((k : ℕ)
              → (block_read reader pos size f usr st fdc_sem l).1.0.0 k
                ≡ (if ltb k size then lba f.sect_per_track (pos + k / 512) (k % 512) else usr k))
            × ((block_read reader pos size f usr st fdc_sem l).1.1 ≡ signal fdc_sem l))
  block_read-disk pos size f usr st fdc_sem l a b c d g h =
      let spt = f.sect_per_track in
      let two = (chs_lem spt pos c).0 in
      let (q, r) =
        track f size (sect_count size) 0 (cylinder_of spt pos) (head_of spt pos) (sector_of spt pos)
          usr st (omega (arith, two, b)) g (omega (arith, two)) d (omega (arith, h)) in
      let e = later pos size f usr st fdc_sem l a ∙ leave_ok fdc_sem l _ q in
      (
        ap (λ x. x.0) e,
        (λ k. ap (λ x. x.1.0.0 k) e ∙ r k ∙ whole size pos spt usr k c h, ap (λ x. x.1.1) e),
      )
