-- ===== src/Fdd/Block.antt =====
-- The floppy as a block device: the functions `fdd_block_*` of fdd.c. How a sector is read is a
-- parameter, `read c h s`, with the bytes that it leaves in the device's buffer; `sector_reader`
-- gives the one of the source.
pub mod Geometry
pub mod Transfer
pub mod Locked
use pso.Base.{
  ℕ, zero, suc, ◌+◌, ◌-◌, ◌*◌, ◌/◌, ◌%◌, ◌^◌, ◌==◌, if◌then◌else◌, ltb, leb, not, ◌&&◌, ◌||◌, Bool,
  Option, none, some, update, sub32,
}
use pso.Loader.{Loader}
use pso.Sem.{Sem, wait, signal}
use pso.Fdd.{
  FddError, dev_no_config, dev_no_read, dev_overhead, ioctl_wcmd, Result, ok, err, Ports, Fdd,
}
use pso.Fdd.Sector.{read_sector}

-- `str_blockdev_floppy`, without the buffer.
pub record Floppy : Type 0 where
  pub refcount : ℕ
  pub drive : ℕ
  pub cylinder_count : ℕ
  pub head_count : ℕ
  pub sect_per_track : ℕ

-- One of the `floppy_devs` as `fdd_init` sets it.
unfoldable pub new_floppy : ℕ → Floppy
new_floppy st = record {
  refcount = 0;
  drive = st;
  cylinder_count = 0;
  head_count = 0;
  sect_per_track = 0;
}

-- `fdd_block_ioctl`; the values are stored as bytes.
unfoldable pub fdd_block_ioctl : ℕ → ℕ → Floppy → Result (Unit {0}) × Floppy
fdd_block_ioctl cmd value f =
    if cmd == 1
    then (ok tt, record f { cylinder_count = value % 2 ^ 8 })
    else if cmd == 2
    then (ok tt, record f { head_count = value % 2 ^ 8 })
    else if cmd == 3
    then (ok tt, record f { sect_per_track = value % 2 ^ 8 })
    else (err ioctl_wcmd, f)

-- `fdd_block_flush`
unfoldable pub fdd_block_flush : Floppy → Floppy
fdd_block_flush f = record f { refcount = sub32 f.refcount 1 }

abbrev pub unconfigured : Floppy → Bool
unconfigured f = f.cylinder_count == 0 || f.head_count == 0 || f.sect_per_track == 0

-- `fdd_block_write`: `none` is the `return -1` on a device that is configured.
unfoldable pub fdd_block_write : Floppy → Option FddError
fdd_block_write f = if unconfigured f then some dev_no_config else none

-- `sect_count`
abbrev pub sect_count : ℕ → ℕ
sect_count size = size / 512 + (if ltb 0 (size % 512) then 1 else 0)

-- Cylinder, head and sector of sector `pos`. With no sectors in a track the source divides by 0.
abbrev pub cylinder_of : ℕ → ℕ → ℕ
cylinder_of spt pos = pos / (spt * 2)

abbrev pub head_of : ℕ → ℕ → ℕ
head_of spt pos = pos % (spt * 2) / spt

abbrev pub sector_of : ℕ → ℕ → ℕ
sector_of spt pos = pos % spt + 1

-- The copy of `n` bytes of the device's buffer, from byte `i` on, to the user's buffer at `at`.
unfoldable pub copy_bytes : ℕ → ℕ → ℕ → (ℕ → ℕ) → (ℕ → ℕ) → ℕ → ℕ
copy_bytes zero i at buffer usr = usr
copy_bytes (suc n) i at buffer usr = copy_bytes n (i + 1) at buffer (update usr (at + i) (buffer i))

-- A device: reading a sector, and the buffer that it fills.
pub record Reader (S : Type 0) : Type 0 where
  pub read : ℕ → ℕ → ℕ → S → Result (Unit {0}) × S
  pub buffer : S → ℕ → ℕ

-- How many bytes of sector `j` are wanted: `i < 512 && 512 * j + i < size`.
abbrev pub wanted : ℕ → ℕ → ℕ
wanted size j = if ltb (size - 512 * j) 512 then size - 512 * j else 512

-- The update of cylinder, head and sector for the next round.
abbrev pub next_chs : Floppy → ℕ × (ℕ × ℕ) → ℕ × (ℕ × ℕ)
next_chs f (c, (h, s)) =
    if ltb f.sect_per_track (s + 1)
    then (if ltb f.cylinder_count (c + 1) then (0, (h + 1, 1)) else (c + 1, (h, 1)))
    else (c, (h, s + 1))

module _ {S : Type 0} (reader : Reader S) where
  -- The loop of `fdd_block_read`, with `n` sectors left, the next being number `j` of the request.
  unfoldable pub block_loop :
      Floppy → ℕ → ℕ → ℕ → ℕ × (ℕ × ℕ) → (ℕ → ℕ) → S → Result (Unit {0}) × ((ℕ → ℕ) × S)
  unfolding copy_bytes
  block_loop f size zero j chs usr st = (ok tt, (usr, st))
  block_loop f size (suc n) j (c, (h, s)) usr st =
      let (x, st') = reader.read (c % 2 ^ 8) (h % 2 ^ 8) (s % 2 ^ 8) st in
      let usr' = copy_bytes (wanted size j) 0 (512 * j) (reader.buffer st') usr in
      let rest = block_loop f size n (j + 1) (next_chs f (c, (h, s))) usr' st' in
      if leb f.head_count h
      then (err dev_overhead, (usr, st))
      else elim x [ ok u ↦ rest | err e ↦ (err dev_no_read, (usr, st')) ]

  -- `fdd_block_read` up to the semaphore.
  unfoldable pub block_read_request : ℕ → Floppy → Sem → Loader → Option (Sem × Loader)
  block_read_request pos f fdc_sem l =
      if not (pos == 0) && unconfigured f then none else some (wait fdc_sem l)

  -- The end of the critical section, on the only way that goes there.
  abbrev pub leave :
      Sem
      → Loader
      → Result (Unit {0}) × ((ℕ → ℕ) × S)
      → Result (Unit {0}) × (((ℕ → ℕ) × S) × (Sem × Loader))
  leave fdc_sem l (ok u, r) = (ok u, (r, signal fdc_sem l))
  leave fdc_sem l (err e, r) = (err e, (r, (fdc_sem, l)))

  -- `fdd_block_read` behind the semaphore: the result, the user's buffer, the machine and the
  -- semaphore. The first sector is read without a look at the result.
  unfoldable pub block_read :
      ℕ
      → ℕ
      → Floppy
      → (ℕ → ℕ)
      → S
      → Sem
      → Loader
      → Result (Unit {0}) × (((ℕ → ℕ) × S) × (Sem × Loader))
  block_read pos size f usr st fdc_sem l =
      let st' = (reader.read 0 0 1 st).1 in
      let first : Result (Unit {0}) × ((ℕ → ℕ) × S) =
        (ok tt, (copy_bytes size 0 0 (reader.buffer st') usr, st')) in
      let spt = f.sect_per_track in
      leave fdc_sem l (
        if pos == 0 && sect_count size == 1
        then first
        else block_loop f size (sect_count size) 0
            (cylinder_of spt pos, (head_of spt pos, sector_of spt pos)) usr st)

-- The device of the source: its sectors are read with `fdd_read_sector` into its buffer, which
-- stands at address `dest`; `filled` is what the transfer leaves there.
unfoldable pub sector_reader :
    {W : Type 0} → Ports W → (W → ℕ → ℕ) → ℕ → ℕ → Floppy → Reader (Fdd W)
unfolding read_sector
sector_reader io filled fuel dest f = record {
  read = λ c h s. read_sector io fuel c h s 1 0 dest f.drive;
  buffer = λ st. filled st.world;
}
