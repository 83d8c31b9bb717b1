-- ===== src/Fat12/File.antt =====
-- An open file: `chardev_file` of device.h and the functions `chardev_file_*` of fat12.c. A pointer
-- is an address. The data behind the first seven sectors, which no function of the source ever
-- reads from a disk, is not modelled: a copy that goes on there has the result `beyond`.
use pso.Base.{
  ℕ, zero, suc, ◌+◌, ◌-◌, ◌*◌, ◌/◌, ◌==◌, if◌then◌else◌, ltb, leb, Bool, true, false, List, update,
  add32, sub32, minus_one,
}
use pso.LibStr.{strncpy}

-- `chardev_file`, and the seven sectors behind it in its page. `name` has 40 bytes.
pub record ChardevFile : Type 0 where
  pub refcount : ℕ
  pub cursor : ℕ
  pub name : ℕ → ℕ
  pub size : ℕ
  pub cur_page : ℕ
  pub cur_sectors : ℕ
  pub more_pages : ℕ
  pub data_pages : ℕ → ℕ
  pub contents : ℕ → ℕ

-- `file_sectors`, by address: the next one, and the pages.
pub record FileSectors : Type 0 where
  pub next : ℕ → ℕ
  pub pages : ℕ → ℕ → ℕ

-- `7 * FAT12_SECT_SIZE`
abbrev pub first_bytes : ℕ
first_bytes = 3584

-- The end of the pages of the first level, and the bytes of a page.
abbrev pub first_level : ℕ
first_level = (7 + 100 * 8) * 512

abbrev pub page_bytes : ℕ
page_bytes = 512 * 8

pub data Moved : Type 0 where
  moved : ℕ → (ℕ → ℕ) → ChardevFile → Moved
  beyond : ℕ → (ℕ → ℕ) → ChardevFile → Moved

-- One byte: `dst[*idst] = src[*isrc]; this_file->cursor++`, from the buffer when `dir` is not 0.
abbrev pub mov_byte : Bool → ℕ → (ℕ → ℕ) → ChardevFile → (ℕ → ℕ) × ChardevFile
mov_byte true i buf f =
    (buf, record f { contents = update f.contents f.cursor (buf i); cursor = f.cursor + 1 })
mov_byte false i buf f = (update buf i (f.contents f.cursor), record f { cursor = f.cursor + 1 })

-- The loop over the first seven sectors, with `n` bytes left from `i` on.
unfoldable pub mov_loop : ℕ → ℕ → Bool → (ℕ → ℕ) → ChardevFile → ℕ × ((ℕ → ℕ) × ChardevFile)
mov_loop zero i dir buf f = (i, (buf, f))
mov_loop (suc n) i dir buf f =
    let rest = (let (buf', f') = mov_byte dir i buf f in mov_loop n (i + 1) dir buf' f') in
    if ltb f.cursor first_bytes then rest else (i, (buf, f))

-- How many bytes are moved: `size` cut at the end of the file, in unsigned words.
abbrev pub mov_size : ℕ → ChardevFile → ℕ
mov_size size f = if ltb f.size (add32 size f.cursor) then sub32 f.size f.cursor else size

-- `if (this_file->cursor >= 7 * FAT12_SECT_SIZE) this_file->cur_page = ...`
abbrev pub turn_page : ChardevFile → ChardevFile
turn_page f = record f {
  cur_page = if leb first_bytes f.cursor then f.data_pages 0 else f.cur_page;
}

-- `chardev_file_mov`
unfoldable pub chardev_file_mov : Bool → ℕ → (ℕ → ℕ) → ChardevFile → Moved
chardev_file_mov dir size buf f =
    let n = mov_size size f in
    let (i, (buf', f')) = mov_loop n 0 dir buf f in
    if ltb f.cursor first_bytes
    then (if i == n then moved n buf' (turn_page f') else beyond n buf' (turn_page f'))
    else beyond n buf f

-- `chardev_file_read`
unfoldable pub chardev_file_read : ℕ → (ℕ → ℕ) → ChardevFile → Moved
chardev_file_read size buf f = chardev_file_mov false size buf f

-- `chardev_file_write`: the bytes go into a buffer of the function, and `dir` is 0 here too. `junk`
-- is what that buffer holds before.
unfoldable pub chardev_file_write : ℕ → List ℕ → (ℕ → ℕ) → ChardevFile → Moved
chardev_file_write size buf junk f = chardev_file_mov false size (strncpy junk buf size).1 f

-- `while (c--) file->cur_sectors = file->cur_sectors->next`
unfoldable pub skip : ℕ → FileSectors → ℕ → ℕ
skip zero m at = at
skip (suc c) m at = skip c m (m.next at)

-- `chardev_file_seek` on the file at address `this`. Behind the loop `c` is -1, whatever it was.
unfoldable pub chardev_file_seek : ℕ → FileSectors → ℕ → ChardevFile → ℕ × ChardevFile
chardev_file_seek this m pos f =
    let c = (pos - first_level) / (1023 * 512 * 512) in
    let sectors = skip c m f.more_pages in
    if ltb pos first_bytes
    then (pos, record f { cur_sectors = 0; cur_page = this; cursor = pos })
    else if ltb pos first_level
    then (
      pos,
      record f {
        cur_sectors = 0;
        cur_page = f.data_pages ((pos - first_bytes) / page_bytes);
        cursor = pos;
      },
    )
    else (
      pos,
      record f {
        cur_sectors = sectors;
        cur_page = m.pages sectors (minus_one / page_bytes);
        cursor = pos;
      },
    )

-- `chardev_file_flush`
abbrev pub chardev_file_flush : ℕ
chardev_file_flush = 0
