-- ===== src/Fat12/Open.antt =====
-- Reading the disk: `fat12_create` and `fat12_open` of fat12.c, over any block device.
use pso.Base.{
  ℕ, zero, suc, ◌+◌, ◌-◌, ◌*◌, ◌/◌, ◌%◌, ◌^◌, ◌==◌, if◌then◌else◌, ltb, leb, Option, none, some,
  List, [], ◌∷◌,
}
use pso.LibStr.{strlen, strncpy}
use pso.Fat12.{BootSector, DirEntry, Fat12, next_sector, entry_of, find_file, media_desc}
use pso.Fat12.File.{ChardevFile}

-- A block device: the bytes that a read of `size` bytes from a sector on gives, or an error, and
-- its configuration.
pub record BlockDev (D : Type 0) : Type 0 where
  pub read : ℕ → ℕ → D → Option (ℕ → ℕ) × D
  pub ioctl : ℕ → ℕ → D → D

-- Little-endian words in memory.
abbrev pub word_at : (ℕ → ℕ) → ℕ → ℕ
word_at bytes i = bytes i + bytes (i + 1) * 256

abbrev pub dword_at : (ℕ → ℕ) → ℕ → ℕ
dword_at bytes i = word_at bytes i + word_at bytes (i + 2) * 65536

unfoldable pub list_at : ℕ → (ℕ → ℕ) → ℕ → List ℕ
list_at zero bytes i = []
list_at (suc n) bytes i = bytes i ∷ list_at n bytes (i + 1)

-- What a read of `n` bytes leaves in pages that are clear.
abbrev pub upto : ℕ → (ℕ → ℕ) → ℕ → ℕ
upto n bytes i = if ltb i n then bytes i else 0

-- How the packed structures lie in memory.
unfoldable pub boot_sector_of : (ℕ → ℕ) → BootSector
boot_sector_of b = record {
  bytes_per_sector = word_at b 11;
  sectors_per_cluster = b 13;
  reserved_sectors = word_at b 14;
  fat_count = b 16;
  max_root_entries = word_at b 17;
  media_descriptor = b 21;
  sectors_per_fat = word_at b 22;
}

unfoldable pub dir_entry_of : (ℕ → ℕ) → ℕ → DirEntry
unfolding list_at
dir_entry_of b j =
    let i = 32 * j in
    record {
      filename = list_at 8 b i;
      extension = list_at 3 b (i + 8);
      attributes = b (i + 11);
      nt_res = b (i + 12);
      crt_time_tenth = b (i + 13);
      crt_time = word_at b (i + 14);
      crt_date = word_at b (i + 16);
      lst_acc_date = word_at b (i + 18);
      fst_clus_hi = word_at b (i + 20);
      wrt_time = word_at b (i + 22);
      wrt_date = word_at b (i + 24);
      fst_clus_lo = word_at b (i + 26);
      file_size = dword_at b (i + 28);
    }

-- The first sector behind the tables, and the sectors of the root directory.
abbrev pub root_start : BootSector → ℕ
root_start b = b.reserved_sectors + b.fat_count * b.sectors_per_fat

abbrev pub sect_per_root : BootSector → ℕ
sect_per_root b = b.max_root_entries * 32 / 512

-- `dataStart`, a word of 16 bits.
abbrev pub data_start : BootSector → ℕ
data_start b = (root_start b + b.max_root_entries * 32 / 512 + 2 ^ 16 - 2) % 2 ^ 16

-- `sectCount`
abbrev pub sect_count : ℕ → ℕ
sect_count size = if ltb 3584 size then 7 else size / 512 + (if ltb 0 (size % 512) then 1 else 0)

-- Sector `i` of a file goes to its place behind the structure.
abbrev pub place : ℕ → (ℕ → ℕ) → (ℕ → ℕ) → ℕ → ℕ
place i bytes contents k = if k / 512 == i then bytes (k % 512) else contents k

-- The structure before the sectors are read: `page` is the address of its page, which is clear.
unfoldable pub new_file : ℕ → List ℕ → DirEntry → (ℕ → ℕ) → ChardevFile
new_file page filename e contents = record {
  refcount = 1;
  cursor = 0;
  name = (strncpy (λ k. 0) filename (strlen filename)).1;
  size = e.file_size;
  cur_page = page;
  cur_sectors = 0;
  more_pages = 0;
  data_pages = λ st. 0;
  contents = contents;
}

module _ {D : Type 0} (dev : BlockDev D) where
  -- The three calls of `ioctl`; `old` is what the variables of `fat12_create` hold before.
  unfoldable pub configure : ℕ → ℕ × (ℕ × ℕ) → D → D
  configure media old d =
      let (cyl, (sect, head)) = media_desc media old in
      dev.ioctl 3 sect (dev.ioctl 2 head (dev.ioctl 1 cyl d))

  -- `fat12_create`: `none` where it gives up. Of the table four sectors are read. The pages that it
  -- allocates, and the cases where it has not got one, are left out.
  unfoldable pub fat12_create : ℕ × (ℕ × ℕ) → D → Option Fat12 × D
  fat12_create old d =
      let (boot, d1) = dev.read 0 62 d in
      elim boot [
        | none ↦ (none, d1)
        | some b ↦
            (let boot_sect = boot_sector_of b in
              let d2 = configure boot_sect.media_descriptor old d1 in
              let (table, d3) = dev.read boot_sect.reserved_sectors 2048 d2 in
              elim table [
                | none ↦ (none, d3)
                | some t ↦
                    (let (root, d4) =
                        dev.read (root_start boot_sect) (sect_per_root boot_sect * 512) d3 in
                      if leb 15 (sect_per_root boot_sect) then (none, d3) else elim root [
                        | none ↦ (none, d4)
                        | some r ↦ (
                          some (record {
                            boot_sect = boot_sect;
                            fat = entry_of (upto 2048 t);
                            cache = record {
                              root_dir = dir_entry_of (upto (sect_per_root boot_sect * 512) r);
                              sector = λ i. if ltb i (sect_per_root boot_sect) then 1 else 0;
                            };
                          }),
                          d4,
                        )
                      ])
              ])
      ]

  -- The loop of `fat12_open`, with `n` sectors left, the next being number `i` of the file.
  unfoldable pub open_loop : Fat12 → ℕ → ℕ → ℕ → (ℕ → ℕ) → D → Option (ℕ → ℕ) × D
  open_loop fat zero i sector contents d = (some contents, d)
  open_loop fat (suc n) i sector contents d =
      let (r, d') = dev.read (data_start fat.boot_sect + sector) 512 d in
      elim r [
        | none ↦ (none, d')
        | some bytes ↦
            open_loop fat n (i + 1) (next_sector fat.fat sector) (place i bytes contents) d'
      ]

  -- `fat12_open` behind the search, with the page that `mm_mem_kalloc` has returned.
  unfoldable pub open_entry : Fat12 → ℕ → List ℕ → D → DirEntry → Option ChardevFile × D
  unfolding open_loop new_file
  open_entry fat page filename d e =
      let (r, d') = open_loop fat (sect_count e.file_size) 0 e.fst_clus_lo (λ k. 0) d in
      elim r [ none ↦ (none, d') | some contents ↦ (some (new_file page filename e contents), d') ]

  -- `fat12_open`
  unfoldable pub fat12_open : Fat12 → ℕ → List ℕ → D → Option ChardevFile × D
  unfolding open_entry
  fat12_open fat page filename d = elim (find_file fat filename) [
    | none ↦ (none, d)
    | some e ↦ open_entry fat page filename d e
  ]
