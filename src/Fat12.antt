-- ===== src/Fat12.antt =====
-- The FAT12 file system: tp1/src/kernel/fat12.c, tp1/src/include/fat12.h. Here the structures, the
-- table and the search of the root directory; Fat12/File.antt has the open file, Fat12/Open.antt
-- the functions that read the disk. A `char` is its byte, as in LibStr.antt.
pub mod Table
mod Names
pub mod Directory
pub mod File
pub mod Open
pub mod Contents
pub mod Access
pub mod Session
mod Examples
use Prim.Native.Nat.{bit_and}
use pso.Base.{
  ℕ, zero, suc, ◌+◌, ◌-◌, ◌*◌, ◌/◌, ◌%◌, ◌^◌, ◌==◌, if◌then◌else◌, ltb, leb, not, ◌&&◌, Bool,
  Option, none, some, List, [], ◌∷◌, ◌++◌, minus_one, add32,
}
use pso.LibStr.{int_of, first_byte, strncmp, strchr}

-- `boot_sector`, the fields that the code reads.
pub record BootSector : Type 0 where
  pub bytes_per_sector : ℕ
  pub sectors_per_cluster : ℕ
  pub reserved_sectors : ℕ
  pub fat_count : ℕ
  pub max_root_entries : ℕ
  pub media_descriptor : ℕ
  pub sectors_per_fat : ℕ

-- `dir_entry`. Times and dates are words.
pub record DirEntry : Type 0 where
  pub filename : List ℕ
  pub extension : List ℕ
  pub attributes : ℕ
  pub nt_res : ℕ
  pub crt_time_tenth : ℕ
  pub crt_time : ℕ
  pub crt_date : ℕ
  pub lst_acc_date : ℕ
  pub fst_clus_hi : ℕ
  pub wrt_time : ℕ
  pub wrt_date : ℕ
  pub fst_clus_lo : ℕ
  pub file_size : ℕ

-- `fat12_entry`: three bytes, two entries of 12 bits.
pub record Fat12Entry : Type 0 where
  pub first : ℕ
  pub second : ℕ

-- `fat12_cache`
pub record Fat12Cache : Type 0 where
  pub root_dir : ℕ → DirEntry
  pub sector : ℕ → ℕ

-- `fat12`, without the device.
pub record Fat12 : Type 0 where
  pub boot_sect : BootSector
  pub fat : ℕ → Fat12Entry
  pub cache : Fat12Cache

-- `fat12_next_sector`
unfoldable pub next_sector : (ℕ → Fat12Entry) → ℕ → ℕ
next_sector fat index =
    let offset = index / 2 in if index % 2 == 0 then (fat offset).first else (fat offset).second

-- How the packed structure lies in memory: the first entry in the low 12 of the 24 bits.
unfoldable pub entry_of : (ℕ → ℕ) → ℕ → Fat12Entry
entry_of bytes offset = record {
  first = bytes (3 * offset) + bytes (3 * offset + 1) % 16 * 256;
  second = bytes (3 * offset + 1) / 16 + bytes (3 * offset + 2) * 16;
}

-- `isFile`. The byte 0xE5 of a deleted entry is negative as a `char`.
unfoldable pub is_file : DirEntry → Bool
is_file entry =
    let c = first_byte entry.filename in
    not (c == 0)
    && (not (int_of c == 0x05)
        && (not (int_of c == 0x2E)
            && (not (int_of c == 0xE5) && bit_and entry.attributes 0xDC == 0)))

-- The bytes from a place on, up to the first that is zero.
unfoldable pub cut : List ℕ → List ℕ
cut [] = []
cut (c ∷ cs) = let rest = cut cs in if c == 0 then [] else c ∷ rest

abbrev pub word_bytes : ℕ → List ℕ
word_bytes w = w % 256 ∷ w / 256 % 256 ∷ []

-- The bytes of an entry behind the extension.
abbrev pub entry_rest : DirEntry → List ℕ
entry_rest e =
    e.attributes ∷ e.nt_res ∷ e.crt_time_tenth ∷ word_bytes e.crt_time
    ++ word_bytes e.crt_date
    ++ word_bytes e.lst_acc_date
    ++ word_bytes e.fst_clus_hi
    ++ word_bytes e.wrt_time
    ++ word_bytes e.wrt_date
    ++ word_bytes e.fst_clus_lo
    ++ word_bytes (e.file_size % 65536)
    ++ word_bytes (e.file_size / 65536)

-- `filename + n`
abbrev pub behind : ℕ → List ℕ → List ℕ
behind zero s = s
behind (suc n) [] = []
behind (suc n) (c ∷ s) = behind n s

-- `min(8, strchr(filename, '.'))`, on ints: -1 is less than 8.
abbrev pub name_length : ℕ → ℕ
name_length dot = if ltb 8 dot && ltb dot (2 ^ 31) then 8 else dot

-- The test of `fat12_find_file` on an entry. The comparison of a name without a point goes on
-- behind the field, at most to the end of the entry here.
unfoldable pub found : List ℕ → DirEntry → Bool
found filename e =
    let dot = strchr filename 0x2E in
    strncmp filename (cut (e.filename ++ (e.extension ++ entry_rest e))) (name_length dot) == 0
    && strncmp (behind (add32 dot 1) filename) (cut (e.extension ++ entry_rest e)) 3 == 0

-- The loop of `fat12_find_file`, with `n` entries left from `i` on.
unfoldable pub find_loop : ℕ → ℕ → (ℕ → DirEntry) → List ℕ → Option DirEntry
find_loop zero i dir filename = none
find_loop (suc n) i dir filename =
    let rest = find_loop n (i + 1) dir filename in
    if is_file (dir i) && found filename (dir i) then some (dir i) else rest

-- `fat12_find_file`: `none` is `FILE_ERROR_NOTFOUND`.
unfoldable pub find_file : Fat12 → List ℕ → Option DirEntry
find_file fat filename = find_loop fat.boot_sect.max_root_entries 0 fat.cache.root_dir filename

-- `fat12_media_desc`: tracks, sectors in a track and sides, as they were for other descriptors.
unfoldable pub media_desc : ℕ → ℕ × (ℕ × ℕ) → ℕ × (ℕ × ℕ)
media_desc media old =
    if media == 0xF0
    then (80, (18, 2))
    else if media == 0xF9
    then (80, (9, 2))
    else if media == 0xFA
    then (80, (8, 1))
    else if media == 0xFB
    then (80, (8, 2))
    else if media == 0xFC
    then (40, (9, 1))
    else if media == 0xFD
    then (40, (9, 2))
    else if media == 0xFE
    then (40, (8, 1))
    else if media == 0xFF
    then (40, (8, 2))
    else old
