-- ===== src/Fat12/Examples.antt =====
-- Tests of the file system, and runs of the theorems, on a disk of 1.44 MB with one file.
use pso.Base.{
  ℕ, zero, suc, ◌+◌, ◌/◌, ◌%◌, ◌<◌, ◌==◌, if◌then◌else◌, true, List, [], ◌∷◌, ◌++◌, none, some, ◌≡◌,
  refl, arith, ◌⊎◌,
}
use pso.Fat12.{
  BootSector, DirEntry, Fat12, next_sector, entry_of, is_file, find_file, find_loop, found, cut,
}
use pso.LibStr.{strncmp, strchr}
use pso.Fat12.Table.{table_bytes, next_sector-table}
use pso.Fat12.Names.{IsName, IsEntry}
use pso.Fat12.Directory.{Wanted, find_file-first}
use pso.Fat12.File.{
  ChardevFile, FileSectors, moved, chardev_file_read, chardev_file_seek, chardev_file_write,
}
use pso.Fat12.Open.{BlockDev, data_start, new_file, fat12_open}
use pso.Fat12.Contents.{chain, IsDisk}
use pso.Fat12.Access.{chardev_file_write-keeps}
use pso.Fat12.Session.{readable, open_seek_read}

abbrev values : ℕ → ℕ
values i = if i == 2 then 5 else 0xFFF

values_lem : (i : ℕ) → values i < 4096
values_lem i = ground arith

next_sector-table_example : next_sector (entry_of (table_bytes values)) 2 ≡ values 2
next_sector-table_example = next_sector-table values values_lem 2

abbrev entry : List ℕ → List ℕ → ℕ → DirEntry
entry filename extension attributes = record {
  filename = filename;
  extension = extension;
  attributes = attributes;
  nt_res = 0;
  crt_time_tenth = 0;
  crt_time = 0;
  crt_date = 0;
  lst_acc_date = 0;
  fst_clus_hi = 0;
  wrt_time = 0;
  wrt_date = 0;
  fst_clus_lo = 2;
  file_size = 700;
}

-- "KRYPTO  " and "TSK"
abbrev krypto : DirEntry
krypto = entry (75 ∷ 82 ∷ 89 ∷ 80 ∷ 84 ∷ 79 ∷ 32 ∷ 32 ∷ []) (84 ∷ 83 ∷ 75 ∷ []) 32

abbrev unused : DirEntry
unused = entry (0 ∷ []) [] 0

abbrev root_dir : ℕ → DirEntry
root_dir (suc zero) = krypto
root_dir j = unused

abbrev boot_sect : BootSector
boot_sect = record {
  bytes_per_sector = 512;
  sectors_per_cluster = 1;
  reserved_sectors = 1;
  fat_count = 2;
  max_root_entries = 224;
  media_descriptor = 0xF0;
  sectors_per_fat = 9;
}

abbrev fat : Fat12
fat = record {
  boot_sect = boot_sect;
  fat = entry_of (table_bytes values);
  cache = record { root_dir = root_dir; sector = λ i. 1 };
}

-- "K"
abbrev k_name : List ℕ
k_name = 75 ∷ []

-- "TSK"
abbrev tsk : List ℕ
tsk = 84 ∷ 83 ∷ 75 ∷ []

k_name-IsName : IsName k_name tsk
k_name-IsName = record {
  bytes = ((omega arith, omega arith), tt);
  ext_bytes =
      ((omega arith, omega arith), ((omega arith, omega arith), ((omega arith, omega arith), tt)));
  no_point = (omega arith, tt);
  short = omega arith;
}

krypto-IsEntry : IsEntry krypto
krypto-IsEntry = record {
  bytes = ground arith;
  ext_bytes = ground arith;
  name_field = omega arith;
  ext_field = omega arith;
}

entries : (j : ℕ) → j < 224 → is_file (root_dir j) ≡ true → IsEntry (root_dir j)
unfolding is_file
entries zero l e = absurd (ground (arith, e))
entries (suc zero) l e = krypto-IsEntry
entries (suc (suc j)) l e = absurd (ground (arith, e))

-- The file krypto.tsk is found under the name of k.tsk.
find_file-first_example :
    ((j : ℕ) × ((j < 224)
        × ((find_file fat (k_name ++ 0x2E ∷ tsk) ≡ some (root_dir j))
            × ((is_file (root_dir j) ≡ true)
                × (Wanted k_name tsk (root_dir j)
                    × ((k : ℕ)
                        → k < j
                        → is_file (root_dir k) ≡ true
                        → ¬ Wanted k_name tsk (root_dir k)))))))
    ⊎ ((find_file fat (k_name ++ 0x2E ∷ tsk) ≡ none)
        × ((k : ℕ) → k < 224 → is_file (root_dir k) ≡ true → ¬ Wanted k_name tsk (root_dir k)))
find_file-first_example = find_file-first fat k_name tsk k_name-IsName entries

k_finds_krypto : find_file fat (k_name ++ 0x2E ∷ tsk) ≡ some krypto
unfolding find_file find_loop is_file found strncmp strchr cut
k_finds_krypto = refl

-- A deleted entry is taken for a file.
deleted_is_file : is_file (entry (0xE5 ∷ []) [] 32) ≡ true
unfolding is_file
deleted_is_file = refl

-- The bytes of the disk.
abbrev disk : ℕ → ℕ → ℕ
disk pos i = (pos + i) % 256

abbrev drive : BlockDev ℕ
drive = record { read = λ pos size d. (some (disk pos), d); ioctl = λ command v d. d }

drive-IsDisk : IsDisk drive disk
drive-IsDisk = record { reads = λ pos d. (disk pos, d, (refl, λ i l. refl)) }

abbrev no_sectors : FileSectors
no_sectors = record { next = λ a. 0; pages = λ a i. 0 }

abbrev clear : ℕ → ℕ
clear k = 0

open_seek_read_example :
    (f : ChardevFile) × (buf' : ℕ → ℕ) × (f' : ChardevFile) × (((fat12_open drive fat 4096
          (k_name ++ 0x2E ∷ tsk)
          0).0
        ≡ some f)
      × ((chardev_file_read 200 clear (chardev_file_seek 4096 no_sectors 600 f).1
            ≡ moved (readable 200 600 700) buf' f')
          × ((k : ℕ)
              → k < readable 200 600 700
              → buf' k
                ≡ disk (data_start boot_sect + chain fat ((600 + k) / 512) 2) ((600 + k) % 512))))
open_seek_read_example =
    open_seek_read drive disk fat 4096 (k_name ++ 0x2E ∷ tsk) 0 krypto no_sectors 600 200 clear
      drive-IsDisk k_finds_krypto (omega arith) (omega arith) (omega arith) (omega arith)
      (omega arith)

abbrev a_file : ChardevFile
a_file = new_file 4096 (k_name ++ 0x2E ∷ tsk) krypto (disk 33)

chardev_file_write-keeps_example :
    (buf' : ℕ → ℕ) × (f' : ChardevFile) × (chardev_file_write 3 tsk clear a_file ≡ moved 3 buf' f')
    × (f'.contents ≡ a_file.contents)
    × (f'.cursor ≡ 3)
    × (f'.size ≡ a_file.size)
    × (f'.name ≡ a_file.name)
unfolding new_file
chardev_file_write-keeps_example =
    chardev_file_write-keeps 3 tsk clear a_file (omega arith) (omega arith) (omega arith)
      (omega arith) (omega arith)
