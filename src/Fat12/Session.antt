-- ===== src/Fat12/Session.antt =====
-- Opening, seeking and reading a file in a row.
use pso.Base.{
  ℕ, ◌+◌, ◌-◌, ◌/◌, ◌%◌, ◌^◌, ◌≤◌, ◌<◌, if◌then◌else◌, ltb, leb, true, List, some, ◌≡◌, refl, ap,
  ◌∙◌, arith, subst,
}
use pso.Fat12.{Fat12, DirEntry, find_file}
use pso.Fat12.File.{
  ChardevFile, FileSectors, moved, chardev_file_read, chardev_file_seek, turn_page, first_bytes,
}
use pso.Fat12.Open.{BlockDev, data_start, fat12_open}
use pso.Fat12.Contents.{chain, IsDisk, fat12_open-contents}
use pso.Fat12.Access.{available, chardev_file_read-bytes}

seek_near :
    (this : ℕ) (m : FileSectors) (pos : ℕ) (f : ChardevFile)
    → pos < 3584
    → (chardev_file_seek this m pos f).1
      ≡ record f { cur_sectors = 0; cur_page = this; cursor = pos }
unfolding chardev_file_seek
seek_near this m pos f h = rw (near pos h) refl
  where
    near : (pos : ℕ) → pos < 3584 → ltb pos first_bytes ≡ true
    near pos h = ground (arith, h)

-- How many bytes a read of `size` bytes at `pos` gives of a file.
abbrev pub readable : ℕ → ℕ → ℕ → ℕ
readable size pos file_size = if leb size (file_size - pos) then size else file_size - pos

module _ (this : ℕ) (m : FileSectors) (pos size : ℕ) (buf : ℕ → ℕ) (f : ChardevFile) where
  Reads : ℕ → Type 0
  Reads file_size =
      pos ≤ file_size
      → file_size < 2 ^ 32
      → size + pos < 2 ^ 32
      → pos < 3584
      → pos + readable size pos file_size ≤ 3584
      → (buf' : ℕ → ℕ) × (f' : ChardevFile) × ((chardev_file_read size buf
              (chardev_file_seek this m pos f).1
            ≡ moved (readable size pos file_size) buf' f')
          × ((k : ℕ) → k < readable size pos file_size → buf' k ≡ f.contents (pos + k)))

  seek_read : Reads f.size
  unfolding Reads
  seek_read a b c d l =
      let g : ChardevFile = record f { cur_sectors = 0; cur_page = this; cursor = pos } in
      let (buf', (p, q)) = chardev_file_read-bytes size buf g a b c d l in
      (
        buf',
        turn_page (record g { cursor = pos + available size g }),
        (
          ap (chardev_file_read size buf) (seek_near this m pos f d) ∙ p,
          λ k h. q k ∙ rw (inside k (available size g) h) refl,
        ),
      )
    where
      inside : (k n : ℕ) → k < n → ltb k n ≡ true
      inside k n h = ground (arith, h)

-- A file of the root directory, on a disk without errors, is opened, set to a position and read
-- from, all within its first seven sectors. The read gives as many bytes as asked for or as the
-- file has behind the position, and these are the bytes of the disk along the file's chain of
-- sectors.
pub open_seek_read :
    {D : Type 0} (dev : BlockDev D) (disk : ℕ → ℕ → ℕ) (fat : Fat12) (page : ℕ) (filename : List ℕ)
    (d : D) (e : DirEntry) (m : FileSectors) (pos size : ℕ) (buf : ℕ → ℕ)
    → IsDisk dev disk
    → find_file fat filename ≡ some e
    → pos ≤ e.file_size
    → e.file_size < 2 ^ 32
    → size + pos < 2 ^ 32
    → pos < 3584
    → pos + readable size pos e.file_size ≤ 3584
    → (f : ChardevFile) × (buf' : ℕ → ℕ) × (f' : ChardevFile) × (((fat12_open dev fat page filename
            d).0
          ≡ some f)
        × ((chardev_file_read size buf (chardev_file_seek page m pos f).1
              ≡ moved (readable size pos e.file_size) buf' f')
            × ((k : ℕ)
                → k < readable size pos e.file_size
                → buf' k
                  ≡ disk
                      (data_start fat.boot_sect + chain fat ((pos + k) / 512) e.fst_clus_lo)
                      ((pos + k) % 512))))
unfolding Reads
open_seek_read dev disk fat page filename d e m pos size buf h p x y z v w =
    let (f, (o, (cur, (s, q)))) = fat12_open-contents dev disk fat page filename d e h p in
    let r : Reads page m pos size buf f e.file_size =
      subst (Reads page m pos size buf f) s (seek_read page m pos size buf f) in
    let (buf', f', (g, t)) = r x y z v w in
    (
      f,
      buf',
      f',
      (o, (g, λ k l. t k l ∙ q (pos + k) (below pos k size e.file_size l) (omega (arith, l, w)))),
    )
  where
    below : (pos k size n : ℕ) → k < readable size pos n → pos + k < n
    below pos k size n l = ground (arith, l)
