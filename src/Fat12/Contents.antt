-- ===== src/Fat12/Contents.antt =====
-- What an open file holds, and what reading and writing it do.
use pso.Base.{
  ℕ, zero, suc, ◌+◌, ◌-◌, ◌/◌, ◌%◌, ◌≤◌, ◌<◌, if◌then◌else◌, ltb, leb, ◌&&◌, true, Option, none,
  some, List, ◌≡◌, refl, ap, ◌∙◌, arith, ◌⊎◌, inl, inr,
}
use pso.Fat12.{Fat12, next_sector, DirEntry, find_file}
use pso.Fat12.File.{ChardevFile}
use pso.Fat12.Open.{
  BlockDev, data_start, sect_count, place, open_loop, new_file, open_entry, fat12_open,
}

-- The sectors of a file, from the first on.
unfoldable pub chain : Fat12 → ℕ → ℕ → ℕ
chain fat zero first = first
chain fat (suc i) first = chain fat i (next_sector fat.fat first)

module _ {D : Type 0} (dev : BlockDev D) (disk : ℕ → ℕ → ℕ) where
  -- A device that reads what `disk` has in a sector.
  pub record IsDisk : Type 0 where
    pub reads :
        (pos : ℕ) (d : D)
        → (bytes : ℕ → ℕ) × (d' : D) × ((dev.read pos 512 d ≡ (some bytes, d'))
            × ((i : ℕ) → i < 512 → bytes i ≡ disk pos i))

  next :
      (fat : Fat12) (q i sector : ℕ)
      → i + 1 ≤ q
      → chain fat (q - i) sector ≡ chain fat (q - (i + 1)) (next_sector fat.fat sector)
  unfolding chain
  next fat q i sector h = ap (λ m. chain fat m sector) (count q i h)
    where
      count : (q i : ℕ) → i + 1 ≤ q → q - i ≡ suc (q - (i + 1))
      count q i h = omega (arith, h)

  start : (fat : Fat12) (q i sector : ℕ) → q ≡ i → chain fat (q - i) sector ≡ sector
  unfolding chain
  start fat q i sector h = ap (λ m. chain fat m sector) (count q i h)
    where
      count : (q i : ℕ) → q ≡ i → q - i ≡ zero
      count q i h = omega (arith, h)

  places : (q i : ℕ) → (q ≡ i) ⊎ (i + 1 ≤ q) ⊎ (q + 1 ≤ i)
  places q i = ground arith

  merge :
      (fat : Fat12) (n i sector : ℕ) (contents bytes : ℕ → ℕ) (k : ℕ)
      → ((j : ℕ) → j < 512 → bytes j ≡ disk (data_start fat.boot_sect + sector) j)
      → (if leb (i + 1) (k / 512) && ltb (k / 512) (i + 1 + n)
          then disk
              (data_start fat.boot_sect
                + chain fat (k / 512 - (i + 1)) (next_sector fat.fat sector))
              (k % 512)
          else place i bytes contents k)
        ≡ (if leb i (k / 512) && ltb (k / 512) (i + suc n)
            then disk (data_start fat.boot_sect + chain fat (k / 512 - i) sector) (k % 512)
            else contents k)
  merge fat n i sector contents bytes k p = elim (places (k / 512) i) [
    | inl e ↦ rw (start fat (k / 512) i sector e) (ground (arith, e, p (k % 512) (omega arith)))
    | inr (inl e) ↦ rw (next fat (k / 512) i sector e) (ground (arith, e))
    | inr (inr e) ↦ ground (arith, e)
  ]

  opened :
      (fat : Fat12) (n i sector : ℕ) (contents : ℕ → ℕ) (d : D) (bytes : ℕ → ℕ) (d' : D)
      → dev.read (data_start fat.boot_sect + sector) 512 d ≡ (some bytes, d')
      → open_loop dev fat (suc n) i sector contents d
        ≡ open_loop dev fat n (i + 1) (next_sector fat.fat sector) (place i bytes contents) d'
  unfolding open_loop
  opened fat n i sector contents d bytes d' e =
      ap
        (λ (r : Option (ℕ → ℕ) × D). elim r.0 as (λ x. Option (ℕ → ℕ) × D) [
          | none ↦ (none, r.1)
          | some b ↦
              open_loop dev fat n (i + 1) (next_sector fat.fat sector) (place i b contents) r.1
        ])
        e

  loaded :
      (fat : Fat12) (n i sector : ℕ) (contents : ℕ → ℕ) (d : D)
      → IsDisk
      → (result : ℕ → ℕ) × ((open_loop dev fat n i sector contents d).0 ≡ some result)
        × ((k : ℕ)
            → result k ≡ (
                if leb i (k / 512) && ltb (k / 512) (i + n)
                then disk (data_start fat.boot_sect + chain fat (k / 512 - i) sector) (k % 512)
                else contents k))
  unfolding open_loop chain
  loaded fat zero i sector contents d h = (contents, refl, λ k. ground arith)
  loaded fat (suc n) i sector contents d h =
      let (bytes, d', (e, p)) = h.reads (data_start fat.boot_sect + sector) d in
      let (result, q, r) =
        loaded fat n (i + 1) (next_sector fat.fat sector) (place i bytes contents) d' h in
      (
        result,
        ap (λ x. x.0) (opened fat n i sector contents d bytes d' e) ∙ q,
        λ k. r k ∙ merge fat n i sector contents bytes k p,
      )

  entry_of_name :
      (fat : Fat12) (page : ℕ) (filename : List ℕ) (d : D) (e : DirEntry)
      → find_file fat filename ≡ some e
      → fat12_open dev fat page filename d ≡ open_entry dev fat page filename d e
  unfolding fat12_open
  entry_of_name fat page filename d e p =
      ap
        (λ o. elim o as (λ x. Option ChardevFile × D) [
          | none ↦ (none, d)
          | some e' ↦ open_entry dev fat page filename d e'
        ])
        p

  open_of :
      (fat : Fat12) (page : ℕ) (filename : List ℕ) (d : D) (e : DirEntry) (contents : ℕ → ℕ)
      → (open_loop dev fat (sect_count e.file_size) 0 e.fst_clus_lo (λ k. 0) d).0 ≡ some contents
      → (open_entry dev fat page filename d e).0 ≡ some (new_file page filename e contents)
  unfolding open_entry
  open_of fat page filename d e contents q =
      let d' : D = (open_loop dev fat (sect_count e.file_size) 0 e.fst_clus_lo (λ k. 0) d).1 in
      ap
        (λ (r : Option (ℕ → ℕ)).
          (elim r as (λ x. Option ChardevFile × D) [
            | none ↦ (none, d')
            | some c ↦ (some (new_file page filename e c), d')
          ]).0)
        q

  -- A file that the root directory has is opened, on a disk without errors, at its beginning, with
  -- the size of its entry. Behind the structure stands the file as far as its first seven sectors
  -- go: byte after byte, along the chain of sectors that begins with the entry's.
  pub fat12_open-contents :
      (fat : Fat12) (page : ℕ) (filename : List ℕ) (d : D) (e : DirEntry)
      → IsDisk
      → find_file fat filename ≡ some e
      → (f : ChardevFile) × (((fat12_open dev fat page filename d).0 ≡ some f)
          × ((f.cursor ≡ 0)
              × ((f.size ≡ e.file_size)
                  × ((k : ℕ)
                      → k < e.file_size
                      → k < 3584
                      → f.contents k
                        ≡ disk
                            (data_start fat.boot_sect + chain fat (k / 512) e.fst_clus_lo)
                            (k % 512)))))
  unfolding new_file
  fat12_open-contents fat page filename d e h p =
      let (contents, q, r) = loaded fat (sect_count e.file_size) 0 e.fst_clus_lo (λ k. 0) d h in
      (
        new_file page filename e contents,
        (
          ap (λ r. r.0) (entry_of_name fat page filename d e p)
              ∙ open_of fat page filename d e contents q,
          (refl, (refl, λ k a b. r k ∙ rw (within e.file_size k a b, first k) refl)),
        ),
      )
    where
      within :
          (size k : ℕ)
          → k < size
          → k < 3584
          → (leb 0 (k / 512) && ltb (k / 512) (0 + sect_count size)) ≡ true
      within size k a b = ground (arith, a, b)

      first : (k : ℕ) → k / 512 - 0 ≡ k / 512
      first k = omega arith
