-- ===== src/Mm/Paging/Map.antt =====
-- What mapping a page does to the addresses of a directory.
use pso.Base.{ℕ, ◌/◌, ◌≡◌, ◌≢◌, refl, sym, ap, ◌∙◌, true, false, some, arith, ==_refl, ==_ne}
use pso.Mm.{Bits, Entry, Mm, mm_mem_kalloc, page_size}
use pso.Mm.Paging.{
  is_present, ind_td, ind_tp, set_entry, entry_for, find_table, write_entry, map_into, mm_page_map,
  mm_page_free, frame_of, with_bit, p_bit, size_bit,
}

-- The page is mapped in the directory: both entries are present.
abbrev pub IsMapped : ℕ → ℕ → Mm → Type 0
IsMapped virtual cr3 m =
    (is_present (m.tables cr3 (ind_td virtual)) ≡ true)
    × (is_present (m.tables (m.tables cr3 (ind_td virtual)).base (ind_tp virtual)) ≡ true)

-- A write into a table that is not the directory leaves the directory, and the walk finds the entry.
kept : (t i cr3 : ℕ) (e : Entry) (m : Mm) → t ≢ cr3 → (set_entry t i e m).tables cr3 ≡ m.tables cr3
kept t i cr3 e m d = rw (==_ne cr3 t (λ f. d (sym f))) refl

walked :
    (virtual cr3 : ℕ) (e : Entry) (m : Mm)
    → (m.tables cr3 (ind_td virtual)).base ≢ cr3
    → let m' = set_entry (m.tables cr3 (ind_td virtual)).base (ind_tp virtual) e m in
      m'.tables (m'.tables cr3 (ind_td virtual)).base (ind_tp virtual) ≡ e
walked virtual cr3 e m d =
    let t = (m.tables cr3 (ind_td virtual)).base in
    let m' = set_entry t (ind_tp virtual) e m in
    ap (λ r. m'.tables (r (ind_td virtual)).base (ind_tp virtual))
      (kept t (ind_tp virtual) cr3 e m d)
    ∙ (rw (==_refl t, ==_refl (ind_tp virtual)) refl)

write_entry_lem :
    (virtual cr3 frame : ℕ) (attr : Bits) (m : Mm)
    → is_present (m.tables cr3 (ind_td virtual)) ≡ true
    → (m.tables cr3 (ind_td virtual)).base ≢ cr3
    → IsMapped virtual cr3 (write_entry virtual cr3 frame attr m)
      × (frame_of virtual cr3 (write_entry virtual cr3 frame attr m) ≡ frame)
write_entry_lem virtual cr3 frame attr m p d =
    let t = (m.tables cr3 (ind_td virtual)).base in
    let w = walked virtual cr3 (entry_for frame attr) m d in
    (
      (
        ap (λ r. is_present (r (ind_td virtual)))
              (kept t (ind_tp virtual) cr3 (entry_for frame attr) m d)
            ∙ p,
        ap is_present w ∙ ground arith,
      ),
      ap (λ e. e.base) w,
    )

-- A table for the page is there, or can be had: a page frame of its own, not the directory's.
pub data HasTable (virtual cr3 : ℕ) (m : Mm) : Type 0 where
  present :
      is_present (m.tables cr3 (ind_td virtual)) ≡ true
      → (m.tables cr3 (ind_td virtual)).base ≢ cr3
      → HasTable virtual cr3 m
  absent :
      is_present (m.tables cr3 (ind_td virtual)) ≡ false
      → (mm_mem_kalloc m).0 ≢ 0
      → (mm_mem_kalloc m).0 / page_size ≢ cr3
      → HasTable virtual cr3 m

find_table_lem :
    (virtual cr3 : ℕ) (attr : Bits) (m : Mm)
    → HasTable virtual cr3 m
    → (m' : Mm) × (find_table virtual cr3 attr m ≡ some m')
      × (is_present (m'.tables cr3 (ind_td virtual)) ≡ true)
      × ((m'.tables cr3 (ind_td virtual)).base ≢ cr3)
unfolding find_table
find_table_lem virtual cr3 attr m (present p d) = (m, rw p refl, p, d)
find_table_lem virtual cr3 attr m (absent p n d) =
    let (page, m₁) = mm_mem_kalloc m in
    (
      set_entry cr3 (ind_td virtual) (entry_for (page / page_size) attr) m₁,
      rw (p, ==_ne page 0 n) refl,
      rw (==_refl cr3, ==_refl (ind_td virtual)) (ground arith),
      rw (==_refl cr3, ==_refl (ind_td virtual)) d,
    )

-- Mapping a page of 4 KB succeeds when its table is there or can be had, and then the address is
-- mapped in the directory, to the frame asked for.
pub mm_page_map_lem :
    (virtual cr3 frame : ℕ) (attr : Bits) (m : Mm)
    → HasTable virtual cr3 m
    → (m' : Mm) × (mm_page_map virtual cr3 frame false attr m ≡ some m')
      × IsMapped virtual cr3 m'
      × (frame_of virtual cr3 m' ≡ frame)
unfolding mm_page_map
mm_page_map_lem virtual cr3 frame attr m h =
    let (m₁, e, p, d) = find_table_lem virtual cr3 attr m h in
    let (q, r) = write_entry_lem virtual cr3 frame attr m₁ p d in
    (write_entry virtual cr3 frame attr m₁, ap (map_into virtual cr3 frame attr) e, q, r)

-- Unmapping an address that is mapped, through a table that is no page of 4 MB and not the directory
-- itself, returns its frame, and the address is not mapped afterwards.
pub mm_page_free_lem :
    (virtual cr3 : ℕ) (m : Mm)
    → IsMapped virtual cr3 m
    → (m.tables cr3 (ind_td virtual)).attr size_bit ≡ false
    → (m.tables cr3 (ind_td virtual)).base ≢ cr3
    → ((mm_page_free virtual cr3 m).0 ≡ some (frame_of virtual cr3 m))
      × ¬ IsMapped virtual cr3 (mm_page_free virtual cr3 m).1
unfolding mm_page_free
mm_page_free_lem virtual cr3 m (p, q) s d =
    let t = (m.tables cr3 (ind_td virtual)).base in
    let e = with_bit p_bit false (m.tables t (ind_tp virtual)) in
    let w = walked virtual cr3 e m d in
    rw (s, p) (refl, λ (a, b). ground (arith, sym b ∙ ap is_present w))
