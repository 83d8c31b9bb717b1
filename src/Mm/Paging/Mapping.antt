-- ===== src/Mm/Paging/Mapping.antt =====
-- `mm_page_map` in full: where the address leads afterwards, and what of the memory stays as it was.
use pso.Base.{
  ℕ, ◌-◌, ◌/◌, ◌<◌, ◌≡◌, ◌≢◌, refl, sym, ap, ◌∙◌, subst, true, false, inl, inr, Bool-cases, some,
  arith, ==_refl, ==_ne,
}
use pso.Mm.{Bits, Mm, mm_mem_kalloc, page_frame_info_alloc, krn_mem_start, page_size}
use pso.Mm.Frames.{used}
use pso.Mm.Paging.{
  is_present, ind_td, ind_tp, set_entry, entry_for, find_table, write_entry, mm_page_map,
  mm_page_free, size_bit, frame_of, kernel_temp_page,
}
use pso.Mm.Paging.Kept.{Taken, IsKernelPage, Grows, set_entry-other, mm_mem_kalloc-Allocated}

-- The frame of the table that an address goes through.
abbrev pub table_of : ℕ → ℕ → Mm → ℕ
table_of v c m = (m.tables c (ind_td v)).base

-- A frame of the kernel that is in use and is not the directory.
abbrev pub IsTable : Mm → ℕ → ℕ → Type 0
IsTable m c t = Taken m t × (t < 1024) × (t ≢ c)

-- The directory that runs has a table for the temporary page.
pub record IsRunning (c : ℕ) (m : Mm) : Type 0 where
  pub dir : Taken m c × (c < 1024)
  pub present : is_present (m.tables c (ind_td kernel_temp_page)) ≡ true
  pub small : (m.tables c (ind_td kernel_temp_page)).attr size_bit ≡ false
  pub table : IsTable m c (table_of kernel_temp_page c m)

-- Address `v` leads to `frame` in the directory `c` of `m'`, through a table of the kernel's; no frame
-- that is in use in `m` has changed but the directory, in that one entry, and the table; and a table
-- that was not there before is one that was free.
pub record Maps (v c frame : ℕ) (m m' : Mm) : Type 0 where
  pub grows : Grows m m'
  pub present : is_present (m'.tables c (ind_td v)) ≡ true
  pub leads : frame_of v c m' ≡ frame
  pub table : IsTable m' c (table_of v c m')
  pub same : (u : ℕ) → Taken m u → u ≢ c → u ≢ table_of v c m' → m'.tables u ≡ m.tables u
  pub others : (i : ℕ) → i ≢ ind_td v → m'.tables c i ≡ m.tables c i
  pub fresh : is_present (m.tables c (ind_td v)) ≡ false → Taken m (table_of v c m') → ⊥

pub written_dir :
    (v c frame : ℕ) (attr : Bits) (m : Mm)
    → table_of v c m ≢ c
    → (write_entry v c frame attr m).tables c ≡ m.tables c
written_dir v c frame attr m d =
    set_entry-other (table_of v c m) (ind_tp v) c (entry_for frame attr) m (λ e. d (sym e))

pub written_leads :
    (v c frame : ℕ) (attr : Bits) (m : Mm)
    → table_of v c m ≢ c
    → frame_of v c (write_entry v c frame attr m) ≡ frame
written_leads v c frame attr m d =
    ap (λ r. ((write_entry v c frame attr m).tables (r (ind_td v)).base (ind_tp v)).base)
      (written_dir v c frame attr m d)
    ∙ rw (==_refl (table_of v c m), ==_refl (ind_tp v)) refl

-- Where the table is there.
pub write_entry-Maps :
    (v c frame : ℕ) (attr : Bits) (m : Mm)
    → is_present (m.tables c (ind_td v)) ≡ true
    → IsTable m c (table_of v c m)
    → Maps v c frame m (write_entry v c frame attr m)
write_entry-Maps v c frame attr m p t =
    let kept = written_dir v c frame attr m t.2 in
    let table_kept : table_of v c (write_entry v c frame attr m) ≡ table_of v c m =
      ap (λ r. (r (ind_td v)).base) kept in
    record {
      grows = record { taken = λ u x. x };
      present = ap (λ r. is_present (r (ind_td v))) kept ∙ p;
      leads = written_leads v c frame attr m t.2;
      table = subst (IsTable m c) (sym table_kept) t;
      same = λ u x d e.
          set_entry-other (table_of v c m) (ind_tp v) u (entry_for frame attr) m
            (λ f. e (f ∙ sym table_kept));
      others = λ i d. ap (λ r. r i) kept;
      fresh = λ n x. absurd (cc (p, n));
    }

-- The memory when a new table has been entered into the directory.
pub opened : ℕ → ℕ → Bits → Mm → Mm
opened v c attr m =
    set_entry c (ind_td v) (entry_for ((mm_mem_kalloc m).0 / page_size) attr) (mm_mem_kalloc m).1

opened_entry :
    (v c : ℕ) (attr : Bits) (m : Mm)
    → (opened v c attr m).tables c (ind_td v) ≡ entry_for ((mm_mem_kalloc m).0 / page_size) attr
unfolding opened
opened_entry v c attr m = rw (==_refl c, ==_refl (ind_td v)) refl

opened-others :
    (v c : ℕ) (attr : Bits) (m : Mm) (i : ℕ)
    → i ≢ ind_td v
    → (opened v c attr m).tables c i ≡ (mm_mem_kalloc m).1.tables c i
unfolding opened
opened-others v c attr m i d = rw (==_refl c, ==_ne i (ind_td v) d) refl

-- Where a table has to be asked for, and there is a frame.
pub opened-Maps :
    (v c frame : ℕ) (attr : Bits) (m : Mm)
    → IsKernelPage (mm_mem_kalloc m).0
    → Taken m c
    → is_present (m.tables c (ind_td v)) ≡ false
    → (mm_mem_kalloc m).0 ≢ 0
    → Maps v c frame m (write_entry v c frame attr (opened v c attr m))
unfolding opened
opened-Maps v c frame attr m b x p n =
    let a = mm_mem_kalloc-Allocated m b in
    let f = (mm_mem_kalloc m).0 / page_size in
    let m₂ = opened v c attr m in
    let e = opened_entry v c attr m in
    let there : is_present (m₂.tables c (ind_td v)) ≡ true = ap is_present e ∙ ground arith in
    let base : table_of v c m₂ ≡ f = ap (λ r. r.base) e in
    let (free, taken) = a.fresh n in
    let ne : f ≢ c = λ d. free (subst (Taken m) (sym d) x) in
    let table : IsTable m₂ c (table_of v c m₂) =
      subst (IsTable m₂ c) (sym base) (taken, a.below, ne) in
    let w = write_entry-Maps v c frame attr m₂ there table in
    let kept = written_dir v c frame attr m₂ table.2 in
    record {
      grows = record { taken = λ u y. w.grows.taken u (a.grows.taken u y) };
      present = w.present;
      leads = w.leads;
      table = w.table;
      same = λ u y d g.
          w.same u (a.grows.taken u y) d g
          ∙ set_entry-other c (ind_td v) u (entry_for f attr) (mm_mem_kalloc m).1 d
          ∙ a.same u y;
      others =
          λ i d. ap (λ r. r i) kept ∙ opened-others v c attr m i d ∙ ap (λ r. r i) (a.same c x);
      fresh = λ q y. free (subst (Taken m) (ap (λ r. (r (ind_td v)).base) kept ∙ base) y);
    }

pub mm_page_map_present :
    (v c frame : ℕ) (attr : Bits) (m : Mm)
    → is_present (m.tables c (ind_td v)) ≡ true
    → mm_page_map v c frame false attr m ≡ some (write_entry v c frame attr m)
unfolding mm_page_map find_table
mm_page_map_present v c frame attr m p = rw p refl

pub mm_page_map_absent :
    (v c frame : ℕ) (attr : Bits) (m : Mm)
    → is_present (m.tables c (ind_td v)) ≡ false
    → (mm_mem_kalloc m).0 ≢ 0
    → mm_page_map v c frame false attr m ≡ some (write_entry v c frame attr (opened v c attr m))
unfolding mm_page_map find_table opened
mm_page_map_absent v c frame attr m p n = rw (p, ==_ne (mm_mem_kalloc m).0 0 n) refl

-- Unmapping writes into the directory or the table only.
pub mm_page_free-other :
    (v c u : ℕ) (m : Mm) → u ≢ c → u ≢ table_of v c m → (mm_page_free v c m).1.tables u ≡ m.tables u
unfolding mm_page_free
mm_page_free-other v c u m d e =
    let entry = m.tables c (ind_td v) in
    elim (Bool-cases (entry.attr size_bit)) [
      | inl big ↦ rw (big, ==_ne u c d) refl
      | inr small ↦ (elim (Bool-cases (is_present entry)) [
        | inl there ↦ rw (small, there, ==_ne u (table_of v c m) e) refl
        | inr gone ↦ rw (small, gone) refl
      ])
    ]

-- The frames in use are those that the array has.
pub Taken_info : (m m' : Mm) (u : ℕ) → m'.kernel_pf_info ≡ m.kernel_pf_info → Taken m u → Taken m' u
Taken_info m m' u e (inl a) = inl a
Taken_info m m' u e (inr (a, b, d)) = inr (a, b, ap (λ p. used p (u - 256)) e ∙ d)

pub mm_mem_kalloc_info :
    (m m' : Mm) → m'.kernel_pf_info ≡ m.kernel_pf_info → (mm_mem_kalloc m').0 ≡ (mm_mem_kalloc m).0
unfolding mm_mem_kalloc
mm_mem_kalloc_info m m' e = ap (λ p. (page_frame_info_alloc p 96 krn_mem_start).0) e
