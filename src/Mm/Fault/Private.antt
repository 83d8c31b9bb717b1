-- ===== src/Mm/Fault/Private.antt =====
-- A write to a page that is copied on write, in full.
use pso.Base.{
  ℕ, ◌+◌, ◌-◌, ◌*◌, ◌/◌, ◌^◌, ◌≤◌, ◌<◌, ◌≡◌, ◌≢◌, refl, sym, ap, ◌∙◌, subst, true, false, some,
  update, arith, ==_refl, ==_ne,
}
use pso.Mm.{Entry, Mm, mm_mem_alloc, page_size}
use pso.Mm.Frames.{used}
use pso.Mm.Paging.{
  is_present, ind_td, ind_tp, rw_bit, cow_bit, frame_of, kernel_temp_page, mm_copy_vf,
}
use pso.Mm.Paging.Map.{IsMapped}
use pso.Mm.Paging.Mapping.{table_of, IsTable, IsRunning}
use pso.Mm.Fault.Copy.{alloc_tables, copied, copy_runs, copied-other, copied-new}
use pso.Mm.Given.{mm_mem_alloc-IsGiven}

-- The directory `c` runs, and through a table of its own, which is not that of the temporary page,
-- address `v` leads to a page of the user's that is in use and is copied on write.
pub record IsCowPage (v c : ℕ) (m : Mm) : Type 0 where
  pub address : v < 2 ^ 32
  pub run : IsRunning c m
  pub mapped : IsMapped v c m
  pub table : IsTable m c (table_of v c m)
  pub apart : table_of v c m ≢ table_of kernel_temp_page c m
  pub cow : (m.tables (table_of v c m) (ind_tp v)).attr cow_bit ≡ true
  pub user : 1024 ≤ frame_of v c m
  pub in_use : used m.usr_pf_info (frame_of v c m - 1024) ≡ true
  pub limit : m.usr_pf_limit ≤ 32736

-- Afterwards the address is mapped and can be written to, without copying on write; it leads to a page
-- with the same content, the old page has its content still, and no other entry of the table or the
-- directory has changed.
pub record IsPrivate (v c : ℕ) (m m' : Mm) : Type 0 where
  pub mapped : IsMapped v c m'
  pub writable : (m'.tables (table_of v c m') (ind_tp v)).attr rw_bit ≡ true
  pub no_cow : (m'.tables (table_of v c m') (ind_tp v)).attr cow_bit ≡ false
  pub content : m'.tables (frame_of v c m') ≡ m.tables (frame_of v c m)
  pub kept : m'.tables (frame_of v c m) ≡ m.tables (frame_of v c m)
  pub others : (j : ℕ) → j ≢ ind_tp v → m'.tables (table_of v c m) j ≡ m.tables (table_of v c m) j
  pub dir : m'.tables c ≡ m.tables c

-- A table with one entry written.
pub entered :
    (v c : ℕ) (e : Entry) (m m' : Mm)
    → is_present (m.tables c (ind_td v)) ≡ true
    → m'.tables c ≡ m.tables c
    → m'.tables (table_of v c m) ≡ update (m.tables (table_of v c m)) (ind_tp v) e
    → e.attr 0 ≡ true
    → e.attr rw_bit ≡ true
    → e.attr cow_bit ≡ false
    → m'.tables e.base ≡ m.tables (frame_of v c m)
    → m'.tables (frame_of v c m) ≡ m.tables (frame_of v c m)
    → IsPrivate v c m m' × (frame_of v c m' ≡ e.base)
entered v c e m m' there d t p w n x y =
    let same : table_of v c m' ≡ table_of v c m = ap (λ r. (r (ind_td v)).base) d in
    let at : m'.tables (table_of v c m') (ind_tp v) ≡ e =
      ap (λ k. m'.tables k (ind_tp v)) same
      ∙ ap (λ r. r (ind_tp v)) t
      ∙ rw (==_refl (ind_tp v)) refl in
    let frame : frame_of v c m' ≡ e.base = ap (λ r. r.base) at in
    (
      record {
        mapped = (ap (λ r. is_present (r (ind_td v))) d ∙ there, ap (λ r. r.attr 0) at ∙ p);
        writable = ap (λ r. r.attr rw_bit) at ∙ w;
        no_cow = ap (λ r. r.attr cow_bit) at ∙ n;
        content = ap m'.tables frame ∙ x;
        kept = y;
        others = λ j q. ap (λ r. r j) t ∙ rw (==_ne j (ind_tp v) q) refl;
        dir = d;
      },
      frame,
    )

-- The address from which a copy on write takes the page: that of its beginning.
abbrev pub page_start : ℕ → ℕ
page_start v = ind_td v * (page_size * 1024) + ind_tp v * page_size

start_td : (v : ℕ) → v < 2 ^ 32 → ind_td (page_start v) ≡ ind_td v
start_td v h = omega (arith, h)

start_tp : (v : ℕ) → v < 2 ^ 32 → ind_tp (page_start v) ≡ ind_tp v
start_tp v h = omega (arith, h)

start_table : (v c : ℕ) (m : Mm) → v < 2 ^ 32 → table_of (page_start v) c m ≡ table_of v c m
start_table v c m h = ap (λ d. (m.tables c d).base) (start_td v h)

start_frame : (v c : ℕ) (m : Mm) → v < 2 ^ 32 → frame_of (page_start v) c m ≡ frame_of v c m
start_frame v c m h =
    ap (λ t. (m.tables t (ind_tp (page_start v))).base) (start_table v c m h)
    ∙ ap (λ i. (m.tables (table_of v c m) i).base) (start_tp v h)

-- The memory behind the copy, with the page that was asked for.
abbrev pub new_page : Mm → ℕ
new_page m = (mm_mem_alloc m).0 / page_size

abbrev pub behind : ℕ → ℕ → Mm → Mm
behind v c m = copied (page_start v) (new_page m) c (mm_mem_alloc m).1

pub behind-runs :
    (v c : ℕ) (m : Mm)
    → IsRunning c m
    → mm_copy_vf (page_start v) (new_page m) c (mm_mem_alloc m).1 ≡ some (behind v c m)
behind-runs v c m run =
    copy_runs (page_start v) (new_page m) c (mm_mem_alloc m).1
      (ap (λ t. is_present (t c (ind_td kernel_temp_page))) (alloc_tables m) ∙ run.present)

alloc-IsRunning : (c : ℕ) (m : Mm) → IsRunning c m → IsRunning c (mm_mem_alloc m).1
unfolding mm_mem_alloc
alloc-IsRunning c m run = record {
  dir = run.dir;
  present = run.present;
  small = run.small;
  table = run.table;
}

-- The fresh page is one of the user's, and none that was in use.
pub record IsFresh (v c : ℕ) (m : Mm) : Type 0 where
  pub free : used m.usr_pf_info (new_page m - 1024) ≡ false
  pub user : 1024 ≤ new_page m
  pub other : new_page m ≢ frame_of v c m

pub new_page-IsFresh : (v c : ℕ) (m : Mm) → IsCowPage v c m → (mm_mem_alloc m).0 ≢ 0 → IsFresh v c m
new_page-IsFresh v c m h n =
    let (k, g) = mm_mem_alloc-IsGiven m h.limit n in
    let e : new_page m - 1024 ≡ k = omega (arith, g.place) in
    let free : used m.usr_pf_info (new_page m - 1024) ≡ false =
      ap (used m.usr_pf_info) e ∙ g.free in
    record {
      free = free;
      user = omega (arith, g.place);
      other = λ q. cc (sym (ap (λ f. used m.usr_pf_info (f - 1024)) q) ∙ free, h.in_use);
    }

module _ (v c : ℕ) (m : Mm) (h : IsCowPage v c m) (f : IsFresh v c m) where
  far : new_page m ≢ c
  far e = omega (arith, f.user, e, h.run.dir.1)

  pub far_table : new_page m ≢ table_of v c m
  far_table e = omega (arith, f.user, e, h.table.1)

  far_temp : new_page m ≢ table_of kernel_temp_page c m
  far_temp e = omega (arith, f.user, e, h.run.table.1)

  start_apart : table_of (page_start v) c m ≢ table_of kernel_temp_page c m
  start_apart e = h.apart (sym (start_table v c m h.address) ∙ e)

  page_temp : frame_of (page_start v) c m ≢ table_of kernel_temp_page c m
  page_temp e = omega (arith, h.user, sym (start_frame v c m h.address) ∙ e, h.run.table.1)

  pub behind-other :
      (u : ℕ)
      → u ≢ table_of kernel_temp_page c m
      → u ≢ new_page m
      → (behind v c m).tables u ≡ m.tables u
  behind-other u d e =
      let t = alloc_tables m in
      copied-other (page_start v) (new_page m) c (mm_mem_alloc m).1 (alloc-IsRunning c m h.run) far
        (subst (λ z. new_page m ≢ (z c (ind_td kernel_temp_page)).base) (sym t) far_temp)
        (subst (λ z. (z c (ind_td (page_start v))).base ≢ (z c (ind_td kernel_temp_page)).base)
          (sym t) start_apart)
        u (subst (λ z. u ≢ (z c (ind_td kernel_temp_page)).base) (sym t) d) e
      ∙ ap (λ z. z u) t

  pub behind-new_page : (behind v c m).tables (new_page m) ≡ m.tables (frame_of v c m)
  behind-new_page =
      let t = alloc_tables m in
      copied-new (page_start v) (new_page m) c (mm_mem_alloc m).1 (alloc-IsRunning c m h.run) far
        (subst (λ z. new_page m ≢ (z c (ind_td kernel_temp_page)).base) (sym t) far_temp)
        (subst (λ z. (z c (ind_td (page_start v))).base ≢ (z c (ind_td kernel_temp_page)).base)
          (sym t) start_apart)
        (subst
          (λ z.
            (z (z c (ind_td (page_start v))).base (ind_tp (page_start v))).base
            ≢ (z c (ind_td kernel_temp_page)).base)
          (sym t) page_temp)
      ∙ ap (λ z. z (z (z c (ind_td (page_start v))).base (ind_tp (page_start v))).base) t
      ∙ ap m.tables (start_frame v c m h.address)
