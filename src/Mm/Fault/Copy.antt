-- ===== src/Mm/Fault/Copy.antt =====
-- `mm_copy_vf`: what a copy through the temporary page leaves.
use pso.Base.{
  ℕ, ◌≡◌, ◌≢◌, refl, sym, ap, ◌∙◌, true, false, Option, none, some, update, ==_refl, ==_ne,
}
use pso.Mm.{Mm, mm_mem_alloc}
use pso.Mm.Paging.{
  is_present, ind_td, ind_tp, entry_for, rw_attr, size_bit, frame_of, kernel_temp_page, write_entry,
  mm_page_free, mm_copy_vf,
}
use pso.Mm.Paging.Kept.{set_entry-other, frame_of-same}
use pso.Mm.Paging.Mapping.{table_of, IsRunning, mm_page_map_present}

-- Unmapping a page of 4 KB writes into its table only.
free_small :
    (v c u : ℕ) (m : Mm)
    → is_present (m.tables c (ind_td v)) ≡ true
    → (m.tables c (ind_td v)).attr size_bit ≡ false
    → u ≢ table_of v c m
    → (mm_page_free v c m).1.tables u ≡ m.tables u
unfolding mm_page_free
free_small v c u m p s d = rw (s, p, ==_ne u (table_of v c m) d) refl

pub alloc_tables : (m : Mm) → (mm_mem_alloc m).1.tables ≡ m.tables
unfolding mm_mem_alloc
alloc_tables m = refl

-- The memory behind the copy of frame `old` to frame `new`, through the temporary page.
abbrev pub copied : ℕ → ℕ → ℕ → Mm → Mm
copied v new c m =
    let m₂ = write_entry kernel_temp_page c new rw_attr m in
    (mm_page_free kernel_temp_page c
      (record m₂ { tables = update m₂.tables new (m₂.tables (frame_of v c m₂)) })).1

pub copy_runs :
    (v new c : ℕ) (m : Mm)
    → is_present (m.tables c (ind_td kernel_temp_page)) ≡ true
    → mm_copy_vf v new c m ≡ some (copied v new c m)
unfolding mm_copy_vf
copy_runs v new c m p =
    ap
      (λ o. elim o as (λ x. Option Mm) [
        | none ↦ none
        | some m₁ ↦
            some
              (mm_page_free kernel_temp_page c
                (record m₁ { tables = update m₁.tables new (m₁.tables (frame_of v c m₁)) })).1
      ])
      (mm_page_map_present kernel_temp_page c new rw_attr m p)

-- Of all frames, the copy changes `new` and the table of the temporary page.
module _ (v new c : ℕ) (m : Mm) (run : IsRunning c m) (far : new ≢ c)
    (apart : new ≢ table_of kernel_temp_page c m)
    (same : table_of v c m ≢ table_of kernel_temp_page c m) where
  temp_table : ℕ
  temp_table = table_of kernel_temp_page c m

  m₂ : Mm
  m₂ = write_entry kernel_temp_page c new rw_attr m

  m₃ : Mm
  m₃ = record m₂ { tables = update m₂.tables new (m₂.tables (frame_of v c m₂)) }

  mapped-other : (u : ℕ) → u ≢ temp_table → m₂.tables u ≡ m.tables u
  unfolding temp_table m₂
  mapped-other u d =
      set_entry-other (table_of kernel_temp_page c m) (ind_tp kernel_temp_page) u
        (entry_for new rw_attr) m d

  filled-other : (u : ℕ) → u ≢ temp_table → u ≢ new → m₃.tables u ≡ m.tables u
  unfolding m₃
  filled-other u d e = (rw (==_ne u new e) refl) ∙ mapped-other u d

  dir_kept : m₃.tables c ≡ m.tables c
  unfolding temp_table
  dir_kept = filled-other c (λ e. run.table.2 (sym e)) (λ e. far (sym e))

  temp_kept : table_of kernel_temp_page c m₃ ≡ temp_table
  unfolding temp_table
  temp_kept = ap (λ r. (r (ind_td kernel_temp_page)).base) dir_kept

  freed : (u : ℕ) → u ≢ temp_table → (copied v new c m).tables u ≡ m₃.tables u
  unfolding m₂ m₃
  freed u d =
      free_small kernel_temp_page c u m₃
        (ap (λ r. is_present (r (ind_td kernel_temp_page))) dir_kept ∙ run.present)
        (ap (λ r. (r (ind_td kernel_temp_page)).attr size_bit) dir_kept ∙ run.small)
        (λ e. d (e ∙ temp_kept))

  pub copied-other :
      (u : ℕ)
      → u ≢ table_of kernel_temp_page c m
      → u ≢ new
      → (copied v new c m).tables u ≡ m.tables u
  unfolding temp_table
  copied-other u d e = freed u d ∙ filled-other u d e

  pub copied-new :
      frame_of v c m ≢ table_of kernel_temp_page c m
      → (copied v new c m).tables new ≡ m.tables (frame_of v c m)
  unfolding temp_table m₃
  copied-new d =
      freed new apart
      ∙ (rw (==_refl new) refl)
      ∙ ap m₂.tables (
          frame_of-same v c m m₂ (mapped-other c (λ e. run.table.2 (sym e)))
            (mapped-other (table_of v c m) same))
      ∙ mapped-other (frame_of v c m) d
