-- ===== src/Mm/Paging/Directory/New.antt =====
-- A new directory.
use pso.Base.{ℕ, ◌/◌, ◌≡◌, ◌≢◌, refl, ap, ◌∙◌, subst, ◌==◌, ◌||◌, some, ==_ne}
use pso.Mm.{Entry, Mm, mm_mem_kalloc, no_entry, page_size}
use pso.Mm.Paging.{mm_page_map, p_bit, size_bit}
use pso.Mm.Paging.Directory.{mm_dir_new}
use pso.Mm.Paging.Directory.Step.{cleared}
use pso.Mm.Paging.Kept.{
  Taken, IsKernelPage, Grows, set_entry_self, set_entry-other, mm_mem_kalloc-Allocated,
}

-- The entry of a page of 4 MB at address 0.
abbrev pub first_4_mb : Entry
first_4_mb = record { attr = λ i. i == size_bit || i == p_bit; base = 0 }

-- What `mm_dir_new` makes.
pub record IsNew (d : ℕ) (m m' : Mm) : Type 0 where
  pub info : m'.kernel_pf_info ≡ (mm_mem_kalloc m).1.kernel_pf_info
  pub user : (m'.usr_pf_info ≡ m.usr_pf_info) × (m'.usr_pf_limit ≡ m.usr_pf_limit)
  pub empty : (i : ℕ) → i ≢ 0 → m'.tables d i ≡ no_entry
  pub same : (u : ℕ) → Taken m u → m'.tables u ≡ m.tables u
  pub first : m'.tables d 0 ≡ first_4_mb
  pub grows : Grows m m'
  pub fresh : (Taken m d → ⊥) × Taken m' d

kalloc_user :
    (m : Mm)
    → ((mm_mem_kalloc m).1.usr_pf_info ≡ m.usr_pf_info)
      × ((mm_mem_kalloc m).1.usr_pf_limit ≡ m.usr_pf_limit)
unfolding mm_mem_kalloc
kalloc_user m = (refl, refl)

pub mm_dir_new-IsNew :
    (m : Mm)
    → IsKernelPage (mm_mem_kalloc m).0
    → (mm_mem_kalloc m).0 ≢ 0
    → ((mm_dir_new m).0 ≡ some ((mm_mem_kalloc m).0 / page_size))
      × IsNew ((mm_mem_kalloc m).0 / page_size) m (mm_dir_new m).1
unfolding mm_dir_new mm_page_map
mm_dir_new-IsNew m b n =
    let a = mm_mem_kalloc-Allocated m b in
    let d = (mm_mem_kalloc m).0 / page_size in
    rw (==_ne (mm_mem_kalloc m).0 0 n) (
      refl,
      record {
        info = refl;
        user = kalloc_user m;
        empty = λ i h.
            ap (λ t. t i) (set_entry_self d 0 _ (mm_mem_kalloc m).1)
            ∙ rw (==_ne i 0 h) (cleared m i);
        same = λ u t.
            set_entry-other d 0 u _ (mm_mem_kalloc m).1 (λ e. (a.fresh n).0 (subst (Taken m) e t))
            ∙ a.same u t;
        first = ap (λ t. t 0) (set_entry_self d 0 first_4_mb (mm_mem_kalloc m).1) ∙ refl;
        grows = record { taken = λ u t. a.grows.taken u t };
        fresh = a.fresh n;
      },
    )
