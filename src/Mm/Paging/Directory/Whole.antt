-- ===== src/Mm/Paging/Directory/Whole.antt =====
-- `mm_dir_fork` as a whole.
use pso.Base.{
  ℕ, zero, suc, ◌+◌, ◌/◌, ◌≤◌, ◌<◌, ◌≡◌, ◌≢◌, refl, sym, ap, ◌∙◌, subst, true, false, inl, inr,
  Bool-cases, Option, none, some, arith, ==_ne,
}
use pso.Mm.{Entry, Mm, no_entry, mm_mem_kalloc, page_size}
use pso.Mm.Paging.{is_present}
use pso.Mm.Paging.Directory.{mm_dir_new, mm_dir_fork, fork_dir_loop}
use pso.Mm.Paging.Directory.New.{first_4_mb, IsNew, mm_dir_new-IsNew}
use pso.Mm.Paging.Directory.Step.{kalloc_page, kalloc_info, IsCopied, stepped, stepped-IsStepped}
use pso.Mm.Paging.Directory.Copy.{
  table_count, HasFrames, IsForkable, IsNoTable, IsForked, none_left, skipped-IsForkable,
  skipped-IsForked, stepped-IsForkable, stepped-IsForked, IsCopied-earlier,
}
use pso.Mm.Paging.Kept.{Taken, IsKernelPage, Grows}

-- One round of the loop.
module _ (task_cr3 : ℕ → ℕ) where
  passed :
      (n i old new : ℕ) (m : Mm)
      → is_present (m.tables old i) ≡ false
      → fork_dir_loop task_cr3 (suc n) i old new m ≡ fork_dir_loop task_cr3 n (i + 1) old new m
  unfolding fork_dir_loop
  passed n i old new m p = rw p refl

  copied_one :
      (n i old new : ℕ) (m : Mm)
      → is_present (m.tables old i) ≡ true
      → (mm_mem_kalloc m).0 ≢ 0
      → fork_dir_loop task_cr3 (suc n) i old new m
        ≡ fork_dir_loop task_cr3 n (i + 1) old new (stepped i new (m.tables old i) m)
  unfolding fork_dir_loop
  copied_one n i old new m p z = rw (p, ==_ne (mm_mem_kalloc m).0 0 z) refl

  -- The loop ends with the new directory when the kernel has a frame for every table.
  pub fork_dir_loop-IsForked :
      (n i old new : ℕ) (dir : ℕ → Entry) (m : Mm)
      → m.tables old ≡ dir
      → IsForkable n i old new dir m
      → HasFrames (table_count n i dir) m.kernel_pf_info
      → (m' : Mm) × (fork_dir_loop task_cr3 n i old new m ≡ (some new, m'))
        × IsForked n i new dir m m'
  unfolding fork_dir_loop
  fork_dir_loop-IsForked zero i old new dir m d f g = (m, refl, none_left i new dir m)
  fork_dir_loop-IsForked (suc n) i old new dir m d f g = elim (Bool-cases (is_present (dir i))) [
    | inl p ↦
        (let (z, page, g') = subst (λ k. HasFrames k m.kernel_pf_info) (one_more n i dir p) g in
          let z' : (mm_mem_kalloc m).0 ≢ 0 = subst (λ k. k ≢ 0) (sym (kalloc_page m)) z in
          let page' = subst IsKernelPage (sym (kalloc_page m)) page in
          let (old_taken, new_taken, differ) = f.dirs in
          let (base, base_old, base_new) = f.tables i (omega arith) (omega arith) p in
          let m₃ = stepped i new (dir i) m in
          let st = stepped-IsStepped i new (dir i) m page' z' new_taken base base_new in
          let (m', e, r) =
            fork_dir_loop-IsForked n (i + 1) old new dir m₃
              (st.same old old_taken differ (λ q. base_old (sym q)) ∙ d)
              (stepped-IsForkable n i old new dir m m₃ f st.grows)
              (subst (HasFrames (table_count n (i + 1) dir)) (sym st.info) g') in
          (
            m',
            copied_one n i old new m (ap (λ k. is_present (k i)) d ∙ p) z'
                ∙ ap (λ k. fork_dir_loop task_cr3 n (i + 1) old new (stepped i new (k i) m)) d
                ∙ e,
            stepped-IsForked n i old new dir m m₃ m' p f st r,
          ))
    | inr p ↦
        (let (m', e, r) =
            fork_dir_loop-IsForked n (i + 1) old new dir m d
              (skipped-IsForkable n i old new dir m f)
              (subst (λ k. HasFrames k m.kernel_pf_info) (no_more n i dir p) g) in
          (
            m',
            passed n i old new m (ap (λ k. is_present (k i)) d ∙ p) ∙ e,
            skipped-IsForked n i new dir m m' p r,
          ))
  ]
    where
      one_more :
          (n i : ℕ) (dir : ℕ → Entry)
          → is_present (dir i) ≡ true
          → table_count (suc n) i dir ≡ suc (table_count n (i + 1) dir)
      one_more n i dir p = rw p refl

      no_more :
          (n i : ℕ) (dir : ℕ → Entry)
          → is_present (dir i) ≡ false
          → table_count (suc n) i dir ≡ table_count n (i + 1) dir
      no_more n i dir p = rw p refl

-- A directory with its tables: frames in use, each of its own.
pub record IsDirectory (m : Mm) (d : ℕ) : Type 0 where
  pub taken : Taken m d
  pub tables :
      (j : ℕ)
      → 1 ≤ j
      → j < 1024
      → is_present (m.tables d j) ≡ true
      → Taken m (m.tables d j).base × ((m.tables d j).base ≢ d)
  pub distinct :
      (j k : ℕ)
      → 1 ≤ j
      → j < k
      → k < 1024
      → is_present (m.tables d j) ≡ true
      → is_present (m.tables d k) ≡ true
      → (m.tables d j).base ≢ (m.tables d k).base

-- The directory `new` of `m'` is a copy of `old` in `m`: it and its tables were free before, its first
-- 4 MB are mapped to themselves, every table is copied, an entry is empty where there was none, and
-- of the frames in use only the old tables have changed.
pub record IsChild (old new : ℕ) (m m' : Mm) : Type 0 where
  pub fresh : (Taken m new → ⊥) × Taken m' new
  pub grows : Grows m m'
  pub first : m'.tables new 0 ≡ first_4_mb
  pub copied :
      (j : ℕ)
      → 1 ≤ j
      → j < 1024
      → is_present (m.tables old j) ≡ true
      → IsCopied m (m.tables old j) (m.tables (m.tables old j).base) (m'.tables new j) m'
  pub absent :
      (j : ℕ) → 1 ≤ j → j < 1024 → is_present (m.tables old j) ≡ false → m'.tables new j ≡ no_entry
  pub parent : m'.tables old ≡ m.tables old
  pub same : (u : ℕ) → Taken m u → IsNoTable 1023 1 (m.tables old) u → m'.tables u ≡ m.tables u

-- What the new directory makes of the conditions.
new-IsForkable :
    (old new : ℕ) (m m₁ : Mm)
    → IsDirectory m old
    → IsNew new m m₁
    → IsForkable 1023 1 old new (m.tables old) m₁
new-IsForkable old new m m₁ d n =
    let free : (u : ℕ) → Taken m u → u ≢ new = λ u x e. n.fresh.0 (subst (Taken m) e x) in
    record {
      dirs = (n.grows.taken old d.taken, n.fresh.1, free old d.taken);
      tables = λ j a b p.
          (let (x, y) = d.tables j a (omega (arith, b)) p in
            (n.grows.taken (m.tables old j).base x, y, free (m.tables old j).base x));
      distinct = λ j k a l b p q. d.distinct j k a l (omega (arith, b)) p q;
    }

new-IsChild :
    (old new : ℕ) (m m₁ m' : Mm)
    → IsDirectory m old
    → IsNew new m m₁
    → IsForked 1023 1 new (m.tables old) m₁ m'
    → IsChild old new m m'
new-IsChild old new m m₁ m' d n f =
    let free : (u : ℕ) → Taken m u → u ≢ new = λ u x e. n.fresh.0 (subst (Taken m) e x) in
    let same : (u : ℕ) → Taken m u → IsNoTable 1023 1 (m.tables old) u → m'.tables u ≡ m.tables u =
      λ u x t. f.same u (n.grows.taken u x) (free u x) t ∙ n.same u x in
    record {
      fresh = (n.fresh.0, f.grows.taken new n.fresh.1);
      grows = record { taken = λ u x. f.grows.taken u (n.grows.taken u x) };
      first = f.before 0 (omega arith) ∙ n.first;
      copied = λ j a b p.
          IsCopied-earlier m m₁ m' (m.tables old j) (m'.tables new j)
            (m.tables (m.tables old j).base) (m₁.tables (m.tables old j).base) n.grows
            (n.same (m.tables old j).base (d.tables j a b p).0) (f.copied j a (omega (arith, b)) p);
      absent = λ j a b p. f.absent j a (omega (arith, b)) p ∙ n.empty j (omega (arith, a));
      parent = same old d.taken (λ j a b p q. (d.tables j a (omega (arith, b)) p).1 (sym q));
      same = same;
    }

-- When the kernel has a frame for the directory and for each table, `mm_dir_fork` returns a copy: a
-- new directory in which the first 4 MB are mapped to themselves and each present entry of the parent
-- has the same attributes and a table of its own, of a frame that was free. A present entry of such a
-- table is then the same in child and parent and leads to the page that it led to before: unless the
-- page is shared, it is to be copied on write and not writable. Entries that are not present stay, and
-- the child has none; nothing else that is in use changes, the parent's directory included.
pub mm_dir_fork-IsChild :
    (task_cr3 : ℕ → ℕ) (old : ℕ) (m : Mm)
    → IsDirectory m old
    → HasFrames (suc (table_count 1023 1 (m.tables old))) m.kernel_pf_info
    → (new : ℕ) × (m' : Mm) × (mm_dir_fork task_cr3 old m ≡ (some new, m')) × IsChild old new m m'
unfolding mm_dir_fork
mm_dir_fork-IsChild task_cr3 old m d (z, page, g) =
    let z' : (mm_mem_kalloc m).0 ≢ 0 = subst (λ k. k ≢ 0) (sym (kalloc_page m)) z in
    let new = (mm_mem_kalloc m).0 / page_size in
    let m₁ = (mm_dir_new m).1 in
    let (e, n) = mm_dir_new-IsNew m (subst IsKernelPage (sym (kalloc_page m)) page) z' in
    let (m', h, f) =
      fork_dir_loop-IsForked task_cr3 1023 1 old new (m.tables old) m₁ (n.same old d.taken)
        (new-IsForkable old new m m₁ d n)
        (subst (HasFrames (table_count 1023 1 (m.tables old))) (sym (n.info ∙ kalloc_info m)) g) in
    (
      new,
      m',
      ap
            (λ o. elim o as (λ x. Option ℕ × Mm) [
              | none ↦ (none, m₁)
              | some c ↦ fork_dir_loop task_cr3 1023 1 old c m₁
            ])
            e
          ∙ h,
      new-IsChild old new m m₁ m' d n f,
    )
