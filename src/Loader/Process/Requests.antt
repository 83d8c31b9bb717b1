-- ===== src/Loader/Process/Requests.antt =====
-- The pages that `loader_load` asks for: a directory that is empty but for the kernel's 4 MB, and
-- three different pages of the user, two of them mapped as stacks.
use pso.Base.{ℕ, ◌/◌, ◌≤◌, ◌<◌, ◌≡◌, ◌≢◌, refl, sym, ap, ◌∙◌, subst, false, arith}
use pso.Mm.{Mm, mm_mem_kalloc, mm_mem_alloc, no_entry, page_size}
use pso.Mm.Paging.{
  is_present, ind_td, ind_tp, size_bit, kernel_temp_page, frame_of, usr_std_attr, rw_attr,
  entry_for, write_entry,
}
use pso.Mm.Paging.Kept.{set_entry_self, Taken, IsKernelPage, mm_mem_kalloc-Allocated}
use pso.Mm.Paging.Mapping.{
  table_of, written_dir, IsTable, Maps, opened, opened-Maps, write_entry-Maps, mm_page_map_present,
  mm_page_map_absent, Taken_info, mm_mem_kalloc_info,
}
use pso.Mm.Paging.Directory.New.{IsNew, mm_dir_new-IsNew}
use pso.Loader.Process.{
  Space, stack_0_virtual, stack_3_virtual, map_page, map_stacks, load_space, frame_or_null,
}
use pso.Loader.Process.Ready.{IsReady, map_page-some}
use pso.Mm.Given.{mm_mem_alloc-IsGiven, given_apart}
use pso.Mm.Paging.Mapping.{IsRunning}
use pso.Loader.Process.Granted.{dir₁, page₂, stack₃, stack₄, HasRoom}

module _ (c : ℕ) (m : Mm) (r : IsRunning c m) (room : HasRoom m) where
  abbrev pub d : ℕ
  d = (mm_mem_kalloc m).0 / page_size

  abbrev pub s3 : ℕ
  s3 = (mm_mem_alloc (page₂ m)).0 / page_size

  abbrev pub s0 : ℕ
  s0 = (mm_mem_alloc (stack₃ m)).0 / page_size

  pub m₅ : Mm
  m₅ =
      write_entry stack_3_virtual d s3 usr_std_attr
        (opened stack_3_virtual d usr_std_attr (stack₄ m))

  abbrev pub m₆ : Mm
  m₆ = write_entry stack_0_virtual d s0 rw_attr m₅

  -- What `loader_load` has then.
  abbrev pub given_space : Space
  given_space = record {
    dir = d;
    page = (mm_mem_alloc (dir₁ m)).0 / page_size;
    stack3 = s3;
    stack0 = s0;
    mm = m₆;
  }

  dir-IsNew : IsNew d m (dir₁ m)
  dir-IsNew = (mm_dir_new-IsNew m room.directory.1 room.directory.0).1

  d-free : Taken m d → ⊥
  d-free = ((mm_mem_kalloc-Allocated m room.directory.1).fresh room.directory.0).0

  d_below : d < 1024
  d_below = (mm_mem_kalloc-Allocated m room.directory.1).below

  -- The requests for user pages change no page and no frame of the kernel's.
  same₄ : (stack₄ m).tables ≡ (dir₁ m).tables
  unfolding mm_mem_alloc
  same₄ = refl

  info₄ : (stack₄ m).kernel_pf_info ≡ (mm_mem_kalloc m).1.kernel_pf_info
  unfolding mm_mem_alloc
  info₄ = dir-IsNew.info

  taken₄ : (u : ℕ) → Taken m u → Taken (stack₄ m) u
  taken₄ u t =
      Taken_info (mm_mem_kalloc m).1 (stack₄ m) u info₄
        ((mm_mem_kalloc-Allocated m room.directory.1).grows.taken u t)

  d-taken₄ : Taken (stack₄ m) d
  d-taken₄ =
      Taken_info (mm_mem_kalloc m).1 (stack₄ m) d info₄
        ((mm_mem_kalloc-Allocated m room.directory.1).fresh room.directory.0).1

  -- The table for the stacks is the next frame of the kernel's.
  next₄ : (mm_mem_kalloc (stack₄ m)).0 ≡ (mm_mem_kalloc (dir₁ m)).0
  unfolding mm_mem_alloc
  next₄ = mm_mem_kalloc_info (dir₁ m) (stack₄ m) refl

  empty₄ : (i : ℕ) → i ≢ 0 → (stack₄ m).tables d i ≡ no_entry
  empty₄ i h = ap (λ t. t d i) same₄ ∙ dir-IsNew.empty i h

  absent₄ : is_present ((stack₄ m).tables d (ind_td stack_3_virtual)) ≡ false
  absent₄ = ap is_present (empty₄ (ind_td stack_3_virtual) (omega arith))

  room₄ : (mm_mem_kalloc (stack₄ m)).0 ≢ 0
  room₄ z = room.stacks.0 (sym next₄ ∙ z)

  stack3-Maps : Maps stack_3_virtual d s3 (stack₄ m) m₅
  unfolding m₅
  stack3-Maps =
      opened-Maps stack_3_virtual d s3 usr_std_attr (stack₄ m)
        (subst IsKernelPage (sym next₄) room.stacks.1) d-taken₄ absent₄ room₄

  stack0-Maps : Maps stack_0_virtual d s0 m₅ m₆
  stack0-Maps =
      write_entry-Maps stack_0_virtual d s0 rw_attr m₅ stack3-Maps.present stack3-Maps.table

  t : ℕ
  t = table_of stack_0_virtual d m₆

  -- The table for the stacks was free before.
  table₆ : t ≡ table_of stack_3_virtual d m₅
  unfolding t
  table₆ =
      ap (λ e. (e (ind_td stack_0_virtual)).base)
        (written_dir stack_0_virtual d s0 rw_attr m₅ stack3-Maps.table.2)

  t-free : Taken m t → ⊥
  t-free x = stack3-Maps.fresh absent₄ (subst (Taken (stack₄ m)) table₆ (taken₄ t x))

  ne_d : (u : ℕ) → Taken m u → u ≢ d
  ne_d u x e = d-free (subst (Taken m) e x)

  ne_t : (u : ℕ) → Taken m u → u ≢ t
  ne_t u x e = t-free (subst (Taken m) e x)

  -- No frame that was in use has changed.
  same₆ : (u : ℕ) → Taken m u → m₆.tables u ≡ m.tables u
  unfolding t
  same₆ u x =
      stack0-Maps.same u (stack3-Maps.grows.taken u (taken₄ u x)) (ne_d u x) (ne_t u x)
      ∙ stack3-Maps.same u (taken₄ u x) (ne_d u x) (λ e. ne_t u x (e ∙ sym table₆))
      ∙ ap (λ f. f u) same₄
      ∙ dir-IsNew.same u x

  taken₆ : (u : ℕ) → Taken m u → Taken m₆ u
  taken₆ u x = stack0-Maps.grows.taken u (stack3-Maps.grows.taken u (taken₄ u x))

  d-taken₆ : Taken m₆ d
  d-taken₆ = stack0-Maps.grows.taken d (stack3-Maps.grows.taken d d-taken₄)

  temp₆ : table_of kernel_temp_page c m₆ ≡ table_of kernel_temp_page c m
  temp₆ = ap (λ e. (e (ind_td kernel_temp_page)).base) (same₆ c r.dir.0)

  -- The user's pages, each handed out once.
  user_pages : (1024 ≤ s0) × (1024 ≤ given_space.page) × (s0 ≢ given_space.page)
  user_pages =
      let lim : (dir₁ m).usr_pf_limit ≤ 32736 =
        subst (λ (x : ℕ). x ≤ 32736) (sym dir-IsNew.user.1) room.limit in
      let (i, one) = mm_mem_alloc-IsGiven (dir₁ m) lim room.page in
      let (j, two) = mm_mem_alloc-IsGiven (page₂ m) one.limit room.stack3 in
      let (k, three) = mm_mem_alloc-IsGiven (stack₃ m) two.limit room.stack0 in
      (
        omega (arith, three.place),
        omega (arith, one.place),
        given_apart i j k _ _ _ _ _ _ _ one two three,
      )

  elsewhere₆ : (i : ℕ) → i ≢ 0 → i ≢ ind_td stack_0_virtual → is_present (m₆.tables d i) ≡ false
  elsewhere₆ i z h = ap is_present (stack0-Maps.others i h ∙ stack3-Maps.others i h ∙ empty₄ i z)

  pub stack0_leads : frame_of stack_0_virtual d m₆ ≡ s0
  stack0_leads = stack0-Maps.leads

  -- The stack of level 3 goes through the same table.
  pub stack3_leads : frame_of stack_3_virtual d m₆ ≡ s3
  stack3_leads =
      let base = table_of stack_0_virtual d m₅ in
      ap (λ e. (m₆.tables (e (ind_td stack_3_virtual)).base (ind_tp stack_3_virtual)).base)
        (written_dir stack_0_virtual d s0 rw_attr m₅ stack3-Maps.table.2)
      ∙ ap (λ f. (f (ind_tp stack_3_virtual)).base)
          (set_entry_self base (ind_tp stack_0_virtual) (entry_for s0 rw_attr) m₅)
      ∙ stack3-Maps.leads

  pub load_space-given : load_space m ≡ given_space
  unfolding load_space map_stacks m₅
  load_space-given =
      let page = (mm_mem_alloc (dir₁ m)).0 / page_size in
      ap
        (λ x. record {
          dir = x;
          page = page;
          stack3 = s3;
          stack0 = s0;
          mm = map_stacks x s3 s0 (stack₄ m);
        })
        (ap frame_or_null (mm_dir_new-IsNew m room.directory.1 room.directory.0).0)
      ∙ ap (λ x. record { dir = d; page = page; stack3 = s3; stack0 = s0; mm = x })
          (ap (map_page stack_0_virtual d s0 rw_attr) (
              map_page-some stack_3_virtual d s3 usr_std_attr (stack₄ m) m₅
                (mm_page_map_absent stack_3_virtual d s3 usr_std_attr (stack₄ m) absent₄ room₄))
            ∙ map_page-some stack_0_virtual d s0 rw_attr m₅ m₆
                (mm_page_map_present stack_0_virtual d s0 rw_attr m₅ stack3-Maps.present))

  -- A load that gets its pages is ready to write them.
  pub requests-IsReady :
      (start : ℕ)
      → ind_td start ≢ 0
      → ind_td start ≢ ind_td stack_0_virtual
      → IsReady c start given_space
  unfolding t
  requests-IsReady start z h = record {
    running = (taken₆ c r.dir.0, r.dir.1);
    temp_present = ap (λ f. is_present (f (ind_td kernel_temp_page))) (same₆ c r.dir.0) ∙ r.present;
    temp_small = ap (λ f. (f (ind_td kernel_temp_page)).attr size_bit) (same₆ c r.dir.0) ∙ r.small;
    temp = subst (IsTable m₆ c) (sym temp₆) (taken₆ _ r.table.0, r.table.1, r.table.2);
    dir = (d-taken₆, d_below, λ e. ne_d c r.dir.0 (sym e));
    dir_ne_temp = λ e. ne_d _ r.table.0 (sym (e ∙ temp₆));
    stacks = stack0-Maps.table;
    stacks_ne_running = λ e. ne_t c r.dir.0 (sym e);
    stacks_ne_temp = λ e. ne_t _ r.table.0 (sym (e ∙ temp₆));
    pages = user_pages;
    elsewhere = h;
    absent = elsewhere₆ (ind_td start) z h;
    room = (
      λ z. room.program.0 (ap (λ a. (mm_mem_kalloc a.mm).0) load_space-given ∙ z),
      subst (λ a. IsKernelPage (mm_mem_kalloc a.mm).0) load_space-given room.program.1,
    );
  }
