-- ===== src/Loader/Process/Memory.antt =====
-- What `loader_load` leaves in memory: the new task's stack of level 0, its program, and where its
-- directory leads.
use pso.Base.{
  ℕ, inl, ◌-◌, ◌≤◌, ◌<◌, ◌≡◌, ◌≢◌, refl, sym, ap, ◌∙◌, subst, true, false, List, length, some, none,
  leb, if◌then◌else◌, sub32, arith,
}
use pso.Mm.{Mm, mm_mem_kalloc, page_size}
use pso.Mm.Paging.{
  is_present, ind_td, ind_tp, kernel_temp_page, frame_of, usr_std_attr, rw_attr, write_entry,
  mm_page_map, mm_page_free,
}
use pso.Mm.Paging.Kept.{Taken, IsKernelPage, set_entry-other, frame_of-same}
use pso.Mm.Paging.Mapping.{
  table_of, Maps, opened, opened-Maps, mm_page_map_present, mm_page_map_absent, written_dir,
  written_leads, mm_page_free-other, Taken_info, mm_mem_kalloc_info,
}
use pso.Loader.Process.{
  PsoFile, Space, stack_0_virtual, push_words, copy_bytes, map_page, load_memory, load_program,
  and_then,
}
use pso.Loader.Process.Ready.{IsReady, IsLoaded, map_page-some}
use pso.Loader.Process.Pages.{
  Through, Writes, pushed, filled, push_words-Writes, copy_bytes-Writes, pushed-get_elem?,
  filled-word_at,
}

module _ (c : ℕ) (stack : List ℕ) (f : PsoFile) (s : Space) (r : IsReady c f.mem_start s) where
  abbrev b : ℕ
  b = table_of kernel_temp_page c s.mm

  -- The memory after each of the steps.
  abbrev m₁ : Mm
  m₁ = write_entry kernel_temp_page c s.stack0 rw_attr s.mm

  m₂ : Mm
  m₂ = push_words c 1023 stack m₁

  m₃ : Mm
  m₃ = write_entry f.mem_start s.dir s.page usr_std_attr (opened f.mem_start s.dir usr_std_attr m₂)

  abbrev m₄ : Mm
  m₄ = write_entry kernel_temp_page c s.page usr_std_attr m₃

  abbrev size : ℕ
  size = sub32 f.mem_end_disk f.mem_start

  m₅ : Mm
  m₅ = copy_bytes size 0 c f.bytes m₄

  m₆ : Mm
  m₆ = (mm_page_free kernel_temp_page c m₅).1

  temp-Through : Through c s.stack0 m₁
  temp-Through = record {
    leads = written_leads kernel_temp_page c s.stack0 rw_attr s.mm r.temp.2;
    dir = r.running.1;
    table =
        subst (λ (x : ℕ). x < 1024)
          (sym (
            ap (λ t. (t (ind_td kernel_temp_page)).base)
              (written_dir kernel_temp_page c s.stack0 rw_attr s.mm r.temp.2)))
          r.temp.1;
    page = r.pages.0;
  }

  stack-Writes : Writes s.stack0 (pushed 1023 stack (m₁.tables s.stack0)) m₁ m₂
  unfolding m₂
  stack-Writes = push_words-Writes stack c s.stack0 1023 m₁ temp-Through

  -- Until then, every frame but the temporary page's table and the stack is as it was.
  early : (u : ℕ) → u ≢ b → u ≢ s.stack0 → m₂.tables u ≡ s.mm.tables u
  early u d e = stack-Writes.other u e ∙ set_entry-other b _ u _ s.mm d

  low : (u : ℕ) → u < 1024 → u ≢ s.stack0
  low u lt e = omega (arith, r.pages.0)

  still-Taken : (u : ℕ) → Taken s.mm u → Taken m₂ u
  still-Taken u t = Taken_info s.mm m₂ u stack-Writes.info t

  -- The next frame of the kernel's is the same.
  next_page : (mm_mem_kalloc m₂).0 ≡ (mm_mem_kalloc s.mm).0
  next_page = mm_mem_kalloc_info s.mm m₂ stack-Writes.info

  absent₂ : is_present (m₂.tables s.dir (ind_td f.mem_start)) ≡ false
  absent₂ =
      ap (λ t. is_present (t (ind_td f.mem_start))) (early s.dir r.dir_ne_temp (low s.dir r.dir.1))
      ∙ r.absent

  program-Maps : Maps f.mem_start s.dir s.page m₂ m₃
  unfolding m₃
  program-Maps =
      opened-Maps f.mem_start s.dir s.page usr_std_attr m₂
        (subst IsKernelPage (sym next_page) r.room.1) (still-Taken s.dir r.dir.0) absent₂
        (λ z. r.room.0 (sym (mm_mem_kalloc_info s.mm m₂ stack-Writes.info) ∙ z))

  -- The new table is none of the frames in use, so that these are as before.
  middle : (u : ℕ) → Taken s.mm u → u ≢ s.dir → m₃.tables u ≡ m₂.tables u
  middle u t d =
      program-Maps.same u (still-Taken u t) d
        (λ e. program-Maps.fresh absent₂ (subst (Taken m₂) e (still-Taken u t)))

  low_page : (u : ℕ) → u < 1024 → u ≢ s.page
  low_page u lt e = omega (arith, r.pages.1)

  running₃ : m₃.tables c ≡ s.mm.tables c
  running₃ =
      middle c r.running.0 (λ e. r.dir.2 (sym e))
      ∙ early c (λ e. r.temp.2 (sym e)) (low c r.running.1)

  temp₃ : table_of kernel_temp_page c m₃ ≡ b
  temp₃ = ap (λ t. (t (ind_td kernel_temp_page)).base) running₃

  running₄ : m₄.tables c ≡ m₃.tables c
  running₄ = written_dir kernel_temp_page c s.page usr_std_attr m₃ (λ e. r.temp.2 (sym temp₃ ∙ e))

  temp₄ : table_of kernel_temp_page c m₄ ≡ b
  temp₄ = ap (λ t. (t (ind_td kernel_temp_page)).base) running₄ ∙ temp₃

  page-Through : Through c s.page m₄
  page-Through = record {
    leads = written_leads kernel_temp_page c s.page usr_std_attr m₃ (λ e. r.temp.2 (sym temp₃ ∙ e));
    dir = r.running.1;
    table = subst (λ (x : ℕ). x < 1024) (sym temp₄) r.temp.1;
    page = r.pages.1;
  }

  page-Writes : Writes s.page (filled size 0 f.bytes (m₄.tables s.page)) m₄ m₅
  unfolding m₅
  page-Writes = copy_bytes-Writes size 0 c s.page f.bytes m₄ page-Through

  temp₅ : table_of kernel_temp_page c m₅ ≡ b
  temp₅ =
      ap (λ t. (t (ind_td kernel_temp_page)).base) (page-Writes.other c (low_page c r.running.1))
      ∙ temp₄

  unmapped : (u : ℕ) → u ≢ c → u ≢ b → m₆.tables u ≡ m₅.tables u
  unfolding m₆
  unmapped u d e = mm_page_free-other kernel_temp_page c u m₅ d (λ g. e (g ∙ temp₅))

  -- From the mapping of the program on, every frame but the directory that runs, the temporary page's
  -- table and the program's page is as it was.
  late : (u : ℕ) → u ≢ c → u ≢ b → u ≢ s.page → m₆.tables u ≡ m₃.tables u
  late u d e g =
      unmapped u d e
      ∙ page-Writes.other u g
      ∙ set_entry-other (table_of kernel_temp_page c m₃) _ u _ m₃ (λ h. e (h ∙ temp₃))

  -- A user's page is neither directory nor table.
  high : (u v : ℕ) → 1024 ≤ u → v < 1024 → u ≢ v
  high u v a z e = omega arith

  dir_kept : m₆.tables s.dir ≡ m₃.tables s.dir
  dir_kept = late s.dir r.dir.2 r.dir_ne_temp (low_page s.dir r.dir.1)

  new_table : (u : ℕ) → Taken s.mm u → table_of f.mem_start s.dir m₃ ≢ u
  new_table u t e = program-Maps.fresh absent₂ (subst (Taken m₂) (sym e) (still-Taken u t))

  program_leads : frame_of f.mem_start s.dir m₆ ≡ s.page
  program_leads =
      let t = table_of f.mem_start s.dir m₃ in
      frame_of-same f.mem_start s.dir m₃ m₆ dir_kept
        (late t (new_table c r.running.0) (new_table b r.temp.0) (low_page t program-Maps.table.1))
      ∙ program-Maps.leads

  -- The directory's entry and the table for the stacks are as they were.
  stacks_kept :
      m₆.tables (table_of stack_0_virtual s.dir s.mm)
      ≡ s.mm.tables (table_of stack_0_virtual s.dir s.mm)
  stacks_kept =
      let t = table_of stack_0_virtual s.dir s.mm in
      late t r.stacks_ne_running r.stacks_ne_temp (low_page t r.stacks.1)
      ∙ middle t r.stacks.0 r.stacks.2
      ∙ early t r.stacks_ne_temp (low t r.stacks.1)

  stacks_lead :
      (v : ℕ) → ind_td v ≡ ind_td stack_0_virtual → frame_of v s.dir m₆ ≡ frame_of v s.dir s.mm
  stacks_lead v h =
      let entry : m₆.tables s.dir (ind_td v) ≡ s.mm.tables s.dir (ind_td v) =
        ap (λ t. t (ind_td v)) dir_kept
        ∙ program-Maps.others (ind_td v) (λ e. r.elsewhere (sym e ∙ h))
        ∙ ap (λ t. t (ind_td v)) (early s.dir r.dir_ne_temp (low s.dir r.dir.1)) in
      let same : m₆.tables (table_of v s.dir s.mm) ≡ s.mm.tables (table_of v s.dir s.mm) =
        subst
          (λ (i : ℕ). m₆.tables (s.mm.tables s.dir i).base ≡ s.mm.tables (s.mm.tables s.dir i).base)
          (sym h) stacks_kept in
      ap (λ e. (m₆.tables e.base (ind_tp v)).base) entry ∙ ap (λ t. (t (ind_tp v)).base) same

  load-IsLoaded : ((i : ℕ) → f.bytes i < 256) → length stack ≤ 1024 → IsLoaded c size stack f s m₆
  load-IsLoaded small fits = record {
    stack_words = λ j w h.
        ap (λ t. t (1023 - j))
          (late s.stack0 (high _ c r.pages.0 r.running.1) (high _ b r.pages.0 r.temp.1) r.pages.2
            ∙ middle s.stack0 (inl r.pages.0) (high _ s.dir r.pages.0 r.dir.1)
            ∙ stack-Writes.content)
        ∙ pushed-get_elem? stack 1023 j w _ (omega (arith, fits)) h;
    program = λ k h.
        ap (λ t. t k)
          (unmapped s.page (high _ c r.pages.1 r.running.1) (high _ b r.pages.1 r.temp.1)
            ∙ page-Writes.content)
        ∙ filled-word_at size 0 k f.bytes _ small (omega arith) (omega arith);
    program_mapped = program_leads;
    stacks_mapped = stacks_lead;
    others = λ u h d e.
        late u (high u c h r.running.1) (high u b h r.temp.1) e
        ∙ middle u (inl h) (high u s.dir h r.dir.1)
        ∙ early u (high u b h r.temp.1) d;
  }

  program₂ : map_page f.mem_start s.dir s.page usr_std_attr m₂ ≡ m₃
  unfolding m₃
  program₂ = map_page-some f.mem_start s.dir s.page usr_std_attr m₂ m₃ (
      mm_page_map_absent f.mem_start s.dir s.page usr_std_attr m₂ absent₂
        (λ z. r.room.0 (sym (mm_mem_kalloc_info s.mm m₂ stack-Writes.info) ∙ z)))

  temp_there : is_present (m₃.tables c (ind_td kernel_temp_page)) ≡ true
  temp_there = ap (λ t. is_present (t (ind_td kernel_temp_page))) running₃ ∙ r.temp_present

  -- A load of a program that fits into a page succeeds, once it has its pages.
  pub load_memory-IsLoaded :
      ((i : ℕ) → f.bytes i < 256)
      → length stack ≤ 1024
      → size ≤ page_size
      → (m : Mm) × (load_memory c stack f s ≡ some m) × IsLoaded c size stack f s m
  unfolding load_memory load_program m₂ m₅ m₆
  load_memory-IsLoaded small fits le =
      let fit : leb size page_size ≡ true = ground arith in
      let finish = λ (m : Mm).
        if leb size page_size
        then some (mm_page_free kernel_temp_page c (copy_bytes size 0 c f.bytes m)).1
        else none in
      (
        m₆,
        ap (λ o. and_then o (λ m. load_program c f s (push_words c 1023 stack m)))
              (mm_page_map_present kernel_temp_page c s.stack0 rw_attr s.mm r.temp_present)
            ∙ ap (λ m. and_then (mm_page_map kernel_temp_page c s.page false usr_std_attr m) finish)
                program₂
            ∙ ap (λ o. and_then o finish)
                (mm_page_map_present kernel_temp_page c s.page usr_std_attr m₃ temp_there)
            ∙ rw fit refl,
        load-IsLoaded small fits,
      )
