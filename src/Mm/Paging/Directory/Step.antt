-- ===== src/Mm/Paging/Directory/Step.antt =====
-- One round of the loop of `mm_dir_fork`: a page for the child's table, its entry in the directory, and
-- the entries of the table.
use pso.Base.{
  ℕ, zero, suc, ◌+◌, ◌/◌, ◌<◌, ◌≡◌, ◌≢◌, Bool-cases, inl, inr, true, false, refl, sym, ap, ◌∙◌,
  subst, update, ==_refl, ==_ne,
}
use pso.Mm.{
  FrameInfo, Entry, Mm, no_entry, mm_mem_kalloc, page_frame_info_alloc, krn_mem_start, page_size,
}
use pso.Mm.Paging.{p_bit, rw_bit, sh_bit, cow_bit, set_entry, fork_entry, fork_loop, mm_page_fork}
use pso.Mm.Paging.Kept.{Taken, IsKernelPage, Grows, mm_mem_kalloc-Allocated, set_entry-other}
use pso.Mm.Paging.Mapping.{Taken_info}
use pso.Mm.Paging.Fork.{in_fork}

-- The frame that the kernel is given next, and the array afterwards.
abbrev pub kernel_frame : FrameInfo → ℕ × FrameInfo
kernel_frame pfi = page_frame_info_alloc pfi 96 krn_mem_start

-- Forking a table changes no other frame, and not which frames are in use.
fork_loop-other :
    (n i p c u : ℕ) (m : Mm)
    → u ≢ p
    → u ≢ c
    → ((fork_loop n i p c m).tables u ≡ m.tables u)
      × ((fork_loop n i p c m).kernel_pf_info ≡ m.kernel_pf_info)
unfolding fork_loop
fork_loop-other zero i p c u m d e = (refl, refl)
fork_loop-other (suc n) i p c u m d e =
    let (x, child) = fork_entry (m.tables p i) (m.tables c i) in
    let (a, b) = fork_loop-other n (i + 1) p c u (set_entry c i child (set_entry p i x m)) d e in
    (a ∙ set_entry-other c i u child (set_entry p i x m) e ∙ set_entry-other p i u x m d, b)

fork-other :
    (p c u : ℕ) (m : Mm)
    → u ≢ p
    → u ≢ c
    → ((mm_page_fork p c m).tables u ≡ m.tables u)
      × ((mm_page_fork p c m).kernel_pf_info ≡ m.kernel_pf_info)
unfolding mm_page_fork
fork-other p c u m d e = fork_loop-other 1024 0 p c u m d e

pub cleared :
    (m : Mm) (k : ℕ) → (mm_mem_kalloc m).1.tables ((mm_mem_kalloc m).0 / page_size) k ≡ no_entry
unfolding mm_mem_kalloc
cleared m k = rw (==_refl ((kernel_frame m.kernel_pf_info).0 / page_size)) refl

pub kalloc_info : (m : Mm) → (mm_mem_kalloc m).1.kernel_pf_info ≡ (kernel_frame m.kernel_pf_info).1
unfolding mm_mem_kalloc
kalloc_info m = refl

pub kalloc_page : (m : Mm) → (mm_mem_kalloc m).0 ≡ (kernel_frame m.kernel_pf_info).0
unfolding mm_mem_kalloc
kalloc_page m = refl

-- What becomes of an entry `e` of a table that is copied: the parent's is `p` then, and the child's is
-- `c`. They lead to the same frame as before. A present entry is the same in both; unless it is
-- shared, it is to be copied on write and not writable, and else as it was. A shared one stays as it
-- was. Where nothing is present, the parent's entry stays and the child has none.
pub record IsPair (e p c : Entry) : Type 0 where
  pub base : p.base ≡ e.base
  pub alike : e.attr p_bit ≡ true → c ≡ p
  pub copied :
      e.attr p_bit ≡ true
      → e.attr sh_bit ≡ false
      → (p.attr cow_bit ≡ true)
        × (p.attr rw_bit ≡ false)
        × ((i : ℕ) → i ≢ cow_bit → i ≢ rw_bit → p.attr i ≡ e.attr i)
  pub shared : e.attr p_bit ≡ true → e.attr sh_bit ≡ true → p ≡ e
  pub absent : e.attr p_bit ≡ false → (p ≡ e) × (c ≡ no_entry)

fork_entry-IsPair : (e : Entry) → IsPair e (fork_entry e no_entry).0 (fork_entry e no_entry).1
fork_entry-IsPair e = record {
  base = elim (Bool-cases (e.attr p_bit)) [
    | inl a ↦ elim (Bool-cases (e.attr sh_bit)) [ inl b ↦ rw (a, b) refl | inr b ↦ rw (a, b) refl ]
    | inr a ↦ rw a refl
  ];
  alike = λ a. rw a refl;
  copied = λ a b. (
    rw (a, b) refl,
    rw (a, b) refl,
    λ i c r. rw (a, b) (rw (==_ne i cow_bit c, ==_ne i rw_bit r) refl),
  );
  shared = λ a b. rw (a, b) refl;
  absent = λ a. (rw a refl, rw a refl);
}

in_page_fork :
    (p c k : ℕ) (x : Entry) (m : Mm)
    → p ≢ c
    → k < 1024
    → m.tables p k ≡ x
    → m.tables c k ≡ no_entry
    → IsPair x ((mm_page_fork p c m).tables p k) ((mm_page_fork p c m).tables c k)
unfolding mm_page_fork
in_page_fork p c k x m d l e f =
    let (a, b) = in_fork 1024 p c m k d l in
    let pair =
      subst (λ z. IsPair x (fork_entry x z).0 (fork_entry x z).1) (sym f) (fork_entry-IsPair x) in
    let pair' =
      subst (λ z. IsPair x (fork_entry z (m.tables c k)).0 (fork_entry z (m.tables c k)).1) (sym e)
        pair in
    subst (λ z. IsPair x z ((mm_page_fork p c m).tables c k)) (sym a)
      (subst (IsPair x (fork_entry (m.tables p k) (m.tables c k)).0) (sym b) pair')

-- The parent's entry `e`, of a table with the entries `t`, copied to the entry `c` of the child: it
-- has the same attributes and leads to a frame that was free, and each entry has become a pair.
pub record IsCopied (m : Mm) (e : Entry) (t : ℕ → Entry) (c : Entry) (m' : Mm) : Type 0 where
  pub attr : c.attr ≡ e.attr
  pub fresh : Taken m c.base → ⊥
  pub entries : (k : ℕ) → k < 1024 → IsPair (t k) (m'.tables e.base k) (m'.tables c.base k)

-- The round on entry `i`, where the parent's entry is `e`.
abbrev pub stepped : ℕ → ℕ → Entry → Mm → Mm
stepped i new e m =
    let (page, m₁) = mm_mem_kalloc m in
    mm_page_fork e.base (page / page_size)
      (set_entry new i (record { attr = e.attr; base = page / page_size }) m₁)

pub record IsStepped (i new : ℕ) (e : Entry) (m m' : Mm) : Type 0 where
  pub grows : Grows m m'
  pub copied : IsCopied m e (m.tables e.base) (m'.tables new i) m'
  pub own : Taken m' (m'.tables new i).base
  pub others : (j : ℕ) → j ≢ i → m'.tables new j ≡ m.tables new j
  pub same : (u : ℕ) → Taken m u → u ≢ new → u ≢ e.base → m'.tables u ≡ m.tables u
  pub info : m'.kernel_pf_info ≡ (kernel_frame m.kernel_pf_info).1

pub stepped-IsStepped :
    (i new : ℕ) (e : Entry) (m : Mm)
    → IsKernelPage (mm_mem_kalloc m).0
    → (mm_mem_kalloc m).0 ≢ 0
    → Taken m new
    → Taken m e.base
    → e.base ≢ new
    → IsStepped i new e m (stepped i new e m)
stepped-IsStepped i new e m b n x y d =
    let a = mm_mem_kalloc-Allocated m b in
    let t = (mm_mem_kalloc m).0 / page_size in
    let m₁ = (mm_mem_kalloc m).1 in
    let c : Entry = record { attr = e.attr; base = t } in
    let m₂ = set_entry new i c m₁ in
    let m₃ = mm_page_fork e.base t m₂ in
    let (free, own) = a.fresh n in
    let new_t : new ≢ t = λ q. free (subst (Taken m) q x) in
    let base_t : e.base ≢ t = λ q. free (subst (Taken m) q y) in
    let (dir, info) = fork-other e.base t new m₂ (λ q. d (sym q)) new_t in
    let dir₂ : m₂.tables new ≡ update (m₁.tables new) i c = rw (==_refl new) refl in
    let entry : m₃.tables new i ≡ c = ap (λ r. r i) (dir ∙ dir₂) ∙ rw (==_refl i) refl in
    let grows₂ : Grows m m₃ = record {
      taken = λ u z. Taken_info m₁ m₃ u info (a.grows.taken u z);
    } in
    let tables : (k : ℕ) → m₂.tables e.base k ≡ m.tables e.base k =
      λ k. ap (λ r. r k) (set_entry-other new i e.base c m₁ d ∙ a.same e.base y) in
    let cleared₂ : (k : ℕ) → m₂.tables t k ≡ no_entry =
      λ k. ap (λ r. r k) (set_entry-other new i t c m₁ (λ q. new_t (sym q))) ∙ cleared m k in
    let forked = λ (k : ℕ) (l : k < 1024).
      in_page_fork e.base t k (m.tables e.base k) m₂ base_t l (tables k) (cleared₂ k) in
    record {
      grows = grows₂;
      copied =
          subst (λ z. IsCopied m e (m.tables e.base) z m₃) (sym entry)
            record { attr = refl; fresh = free; entries = λ k l. forked k l };
      own = subst (λ z. Taken m₃ z.base) (sym entry) (Taken_info m₁ m₃ t info own);
      others = λ j q. ap (λ r. r j) (dir ∙ dir₂) ∙ rw (==_ne j i q) (ap (λ r. r j) (a.same new x));
      same = λ u z p q.
          (fork-other e.base t u m₂ q (λ r. free (subst (Taken m) r z))).0
          ∙ set_entry-other new i u c m₁ p
          ∙ a.same u z;
      info = info ∙ kalloc_info m;
    }
