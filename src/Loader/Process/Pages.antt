-- ===== src/Loader/Process/Pages.antt =====
-- What is written through the temporary page: words from the end of a page down, and bytes from its
-- beginning on. Both leave every other frame alone.
use mathlib.Core.Path.{fun_ext}
use pso.Base.{
  ℕ, zero, suc, ◌+◌, ◌-◌, ◌*◌, ◌/◌, ◌%◌, ◌≤◌, ◌<◌, ◌≡◌, ◌≢◌, refl, sym, ap, ◌∙◌, subst, Bool, ◌&&◌,
  if◌then◌else◌, ltb, Bool-cases, inl, inr, List, [], ◌∷◌, length, get_elem?, some, update, arith,
  ==_refl, ==_ne, ◌==◌,
}
use pso.Mm.{Entry, Mm}
use pso.Mm.Paging.{kernel_temp_page, frame_of, set_entry, ind_td}
use pso.Mm.Paging.Kept.{set_entry_self, set_entry-other, frame_of-same}
use pso.Mm.Paging.Mapping.{table_of}
use pso.Loader.Process.{bit, word_entry, put_byte, push_words, copy_bytes}

-- The temporary page leads to a page of the user, through a directory and a table of the kernel's.
pub record Through (c t : ℕ) (m : Mm) : Type 0 where
  pub leads : frame_of kernel_temp_page c m ≡ t
  pub dir : c < 1024
  pub table : table_of kernel_temp_page c m < 1024
  pub page : 1024 ≤ t

put-Through : (c t i : ℕ) (e : Entry) (m : Mm) → Through c t m → Through c t (set_entry t i e m)
put-Through c t i e m h =
    let other = λ (u : ℕ) (lt : u < 1024).
      set_entry-other t i u e m (λ d. omega (arith, h.page, ap (λ (x : ℕ). x) d)) in
    let kept = other c h.dir in
    record {
      leads =
          frame_of-same kernel_temp_page c m (set_entry t i e m) kept (other _ h.table) ∙ h.leads;
      dir = h.dir;
      table =
          subst (λ (x : ℕ). x < 1024) (sym (ap (λ r. (r (ind_td kernel_temp_page)).base) kept))
            h.table;
      page = h.page;
    }

-- The words written into the page itself.
pub pushed : ℕ → List ℕ → (ℕ → Entry) → ℕ → Entry
pushed i [] g = g
pushed i (w ∷ ws) g = pushed (i - 1) ws (update g i (word_entry w))

-- The bytes written into the page itself.
pub filled : ℕ → ℕ → (ℕ → ℕ) → (ℕ → Entry) → ℕ → Entry
filled zero i bytes g = g
filled (suc n) i bytes g =
    filled n (i + 1) bytes (update g (i / 4) (put_byte (i % 4) (bytes i) (g (i / 4))))

-- What a piece of code does that writes into frame `t` only.
pub record Writes (t : ℕ) (g : ℕ → Entry) (m m' : Mm) : Type 0 where
  pub content : m'.tables t ≡ g
  pub other : (u : ℕ) → u ≢ t → m'.tables u ≡ m.tables u
  pub info : m'.kernel_pf_info ≡ m.kernel_pf_info

pub push_words-Writes :
    (ws : List ℕ) (c t i : ℕ) (m : Mm)
    → Through c t m
    → Writes t (pushed i ws (m.tables t)) m (push_words c i ws m)
unfolding push_words pushed
push_words-Writes [] c t i m h = record { content = refl; other = λ u d. refl; info = refl }
push_words-Writes (w ∷ ws) c t i m h =
    let m₁ = set_entry t i (word_entry w) m in
    let r = push_words-Writes ws c t (i - 1) m₁ (put-Through c t i (word_entry w) m h) in
    rw h.leads record {
      content = r.content ∙ ap (pushed (i - 1) ws) (set_entry_self t i (word_entry w) m);
      other = λ u d. r.other u d ∙ set_entry-other t i u (word_entry w) m d;
      info = r.info;
    }

pub copy_bytes-Writes :
    (n i c t : ℕ) (bytes : ℕ → ℕ) (m : Mm)
    → Through c t m
    → Writes t (filled n i bytes (m.tables t)) m (copy_bytes n i c bytes m)
unfolding copy_bytes filled
copy_bytes-Writes zero i c t bytes m h = record { content = refl; other = λ u d. refl; info = refl }
copy_bytes-Writes (suc n) i c t bytes m h =
    let e = put_byte (i % 4) (bytes i) (m.tables t (i / 4)) in
    let m₁ = set_entry t (i / 4) e m in
    let r = copy_bytes-Writes n (i + 1) c t bytes m₁ (put-Through c t (i / 4) e m h) in
    rw h.leads record {
      content = r.content ∙ ap (filled n (i + 1) bytes) (set_entry_self t (i / 4) e m);
      other = λ u d. r.other u d ∙ set_entry-other t (i / 4) u e m d;
      info = r.info;
    }

-- Words above those that are written stay.
pushed_above :
    (ws : List ℕ) (i k : ℕ) (g : ℕ → Entry) → i < k → length ws ≤ i + 1 → pushed i ws g k ≡ g k
unfolding pushed
pushed_above [] i k g lt le = refl
pushed_above (w ∷ []) i k g lt le = rw (==_ne k i (λ e. omega arith)) refl
pushed_above (w ∷ v ∷ ws) i k g lt le =
    pushed_above (v ∷ ws) (i - 1) k (update g i (word_entry w)) (omega arith) (omega arith)
    ∙ rw (==_ne k i (λ e. omega arith)) refl

first_word :
    (i v w : ℕ) (g : ℕ → Entry) → some v ≡ some w → update g i (word_entry v) (i - 0) ≡ word_entry w
first_word i v w g h =
    let e : i - 0 ≡ i = omega arith in
    let f : v ≡ w = cc h in ap (update g i (word_entry v)) e ∙ rw (==_refl i) (ap word_entry f)

-- Word number `j` of those written is where it belongs.
pub pushed-get_elem? :
    (ws : List ℕ) (i j w : ℕ) (g : ℕ → Entry)
    → length ws ≤ i + 1
    → get_elem? ws j ≡ some w
    → pushed i ws g (i - j) ≡ word_entry w
unfolding pushed
pushed-get_elem? [] i j w g le h = cc h
pushed-get_elem? (v ∷ []) i zero w g le h = first_word i v w g h
pushed-get_elem? (v ∷ []) i (suc j) w g le h = cc h
pushed-get_elem? (v ∷ u ∷ ws) i zero w g le h =
    pushed_above (u ∷ ws) (i - 1) (i - 0) (update g i (word_entry v)) (omega arith) (omega arith)
    ∙ first_word i v w g h
pushed-get_elem? (v ∷ u ∷ ws) i (suc j) w g le h =
    let e : i - suc j ≡ i - 1 - j = omega arith in
    ap (pushed (i - 1) (u ∷ ws) (update g i (word_entry v))) e
    ∙ pushed-get_elem? (u ∷ ws) (i - 1) j w (update g i (word_entry v)) (omega arith) h

-- Four bytes as a word, the lowest first, in the form of an entry.
abbrev pub word_of : ℕ → ℕ → ℕ → ℕ → Entry
word_of b₀ b₁ b₂ b₃ = record {
  attr = λ i. if ltb i 8 then bit b₀ i else ltb i 12 && bit b₁ (i - 8);
  base = b₁ / 16 + b₂ * 16 + b₃ * 4096;
}

attrs :
    (b₀ b₁ : ℕ) (e : Entry)
    → ◌≡◌ {A = ℕ → Bool}
        (λ i.
          if ltb i 8 then (if ltb i 8 then bit b₀ i else e.attr i) else ltb i 12 && bit b₁ (i - 8))
        (λ i. if ltb i 8 then bit b₀ i else ltb i 12 && bit b₁ (i - 8))
attrs b₀ b₁ e = fun_ext (λ i. at i)
  where
    at :
        (i : ℕ)
        → (if ltb i 8 then (if ltb i 8 then bit b₀ i else e.attr i) else ltb i 12 && bit b₁ (i - 8))
          ≡ (if ltb i 8 then bit b₀ i else ltb i 12 && bit b₁ (i - 8))
    at i = elim (Bool-cases (ltb i 8)) [ inl c ↦ rw c refl | inr c ↦ rw c refl ]

bases :
    (b₁ b₂ b₃ x : ℕ)
    → b₁ < 256
    → b₂ < 256
    → b₃ * 4096
        + ((x / 16 * 16 + b₁ / 16) / 4096 * 4096 + b₂ * 16 + (x / 16 * 16 + b₁ / 16) % 16) % 4096
      ≡ b₁ / 16 + b₂ * 16 + b₃ * 4096
bases b₁ b₂ b₃ x h₁ h₂ = omega arith

four_bytes :
    (b₀ b₁ b₂ b₃ : ℕ) (e : Entry)
    → b₁ < 256
    → b₂ < 256
    → put_byte 3 b₃ (put_byte 2 b₂ (put_byte 1 b₁ (put_byte 0 b₀ e))) ≡ word_of b₀ b₁ b₂ b₃
unfolding put_byte
four_bytes b₀ b₁ b₂ b₃ e h₁ h₂ =
    λ i. record { attr = attrs b₀ b₁ e i; base = bases b₁ b₂ b₃ e.base h₁ h₂ i }

-- Words below the byte that comes next stay.
filled_below : (n i k : ℕ) (bytes : ℕ → ℕ) (g : ℕ → Entry) → k < i / 4 → filled n i bytes g k ≡ g k
unfolding filled
filled_below zero i k bytes g lt = refl
filled_below (suc n) i k bytes g lt =
    filled_below n (i + 1) k bytes _ (omega arith) ∙ rw (==_ne k (i / 4) (λ e. omega arith)) refl

filled_step :
    (i j k : ℕ) (bytes : ℕ → ℕ) (g : ℕ → Entry)
    → i / 4 ≡ k
    → i % 4 ≡ j
    → update g (i / 4) (put_byte (i % 4) (bytes i) (g (i / 4))) k ≡ put_byte j (bytes i) (g k)
filled_step i j k bytes g p q = rw (p, q, ==_refl k) refl

-- The word at a place in a sequence of bytes.
abbrev pub word_at : (ℕ → ℕ) → ℕ → Entry
word_at bytes k =
    word_of (bytes (4 * k)) (bytes (4 * k + 1)) (bytes (4 * k + 2)) (bytes (4 * k + 3))

filled_four :
    (n i k : ℕ) (bytes : ℕ → ℕ) (g : ℕ → Entry)
    → ((j : ℕ) → bytes j < 256)
    → i ≡ 4 * k
    → filled (suc (suc (suc (suc n)))) i bytes g k ≡ word_at bytes k
unfolding filled
filled_four n i k bytes g small e =
    let g₁ = update g (i / 4) (put_byte (i % 4) (bytes i) (g (i / 4))) in
    let i₁ = i + 1 in
    let g₂ = update g₁ (i₁ / 4) (put_byte (i₁ % 4) (bytes i₁) (g₁ (i₁ / 4))) in
    let i₂ = i₁ + 1 in
    let g₃ = update g₂ (i₂ / 4) (put_byte (i₂ % 4) (bytes i₂) (g₂ (i₂ / 4))) in
    let i₃ = i₂ + 1 in
    let g₄ = update g₃ (i₃ / 4) (put_byte (i₃ % 4) (bytes i₃) (g₃ (i₃ / 4))) in
    let e₁ : i₁ ≡ 4 * k + 1 = omega arith in
    let e₂ : i₂ ≡ 4 * k + 2 = omega arith in
    let e₃ : i₃ ≡ 4 * k + 3 = omega arith in
    filled_below n (i₃ + 1) k bytes g₄ (omega arith)
    ∙ filled_step i₃ 3 k bytes g₃ (omega arith) (omega arith)
    ∙ ap (put_byte 3 (bytes i₃)) (
        filled_step i₂ 2 k bytes g₂ (omega arith) (omega arith)
        ∙ ap (put_byte 2 (bytes i₂)) (
            filled_step i₁ 1 k bytes g₁ (omega arith) (omega arith)
            ∙ ap (put_byte 1 (bytes i₁)) (filled_step i 0 k bytes g (omega arith) (omega arith))))
    ∙ four_bytes (bytes i) (bytes i₁) (bytes i₂) (bytes i₃) (g k) (small i₁) (small i₂)
    ∙ ap (λ (a : ℕ). word_of (bytes a) (bytes i₁) (bytes i₂) (bytes i₃)) e
    ∙ ap (λ (a : ℕ). word_of (bytes (4 * k)) (bytes a) (bytes i₂) (bytes i₃)) e₁
    ∙ ap (λ (a : ℕ). word_of (bytes (4 * k)) (bytes (4 * k + 1)) (bytes a) (bytes i₃)) e₂
    ∙ ap (λ (a : ℕ). word_of (bytes (4 * k)) (bytes (4 * k + 1)) (bytes (4 * k + 2)) (bytes a)) e₃

filled_later :
    (n i k : ℕ) (bytes : ℕ → ℕ) (g : ℕ → Entry)
    → filled
        (suc (suc (suc n)))
        (i + 1)
        bytes
        (update g (i / 4) (put_byte (i % 4) (bytes i) (g (i / 4))))
        k
      ≡ word_at bytes k
    → filled (suc (suc (suc (suc n)))) i bytes g k ≡ word_at bytes k
unfolding filled
filled_later n i k bytes g h = h

-- Every whole word of the bytes is where it belongs.
pub filled-word_at :
    (n i k : ℕ) (bytes : ℕ → ℕ) (g : ℕ → Entry)
    → ((j : ℕ) → bytes j < 256)
    → i ≤ 4 * k
    → 4 * k + 4 ≤ i + n
    → filled n i bytes g k ≡ word_at bytes k
filled-word_at zero i k bytes g small le h = absurd (omega arith)
filled-word_at (suc zero) i k bytes g small le h = absurd (omega arith)
filled-word_at (suc (suc zero)) i k bytes g small le h = absurd (omega arith)
filled-word_at (suc (suc (suc zero))) i k bytes g small le h = absurd (omega arith)
filled-word_at (suc (suc (suc (suc n)))) i k bytes g small le h = elim (Bool-cases (i == 4 * k)) [
  | inl e ↦ filled_four n i k bytes g small (ground arith)
  | inr e ↦ filled_later n i k bytes g (
      filled-word_at (suc (suc (suc n))) (i + 1) k bytes
        (update g (i / 4) (put_byte (i % 4) (bytes i) (g (i / 4)))) small (ground arith)
        (omega arith))
]
