-- ===== src/Fat12/Names.antt =====
-- Names of files: comparing them with the fields of an entry.
use pso.Base.{
  ℕ, zero, suc, ◌+◌, ◌≤◌, ◌==◌, ◌&&◌, Bool, true, false, List, [], ◌∷◌, ◌++◌, add32, ◌≡◌, ◌≢◌, ◌↔◌,
  refl, ap, ◌∙◌, sym, arith, length, All,
}
use pso.LibStr.{int_of, strncmp, strchr, strchr_from}
use pso.LibStr.Compare.{IsByte, IsByte-prefix, prefix, strcmp_iff, strncmp-prefix}
use pso.Fat12.{DirEntry, cut, entry_rest, behind, name_length, found}

cut_bytes : (xs ys : List ℕ) → All IsByte xs → cut (xs ++ ys) ≡ xs ++ cut ys
unfolding cut
cut_bytes [] ys h = refl
cut_bytes (c ∷ xs) ys h = rw (no_zero c h.0) (ap (λ l. c ∷ l) (cut_bytes xs ys h.1))
  where
    no_zero : (c : ℕ) → IsByte c → (c == 0) ≡ false
    no_zero c h = ground (arith, h)

prefix_left : (n : ℕ) (xs ys : List ℕ) → n ≤ length xs → prefix n (xs ++ ys) ≡ prefix n xs
prefix_left zero xs ys h = refl
prefix_left (suc n) [] ys h = absurd (omega (arith, h))
prefix_left (suc n) (c ∷ xs) ys h = ap (λ l. c ∷ l) (prefix_left n xs ys (omega (arith, h)))

prefix_all : (xs : List ℕ) → prefix (length xs) xs ≡ xs
prefix_all [] = refl
prefix_all (c ∷ xs) = ap (λ l. c ∷ l) (prefix_all xs)

behind_all : (xs ys : List ℕ) → behind (length xs) (xs ++ ys) ≡ ys
behind_all [] ys = refl
behind_all (c ∷ xs) ys = behind_all xs ys

strchr_at :
    (i : ℕ) (xs ys : List ℕ)
    → All IsByte xs
    → All (λ c. c ≢ 0x2E) xs
    → strchr_from i (xs ++ 0x2E ∷ ys) 0x2E ≡ i + length xs
unfolding strchr_from
strchr_at i [] ys h d = omega arith
strchr_at i (c ∷ xs) ys h d = rw (other c h.0 d.0) (strchr_at (i + 1) xs ys h.1 d.1 ∙ omega arith)
  where
    other : (c : ℕ) → IsByte c → c ≢ 0x2E → (int_of c == 0x2E) ≡ false
    other c h d = ground (arith, h, d)

zero_iff : (n : ℕ) → ((n == 0) ≡ true) ↔ (n ≡ 0)
zero_iff n = ground arith

-- Comparing `n` bytes of two strings whose first `n` bytes are given.
compared :
    (n : ℕ) (p q a b : List ℕ)
    → prefix n p ≡ a
    → prefix n q ≡ b
    → All IsByte a
    → All IsByte b
    → ((strncmp p q n == 0) ≡ true) ↔ (a ≡ b)
compared n p q a b e f x y =
    let z = zero_iff (strncmp p q n) in
    let s = strcmp_iff a b x y in
    let m = strncmp-prefix p q n ∙ rw (e, f) refl in
    (λ g. s.0 (sym m ∙ z.0 g), λ g. z.1 (m ∙ s.1 g))

strchr_lem :
    (xs ys : List ℕ)
    → All IsByte xs
    → All (λ c. c ≢ 0x2E) xs
    → strchr (xs ++ 0x2E ∷ ys) 0x2E ≡ length xs
unfolding strchr
strchr_lem xs ys h d = strchr_at 0 xs ys h d ∙ omega arith

name_length_lem : (n : ℕ) → n ≤ 8 → name_length n ≡ n
name_length_lem n h = ground (arith, h)

dot_behind : (xs ys : List ℕ) → length xs ≤ 8 → behind (add32 (length xs) 1) (xs ++ 0x2E ∷ ys) ≡ ys
dot_behind xs ys h = rw (word (length xs) h) (after xs ys)
  where
    word : (n : ℕ) → n ≤ 8 → add32 n 1 ≡ suc n
    word n h = omega (arith, h)

    after : (xs ys : List ℕ) → behind (suc (length xs)) (xs ++ 0x2E ∷ ys) ≡ ys
    after [] ys = refl
    after (c ∷ xs) ys = after xs ys

-- A name of bytes with its extension behind a point.
pub record IsName (base ext : List ℕ) : Type 0 where
  pub bytes : All IsByte base
  pub ext_bytes : All IsByte ext
  pub no_point : All (λ c. c ≢ 0x2E) base
  pub short : length base ≤ 8

-- An entry whose name and extension fill their fields.
pub record IsEntry (e : DirEntry) : Type 0 where
  pub bytes : All IsByte e.filename
  pub ext_bytes : All IsByte e.extension
  pub name_field : length e.filename ≡ 8
  pub ext_field : length e.extension ≡ 3

pub both_iff : (a b : Bool) → ((a && b) ≡ true) ↔ ((a ≡ true) × (b ≡ true))
both_iff a b = ground arith

module _ (base ext : List ℕ) (e : DirEntry) (h : IsName base ext) (k : IsEntry e) where
  name_part : prefix (length base) (base ++ 0x2E ∷ ext) ≡ base
  name_part = prefix_left (length base) base (0x2E ∷ ext) (omega arith) ∙ prefix_all base

  field_part :
      prefix (length base) (cut (e.filename ++ (e.extension ++ entry_rest e)))
      ≡ prefix (length base) e.filename
  field_part =
      ap (prefix (length base)) (cut_bytes e.filename (e.extension ++ entry_rest e) k.bytes)
      ∙ prefix_left (length base) e.filename _ (omega (arith, h.short, k.name_field))

  ext_part : prefix 3 (cut (e.extension ++ entry_rest e)) ≡ e.extension
  ext_part =
      ap (prefix 3) (cut_bytes e.extension (entry_rest e) k.ext_bytes)
      ∙ prefix_left 3 e.extension _ (omega (arith, k.ext_field))
      ∙ ap (λ n. prefix n e.extension) (sym k.ext_field)
      ∙ prefix_all e.extension

  name_iff :
      ((strncmp
            (base ++ 0x2E ∷ ext)
            (cut (e.filename ++ (e.extension ++ entry_rest e)))
            (length base)
          == 0)
        ≡ true)
      ↔ (base ≡ prefix (length base) e.filename)
  name_iff =
      compared (length base) _ _ base (prefix (length base) e.filename) name_part field_part h.bytes
        (IsByte-prefix (length base) e.filename k.bytes)

  ext_iff :
      ((strncmp ext (cut (e.extension ++ entry_rest e)) 3 == 0) ≡ true)
      ↔ (prefix 3 ext ≡ e.extension)
  ext_iff =
      compared 3 ext _ (prefix 3 ext) e.extension refl ext_part (IsByte-prefix 3 ext h.ext_bytes)
        k.ext_bytes

  found_split : found (base ++ 0x2E ∷ ext) e ≡ (
      strncmp (base ++ 0x2E ∷ ext) (cut (e.filename ++ (e.extension ++ entry_rest e))) (length base)
        == 0
      && strncmp ext (cut (e.extension ++ entry_rest e)) 3 == 0)
  unfolding found
  found_split =
      rw
        (
          strchr_lem base ext h.bytes h.no_point,
          name_length_lem (length base) h.short,
          dot_behind base ext h.short,
        )
        refl

  -- `fat12_find_file` takes an entry for a file whose name and extension are given if the entry's
  -- name begins with the name and its extension is the first three bytes of the extension.
  pub found_iff :
      (found (base ++ 0x2E ∷ ext) e ≡ true)
      ↔ ((base ≡ prefix (length base) e.filename) × (prefix 3 ext ≡ e.extension))
  found_iff =
      let b = both_iff _ _ in
      (
        λ g. let (x, y) = b.0 (sym found_split ∙ g) in (name_iff.0 x, ext_iff.0 y),
        λ g. found_split ∙ b.1 (name_iff.1 g.0, ext_iff.1 g.1),
      )
