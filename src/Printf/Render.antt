-- ===== src/Printf/Render.antt =====
-- What a format stands for, and what the two loops make of it.
use pso.Base.{
  ℕ, ◌+◌, ◌-◌, ◌%◌, ◌^◌, ◌≤◌, ◌<◌, Bool, true, false, ◌≡◌, ◌≢◌, refl, sym, ap, ◌∙◌, List, [], ◌∷◌,
  ◌++◌, length, length-append, Option, none, some, update, arith, ==_ne,
}
use pso.LibStr.{str_into_string}
use pso.LibStr.Numbers.Digits.{Highest, digits}
use pso.Printf.Numerals.{decimal_in, negative_in, hexadecimal_in}
use pso.Printf.{
  Arg, Directive, word, text, other, dec, hex, directive, directive_in, directive_len, len_loop,
  in_loop, sprintf_in, printf_len,
}

-- A format, its arguments and the text that they stand for. 37 is `%`, 99 `c`, 115 `s` and 45 `-`.
-- Directives of numbers are among those considered where `numbers` is true.
pub data Renders (numbers : Bool) : List ℕ → List Arg → List ℕ → Type 0 where
  ends : {args : List Arg} → Renders numbers [] args []
  percent : {args : List Arg} → Renders numbers (37 ∷ []) args []
  plain :
      {c : ℕ} {fmt : List ℕ} {args : List Arg} {t : List ℕ}
      → c ≢ 37
      → Renders numbers fmt args t
      → Renders numbers (c ∷ fmt) args (c ∷ t)
  char :
      {x : ℕ} {fmt : List ℕ} {args : List Arg} {t : List ℕ}
      → Renders numbers fmt args t
      → Renders numbers (37 ∷ 99 ∷ fmt) (word x ∷ args) (x % 2 ^ 8 ∷ t)
  string :
      {s : List ℕ} {fmt : List ℕ} {args : List Arg} {t : List ℕ}
      → Renders numbers fmt args t
      → Renders numbers (37 ∷ 115 ∷ fmt) (text s ∷ args) (s ++ t)
  unknown :
      {d : ℕ} {fmt : List ℕ} {args : List Arg} {t : List ℕ}
      → directive d ≡ other
      → Renders numbers fmt args t
      → Renders numbers (37 ∷ d ∷ fmt) args t
  decimal :
      {d x m : ℕ} {fmt : List ℕ} {args : List Arg} {t : List ℕ}
      → numbers ≡ true
      → directive d ≡ dec
      → x < 2 ^ 31
      → Highest 10 m x
      → Renders numbers fmt args t
      → Renders numbers (37 ∷ d ∷ fmt) (word x ∷ args) (digits 10 m x ++ t)
  negative :
      {d x m : ℕ} {fmt : List ℕ} {args : List Arg} {t : List ℕ}
      → numbers ≡ true
      → directive d ≡ dec
      → 2 ^ 31 ≤ x
      → x < 2 ^ 32
      → Highest 10 m (2 ^ 32 - x)
      → Renders numbers fmt args t
      → Renders numbers (37 ∷ d ∷ fmt) (word x ∷ args) (45 ∷ digits 10 m (2 ^ 32 - x) ++ t)
  hexadecimal :
      {d x m : ℕ} {fmt : List ℕ} {args : List Arg} {t : List ℕ}
      → numbers ≡ true
      → directive d ≡ hex
      → x < 2 ^ 32
      → Highest 16 m x
      → Renders numbers fmt args t
      → Renders numbers (37 ∷ d ∷ fmt) (word x ∷ args) (digits 16 m x ++ t)

str_into_string-append :
    (buf : ℕ → ℕ) (i : ℕ) (xs ys : List ℕ)
    → str_into_string buf i (xs ++ ys)
      ≡ str_into_string (str_into_string buf i xs).0 (str_into_string buf i xs).1 ys
unfolding str_into_string
str_into_string-append buf i [] ys = refl
str_into_string-append buf i (x ∷ xs) ys = str_into_string-append (update buf i x) (i + 1) xs ys

str_into_string_end :
    (buf : ℕ → ℕ) (i : ℕ) (xs : List ℕ) → (str_into_string buf i xs).1 ≡ i + length xs
unfolding str_into_string
str_into_string_end buf i [] = omega arith
str_into_string_end buf i (x ∷ xs) = str_into_string_end (update buf i x) (i + 1) xs ∙ omega arith

special_in :
    (d : ℕ) (k : Directive) (fmt : List ℕ) (args : List Arg) (buf : ℕ → ℕ) (count : ℕ)
    → directive d ≡ k
    → in_loop (37 ∷ d ∷ fmt) args buf count
      ≡ (elim (directive_in k args buf count) as (λ y. Option ((ℕ → ℕ) × ℕ)) [
        | none ↦ none
        | some r ↦ in_loop fmt r.1 r.0.0 r.0.1
      ])
unfolding in_loop directive_in directive
special_in d k fmt args buf count e =
    ap
      (λ x. elim (directive_in x args buf count) as (λ y. Option ((ℕ → ℕ) × ℕ)) [
        | none ↦ none
        | some r ↦ in_loop fmt r.1 r.0.0 r.0.1
      ])
      e

unknown_len :
    (d : ℕ) (fmt : List ℕ) (args : List Arg) (count : ℕ)
    → directive d ≡ other
    → len_loop (37 ∷ d ∷ fmt) args count ≡ len_loop fmt args (count + 0)
unfolding len_loop directive_len directive
unknown_len d fmt args count e =
    ap
      (λ x. elim (directive_len x args) as (λ y. Option ℕ) [
        | none ↦ none
        | some r ↦ len_loop fmt r.1 (count + r.0)
      ])
      e

-- A directive that writes `u` is followed by the rest of the format behind it.
written_in :
    (d : ℕ) (k : Directive) (fmt : List ℕ) (x : Arg) (args : List Arg) (u t : List ℕ) (buf : ℕ → ℕ)
    (count : ℕ)
    → directive d ≡ k
    → directive_in k (x ∷ args) buf count ≡ some (str_into_string buf count u, args)
    → in_loop fmt args (str_into_string buf count u).0 (str_into_string buf count u).1
      ≡ some (str_into_string (str_into_string buf count u).0 (str_into_string buf count u).1 t)
    → in_loop (37 ∷ d ∷ fmt) (x ∷ args) buf count ≡ some (str_into_string buf count (u ++ t))
written_in d k fmt x args u t buf count e w rest =
    special_in d k fmt (x ∷ args) buf count e
    ∙ rw w (rest ∙ ap some (sym (str_into_string-append buf count u t)))

printed :
    (numbers : Bool) (fmt : List ℕ) (args : List Arg) (t : List ℕ) (buf : ℕ → ℕ) (count : ℕ)
    → Renders numbers fmt args t
    → in_loop fmt args buf count ≡ some (str_into_string buf count t)
unfolding in_loop str_into_string
printed numbers fmt args t buf count ends = refl
printed numbers fmt args t buf count percent = refl
printed numbers (c ∷ []) args t buf count (plain n r) =
    rw (==_ne c 37 n) (printed numbers [] args _ (update buf count c) (count + 1) r)
printed numbers (c ∷ d ∷ fmt) args t buf count (plain n r) =
    rw (==_ne c 37 n) (printed numbers (d ∷ fmt) args _ (update buf count c) (count + 1) r)
printed numbers fmt args t buf count (char {x = x} r) =
    printed numbers _ _ _ (update buf count (x % 2 ^ 8)) (count + 1) r
printed numbers fmt args t buf count (string {s = s} {t = u} r) =
    printed numbers _ _ _ (str_into_string buf count s).0 (str_into_string buf count s).1 r
    ∙ ap some (sym (str_into_string-append buf count s u))
printed numbers fmt args t buf count (unknown {d = d} {fmt = f} e r) =
    special_in d other f args buf count e ∙ printed numbers f args t buf count r
printed numbers fmt args t buf count
      (decimal {d = d} {x = x} {m = m} {fmt = f} {args = a} {t = u} n e w high r) =
    written_in d dec f (word x) a (digits 10 m x) u buf count e (decimal_in x m a buf count w high)
      (printed numbers f a u _ _ r)
printed numbers fmt args t buf count
      (negative {d = d} {x = x} {m = m} {fmt = f} {args = a} {t = u} n e le w high r) =
    written_in d dec f (word x) a (45 ∷ digits 10 m (2 ^ 32 - x)) u buf count e
      (negative_in x m a buf count le w high) (printed numbers f a u _ _ r)
printed numbers fmt args t buf count
      (hexadecimal {d = d} {x = x} {m = m} {fmt = f} {args = a} {t = u} n e w high r) =
    written_in d hex f (word x) a (digits 16 m x) u buf count e
      (hexadecimal_in x m a buf count w high) (printed numbers f a u _ _ r)

counted :
    (fmt : List ℕ) (args : List Arg) (t : List ℕ) (count : ℕ)
    → Renders false fmt args t
    → len_loop fmt args count ≡ some (count + length t)
unfolding len_loop
counted fmt args t count ends = ap some (omega arith)
counted fmt args t count percent = ap some (omega arith)
counted (c ∷ []) args t count (plain n r) =
    rw (==_ne c 37 n) (counted [] args _ (count + 1) r ∙ ap some (omega arith))
counted (c ∷ d ∷ fmt) args t count (plain n r) =
    rw (==_ne c 37 n) (counted (d ∷ fmt) args _ (count + 1) r ∙ ap some (omega arith))
counted fmt args t count (char r) = counted _ _ _ (count + 1) r ∙ ap some (omega arith)
counted fmt args t count (string {s = s} {t = u} r) =
    counted _ _ _ (count + length s) r ∙ ap some (omega (arith, length-append s u))
counted fmt args t count (unknown {d = d} {fmt = f} e r) =
    unknown_len d f args count e ∙ counted f args t (count + 0) r ∙ ap some (omega arith)
counted fmt args t count (decimal n e w high r) = cc n
counted fmt args t count (negative n e le w high r) = cc n
counted fmt args t count (hexadecimal n e w high r) = cc n

-- The buffer is that of the text, behind it a zero byte.
sprintf_in_printed :
    (numbers : Bool) (fmt : List ℕ) (args : List Arg) (t : List ℕ) (buf : ℕ → ℕ)
    → Renders numbers fmt args t
    → sprintf_in buf fmt args ≡ some (update (str_into_string buf 0 t).0 (length t) 0)
unfolding sprintf_in
sprintf_in_printed numbers fmt args t buf r =
    ap (λ o. elim o as (λ x. Option (ℕ → ℕ)) [ none ↦ none | some r ↦ some (update r.0 r.1 0) ])
      (printed numbers fmt args t buf 0 r)
    ∙ (ap (λ i. some (update (str_into_string buf 0 t).0 i 0))
        (str_into_string_end buf 0 t ∙ omega arith))

-- A format is printed as the text that it stands for, with a zero byte behind it: characters and
-- strings as they are, a word in decimal as the `int` that it is, with a sign if that is negative,
-- or in hexadecimal, from its highest digit on. An unknown directive is left out.
pub sprintf_in-Renders_numbers :
    (fmt : List ℕ) (args : List Arg) (t : List ℕ) (buf : ℕ → ℕ)
    → Renders true fmt args t
    → sprintf_in buf fmt args ≡ some (update (str_into_string buf 0 t).0 (length t) 0)
sprintf_in-Renders_numbers = sprintf_in_printed true

-- A format whose directives are characters and strings, or unknown, is printed as the text that it
-- stands for, with a zero byte behind it, and the length that `printf_len` computes is that of the
-- text.
pub sprintf_in-Renders :
    (fmt : List ℕ) (args : List Arg) (t : List ℕ) (buf : ℕ → ℕ)
    → Renders false fmt args t
    → (sprintf_in buf fmt args ≡ some (update (str_into_string buf 0 t).0 (length t) 0))
      × (printf_len fmt args ≡ some (length t))
unfolding printf_len
sprintf_in-Renders fmt args t buf r =
    (sprintf_in_printed false fmt args t buf r, counted fmt args t 0 r ∙ ap some (omega arith))
