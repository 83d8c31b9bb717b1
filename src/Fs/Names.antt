-- ===== src/Fs/Names.antt =====
-- Which names lead to which driver.
use Prim.Native.Nat.{bit_and}
use pso.Base.{
  ℕ, zero, suc, ◌==◌, List, [], ◌∷◌, ◌++◌, ◌≡◌, ◌≢◌, ◌↔◌, refl, sym, ap, ◌∙◌, arith, All, true,
  false, Bool-cases, inl, inr, subst, ◌⊎◌,
}
use pso.LibStr.{strcmp, strncmp}
use pso.LibStr.Compare.{IsByte, IsByte-prefix, prefix, strcmp_iff, strncmp-prefix}
use pso.Fs.{
  Opens, serial_open, con_open, proc_cpuid_open, fat12_open, null, serial0, serial1, console, cpuid,
  disk, behind, fs_open,
}

-- The choice as the documentation of the names has it: a name and the driver that it stands for.
pub data Named : List ℕ → ℕ → Opens → Type 0 where
  is_serial0 : {flags : ℕ} → Named serial0 flags (serial_open 0)
  is_serial1 : {flags : ℕ} → Named serial1 flags (serial_open 1)
  is_console : {flags : ℕ} → Named console flags con_open
  is_cpuid : {flags : ℕ} → Named cpuid flags proc_cpuid_open
  is_file : {flags : ℕ} (path : List ℕ) → Named (disk ++ path) flags (fat12_open path flags)

named_opens :
    (name : List ℕ) (flags : ℕ) (o : Opens)
    → (bit_and flags 3 == 0) ≡ false
    → Named name flags o
    → fs_open name flags ≡ o
unfolding fs_open strcmp strncmp
named_opens name flags o h is_serial0 = rw h refl
named_opens name flags o h is_serial1 = rw h refl
named_opens name flags o h is_console = rw h refl
named_opens name flags o h is_cpuid = rw h refl
named_opens name flags o h (is_file path) = rw h refl

prefix-behind : (n : ℕ) (s : List ℕ) → prefix n s ++ behind n s ≡ s
prefix-behind zero s = refl
prefix-behind (suc n) [] = refl
prefix-behind (suc n) (c ∷ s) = ap (λ l. c ∷ l) (prefix-behind n s)

same : (name p : List ℕ) → All IsByte name → All IsByte p → (strcmp name p == 0) ≡ true → p ≡ name
same name p a b e = sym ((strcmp_iff name p a b).0 (is_zero (strcmp name p) e))
  where
    is_zero : (n : ℕ) → (n == 0) ≡ true → n ≡ 0
    is_zero n e = ground (arith, e)

renamed :
    (p name : List ℕ) (flags : ℕ) (o : Opens) → p ≡ name → Named p flags o → Named name flags o
renamed p name flags o e r = subst (λ s. Named s flags o) e r

below_disk :
    (name : List ℕ)
    → All IsByte name
    → (strncmp name disk 6 == 0) ≡ true
    → disk ++ behind 6 name ≡ name
below_disk name a e =
    ap (λ l. l ++ behind 6 name)
      (same (prefix 6 name) disk (IsByte-prefix 6 name a) (ground arith)
        (ap (λ n. n == 0) (sym (strncmp-prefix name disk 6)) ∙ e))
    ∙ prefix-behind 6 name

opens_named :
    (name : List ℕ) (flags : ℕ)
    → All IsByte name
    → (fs_open name flags ≡ null)
      ⊎ (((bit_and flags 3 == 0) ≡ false) × Named name flags (fs_open name flags))
unfolding fs_open
opens_named name flags a = elim (Bool-cases (bit_and flags 3 == 0)) [
  | inl e ↦ rw e (inl refl)
  | inr e ↦ elim (Bool-cases (strcmp name serial0 == 0)) [
    | inl f ↦
        rw (e, f)
          (inr (
            refl,
            renamed serial0 name flags (serial_open 0) (same name serial0 a (ground arith) f)
                is_serial0,
          ))
    | inr f ↦ elim (Bool-cases (strcmp name serial1 == 0)) [
      | inl g ↦
          rw (e, f, g)
            (inr (
              refl,
              renamed serial1 name flags (serial_open 1) (same name serial1 a (ground arith) g)
                  is_serial1,
            ))
      | inr g ↦ elim (Bool-cases (strcmp name console == 0)) [
        | inl h ↦
            rw (e, f, g, h)
              (inr (
                refl,
                renamed console name flags con_open (same name console a (ground arith) h)
                    is_console,
              ))
        | inr h ↦ elim (Bool-cases (strcmp name cpuid == 0)) [
          | inl i ↦
              rw (e, f, g, h, i)
                (inr (
                  refl,
                  renamed cpuid name flags proc_cpuid_open (same name cpuid a (ground arith) i)
                      is_cpuid,
                ))
          | inr i ↦ elim (Bool-cases (strncmp name disk 6 == 0)) [
            | inl j ↦
                rw (e, f, g, h, i, j)
                  (inr
                    (refl, renamed _ name flags _ (below_disk name a j) (is_file (behind 6 name))))
            | inr j ↦ rw (e, f, g, h, i, j) (inl refl)
          ]
        ]
      ]
    ]
  ]
]

-- Something is opened exactly if the flags ask for reading or writing and the name is that of one of
-- the devices or of a file behind /disk/, and then it is what the name stands for.
pub fs_open-Named :
    (name : List ℕ) (flags : ℕ) (o : Opens)
    → All IsByte name
    → o ≢ null
    → (fs_open name flags ≡ o) ↔ (((bit_and flags 3 == 0) ≡ false) × Named name flags o)
fs_open-Named name flags o a n = (
  λ e. elim (opens_named name flags a) [
    | inl z ↦ absurd (n (sym e ∙ z))
    | inr (b, r) ↦ (b, subst (Named name flags) e r)
  ],
  λ (b, r). named_opens name flags o b r,
)
