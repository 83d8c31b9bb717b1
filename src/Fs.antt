-- ===== src/Fs.antt =====
-- Opening by name: tp1/src/kernel/fs.c. What the drivers return is left to them: the result says
-- which of them is asked, and for what.
pub mod Names
mod Examples
use Prim.Native.Nat.{bit_and}
use pso.Base.{ℕ, zero, suc, ◌==◌, if◌then◌else◌, List, [], ◌∷◌, Option, none, some, minus_one}
use pso.LibStr.{strcmp, strncmp}

-- The calls that `fs_open` ends with, or NULL.
pub data Opens : Type 0 where
  serial_open : ℕ → Opens
  con_open proc_cpuid_open : Opens
  fat12_open : List ℕ → ℕ → Opens
  null : Opens

-- "/serial0", "/serial1", "/console", "/proc/cpuid" and "/disk/"
abbrev pub serial0 : List ℕ
serial0 = 47 ∷ 115 ∷ 101 ∷ 114 ∷ 105 ∷ 97 ∷ 108 ∷ 48 ∷ []

abbrev pub serial1 : List ℕ
serial1 = 47 ∷ 115 ∷ 101 ∷ 114 ∷ 105 ∷ 97 ∷ 108 ∷ 49 ∷ []

abbrev pub console : List ℕ
console = 47 ∷ 99 ∷ 111 ∷ 110 ∷ 115 ∷ 111 ∷ 108 ∷ 101 ∷ []

abbrev pub cpuid : List ℕ
cpuid = 47 ∷ 112 ∷ 114 ∷ 111 ∷ 99 ∷ 47 ∷ 99 ∷ 112 ∷ 117 ∷ 105 ∷ 100 ∷ []

abbrev pub disk : List ℕ
disk = 47 ∷ 100 ∷ 105 ∷ 115 ∷ 107 ∷ 47 ∷ []

-- `filename + n`
abbrev pub behind : ℕ → List ℕ → List ℕ
behind zero s = s
behind (suc n) [] = []
behind (suc n) (c ∷ s) = behind n s

-- `fs_open`
unfoldable pub fs_open : List ℕ → ℕ → Opens
fs_open filename flags =
    if bit_and flags 3 == 0
    then null
    else if strcmp filename serial0 == 0
    then serial_open 0
    else if strcmp filename serial1 == 0
    then serial_open 1
    else if strcmp filename console == 0
    then con_open
    else if strcmp filename cpuid == 0
    then proc_cpuid_open
    else if strncmp filename disk 6 == 0
    then fat12_open (behind 6 filename) flags
    else null

-- `sys_open`: `open` is what the drivers give, and `descriptor` stands for `device_descriptor`.
unfoldable pub sys_open : (Opens → Option ℕ) → (ℕ → ℕ) → List ℕ → ℕ → ℕ
sys_open driver descriptor filename flags = elim (driver (fs_open filename flags)) [
  | none ↦ minus_one
  | some dev ↦ descriptor dev
]
