-- ===== src/Fs/Examples.antt =====
-- Names at work.
use pso.Base.{ℕ, ◌≡◌, ◌≢◌, ◌↔◌, ap, [], ◌∷◌, ◌++◌, ◌==◌, false, arith}
use Prim.Native.Nat.{bit_and}
use pso.Fs.{Opens, fat12_open, null, disk, fs_open}
use pso.Fs.Names.{Named, fs_open-Named}

-- "/disk/k.tsk", to be read.
fs_open-Named_example :
    (fs_open (disk ++ (107 ∷ 46 ∷ 116 ∷ 115 ∷ 107 ∷ [])) 1
      ≡ fat12_open (107 ∷ 46 ∷ 116 ∷ 115 ∷ 107 ∷ []) 1)
    ↔ (((bit_and 1 3 == 0) ≡ false)
        × Named
            (disk ++ (107 ∷ 46 ∷ 116 ∷ 115 ∷ 107 ∷ []))
            1
            (fat12_open (107 ∷ 46 ∷ 116 ∷ 115 ∷ 107 ∷ []) 1))
fs_open-Named_example =
    fs_open-Named (disk ++ (107 ∷ 46 ∷ 116 ∷ 115 ∷ 107 ∷ [])) 1
      (fat12_open (107 ∷ 46 ∷ 116 ∷ 115 ∷ 107 ∷ []) 1) (ground arith) (λ e. not_null e)
  where
    as_number : Opens → ℕ
    as_number null = 0
    as_number o = 1

    not_null : fat12_open (107 ∷ 46 ∷ 116 ∷ 115 ∷ 107 ∷ []) 1 ≢ null
    not_null e = absurd (omega (arith, ap as_number e))
