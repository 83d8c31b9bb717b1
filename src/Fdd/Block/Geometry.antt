-- ===== src/Fdd/Block/Geometry.antt =====
-- Sectors by number, and by cylinder, head and sector.
use native.Mathlib.Nat.{
  mod-mod_of_dvd, mod-add-div', mod-lt, div-lt_iff_lt-mul, dvd-mul_right, add-mul-div_right,
  add-mul-mod_self_right, div-eq_of_lt, mod-eq_of_lt, div-div-eq-div-mul,
}
use pso.Base.{ℕ, ◌+◌, ◌-◌, ◌*◌, ◌/◌, ◌%◌, ◌≤◌, ◌<◌, ◌≡◌, refl, sym, ap, ◌∙◌, arith}
use pso.Fdd.Block.{cylinder_of, head_of, sector_of}

pos_of : (n : ℕ) → 0 < n → 0 < n * 2
pos_of n h = omega (arith, h)

-- The place computed for a sector is one of a disk with two heads, and the sector's number is found
-- again from it: every sector number has a place of its own.
pub chs_lem :
    (spt pos : ℕ)
    → 0 < spt
    → (head_of spt pos < 2)
      × (0 < sector_of spt pos)
      × (sector_of spt pos ≤ spt)
      × ((cylinder_of spt pos * 2 + head_of spt pos) * spt + (sector_of spt pos - 1) ≡ pos)
chs_lem spt pos h = (
  (div-lt_iff_lt-mul h).1 (grind (arith, mod-lt pos (pos_of spt h))),
  omega arith,
  omega (arith, mod-lt pos h),
  grind (
    arith,
    mod-add-div' pos (spt * 2),
    mod-add-div' (pos % (spt * 2)) spt,
    mod-mod_of_dvd spt pos (dvd-mul_right spt 2),
  ),
)

module _ (spt pos m : ℕ) (h : 0 < spt) (l : pos % spt + m < spt) where
  split : pos + m ≡ (pos % spt + m) + pos / spt * spt
  split = omega (arith, mod-add-div' pos spt)

  same_div : (pos + m) / spt ≡ pos / spt
  same_div =
      ap (λ x. x / spt) split
      ∙ add-mul-div_right (pos % spt + m) (pos / spt) h
      ∙ omega (arith, div-eq_of_lt l)

  same_sector : sector_of spt (pos + m) ≡ sector_of spt pos + m
  same_sector = omega (
    arith,
    ap (λ x. x % spt) split,
    add-mul-mod_self_right (pos % spt + m) (pos / spt) spt,
    mod-eq_of_lt l,
  )

  same_cylinder : cylinder_of spt (pos + m) ≡ cylinder_of spt pos
  same_cylinder =
      sym (div-div-eq-div-mul (pos + m) spt 2)
      ∙ ap (λ x. x / 2) same_div
      ∙ div-div-eq-div-mul pos spt 2

expand : (spt x : ℕ) → x ≡ x % (spt * 2) + x / (spt * 2) * 2 * spt
expand spt x = grind (arith, mod-add-div' x (spt * 2))

head_lem : (spt x : ℕ) → 0 < spt → x / spt ≡ head_of spt x + cylinder_of spt x * 2
head_lem spt x h =
    ap (λ y. y / spt) (expand spt x) ∙ add-mul-div_right (x % (spt * 2)) (x / (spt * 2) * 2) h

same_head :
    (spt pos m : ℕ) → 0 < spt → pos % spt + m < spt → head_of spt (pos + m) ≡ head_of spt pos
same_head spt pos m h l = omega (
  arith,
  head_lem spt pos h,
  head_lem spt (pos + m) h,
  same_cylinder spt pos m h l,
  same_div spt pos m h l,
)

-- Within a track, the sectors that follow have the places that follow.
pub same_track_lem {ℓ} :
    {A : Type ℓ} (disk : ℕ → ℕ → ℕ → A) (spt pos m : ℕ)
    → 0 < spt
    → pos % spt + m < spt
    → disk (cylinder_of spt (pos + m)) (head_of spt (pos + m)) (sector_of spt (pos + m))
      ≡ disk (cylinder_of spt pos) (head_of spt pos) (sector_of spt pos + m)
same_track_lem disk spt pos m h l =
    rw (same_cylinder spt pos m h l, same_head spt pos m h l, same_sector spt pos m h l) refl
