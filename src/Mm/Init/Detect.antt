-- ===== src/Mm/Init/Detect.antt =====
-- How much memory is found, and what the start leaves.
use pso.Base.{
  ℕ, zero, suc, ◌+◌, ◌-◌, ◌*◌, ◌≤◌, ◌<◌, ◌≡◌, ◌≢◌, refl, true, false, inl, inr, ◌==◌, ltb,
  Bool-cases, some, arith, ==_refl, ==_ne,
}
use pso.Mm.Init.{Ram, read_word, write_word, magic_number, detect_loop, memory_detect}

-- The address found: a whole number of steps from the start on, in memory, and the next step would
-- end behind it.
pub record IsEnd (maxfree jump limit e : ℕ) : Type 0 where
  pub steps : ℕ
  pub place : e ≡ maxfree + steps * jump
  pub inside : e ≤ limit
  pub outside : limit < e + jump

-- Behind the end of the memory the mark is never read back.
pub record IsMemory (limit : ℕ) (r : Ram) : Type 0 where
  pub size : r.limit ≡ limit
  pub absent : (i : ℕ) → limit ≤ i → r.absent i ≢ magic_number

write_word-IsMemory :
    (limit i v : ℕ) (r : Ram) → IsMemory limit r → IsMemory limit (write_word i v r)
write_word-IsMemory limit i v r h = elim (Bool-cases (ltb i r.limit)) [
  | inl e ↦ rw e record { size = h.size; absent = h.absent }
  | inr e ↦ rw e h
]

written : (limit i v : ℕ) (r : Ram) → IsMemory limit r → i < limit → (write_word i v r).cells i ≡ v
written limit i v r h lt =
    let e : ltb i r.limit ≡ true = ground (arith, h.size) in rw (e, ==_refl i) refl

-- Whether the loop goes on.
goes_on :
    (limit i : ℕ) (r : Ram)
    → IsMemory limit r
    → i < limit
    → r.cells i ≡ magic_number
    → (read_word i r == magic_number) ≡ true
goes_on limit i r h lt m = let e : ltb i r.limit ≡ true = ground (arith, h.size) in rw (e, m) refl

stops :
    (limit i : ℕ) (r : Ram) → IsMemory limit r → limit ≤ i → (read_word i r == magic_number) ≡ false
stops limit i r h le =
    let e : ltb i r.limit ≡ false = ground (arith, h.size) in
    rw e (==_ne (r.absent i) magic_number (h.absent i le))

detect_loop-IsEnd :
    (fuel maxfree jump limit : ℕ) (r : Ram)
    → 0 < jump
    → IsMemory limit r
    → maxfree ≤ limit
    → limit < maxfree + fuel
    → (maxfree + jump - 1 < limit → r.cells (maxfree + jump - 1) ≡ magic_number)
    → (e : ℕ) × (r' : Ram) × (detect_loop fuel maxfree jump r ≡ some (e, r'))
      × IsEnd maxfree jump limit e
unfolding detect_loop
detect_loop-IsEnd zero maxfree jump limit r pos h le f m = absurd (omega arith)
detect_loop-IsEnd (suc fuel) maxfree jump limit r pos h le f m =
    let i = maxfree + jump - 1 in
    let next = maxfree + jump in
    let r₁ = write_word (next - 1) 0 r in
    let r₂ = write_word (next + jump - 1) magic_number r₁ in
    let h₁ = write_word-IsMemory limit (next - 1) 0 r h in
    elim (Bool-cases (ltb i limit)) [
      | inl e ↦
          (let lt : i < limit = ground arith in
            let (last, r', found, end) =
              detect_loop-IsEnd fuel next jump limit r₂ pos
                (write_word-IsMemory limit (next + jump - 1) magic_number r₁ h₁) (omega arith)
                (omega arith) (λ b. written limit (next + jump - 1) magic_number r₁ h₁ b) in
            (
              last,
              r',
              rw (goes_on limit i r h lt (m lt), detect_loop) found,
              record {
                steps = end.steps + 1;
                place = let p = end.place in grind arith;
                inside = end.inside;
                outside = end.outside;
              },
            ))
      | inr e ↦
          (let ge : limit ≤ i = ground arith in
            (
              maxfree,
              r,
              rw (stops limit i r h ge, detect_loop) refl,
              record { steps = 0; place = omega arith; inside = le; outside = omega arith },
            ))
    ]

-- `memory_detect` ends, and what it returns is a whole number of steps behind the start: the memory
-- reaches up to there, and ends before the next step does. Fuel as much as there is memory behind the
-- start is enough.
pub memory_detect-IsEnd :
    (fuel start jump limit : ℕ) (r : Ram)
    → 0 < jump
    → IsMemory limit r
    → start ≤ limit
    → limit < start + fuel
    → (e : ℕ) × (r' : Ram) × (memory_detect fuel start jump r ≡ some (e, r'))
      × IsEnd start jump limit e
unfolding memory_detect
memory_detect-IsEnd fuel start jump limit r pos h le f =
    let i = start + jump - 1 in
    detect_loop-IsEnd fuel start jump limit (write_word i magic_number r) pos
      (write_word-IsMemory limit i magic_number r h) le f
      (λ lt. written limit i magic_number r h lt)
