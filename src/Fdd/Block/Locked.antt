-- ===== src/Fdd/Block/Locked.antt =====
-- A read that fails in the middle, and what it leaves to whoever asks next.
use pso.Base.{
  ℕ, zero, suc, ◌+◌, ◌*◌, ◌%◌, ◌^◌, ◌≤◌, ◌<◌, ◌≡◌, refl, ap, ◌∙◌, subst, Bool, false, ◌&&◌, ◌==◌,
  not, leb, ltb, some, arith,
}
use pso.Loader.{Loader, enqueue}
use pso.Sem.{Sem, wait}
use pso.Fdd.{FddError, dev_no_read, Result, ok, err}
use pso.Fdd.Block.{
  Floppy, Reader, wanted, copy_bytes, block_loop, block_read, block_read_request, unconfigured,
  sect_count, cylinder_of, head_of, sector_of, leave,
}
use pso.Fdd.Block.Transfer.{copy_bytes_lem}
use pso.Fdd.Block.Geometry.{chs_lem}

-- From sector `s` of a track on, `k` sectors can be read, and the one behind them cannot.
pub record IsBadAt {S : Type 0} (reader : Reader S) (c h s k : ℕ) : Type 0 where
  pub good : (j : ℕ) → j < k → (st : S) → (reader.read c h (s + j) st).0 ≡ ok tt
  pub bad : (st : S) → (e : FddError) × ((reader.read c h (s + k) st).0 ≡ err e)

room : (n h : ℕ) → h < n → leb n h ≡ false
room n h l = ground (arith, l)

low : (c : ℕ) → c < 256 → c % 2 ^ 8 ≡ c
low c x = omega (arith, x)

room_left : (n s : ℕ) → s < n → ltb n (s + 1) ≡ false
room_left n s l = ground (arith, l)

outside :
    (size j i : ℕ)
    → 512 * (j + 1) ≤ i
    → (leb (512 * j + 0) i && ltb i (512 * j + 0 + wanted size j)) ≡ false
outside size j i l = ground (arith, l)

module _ {S : Type 0} (reader : Reader S) (f : Floppy) (size c h : ℕ) (heads : h < f.head_count)
    (small : c < 256) (few : h < 256) (track : f.sect_per_track < 256) where
  -- The place as bytes is the place.
  at_place :
      (s : ℕ) (st : S) (r : Result (Unit {0}))
      → s < 256
      → (reader.read c h s st).0 ≡ r
      → (reader.read (c % 2 ^ 8) (h % 2 ^ 8) (s % 2 ^ 8) st).0 ≡ r
  at_place s st r l e = rw (low c small, low h few, low s l) e

  fails :
      (n j s : ℕ) (usr : ℕ → ℕ) (st : S) (e : FddError)
      → (reader.read (c % 2 ^ 8) (h % 2 ^ 8) (s % 2 ^ 8) st).0 ≡ err e
      → block_loop reader f size (suc n) j (c, (h, s)) usr st
        ≡ (err dev_no_read, (usr, (reader.read (c % 2 ^ 8) (h % 2 ^ 8) (s % 2 ^ 8) st).1))
  unfolding block_loop
  fails n j s usr st e p = rw (room f.head_count h heads, p) refl

  goes_on :
      (n j s : ℕ) (usr : ℕ → ℕ) (st : S)
      → s < f.sect_per_track
      → (reader.read (c % 2 ^ 8) (h % 2 ^ 8) (s % 2 ^ 8) st).0 ≡ ok tt
      → (st' : S) × (usr' : ℕ → ℕ) × (block_loop reader f size (suc n) j (c, (h, s)) usr st
          ≡ block_loop reader f size n (j + 1) (c, (h, s + 1)) usr' st')
        × ((i : ℕ) → 512 * (j + 1) ≤ i → usr' i ≡ usr i)
  unfolding block_loop
  goes_on n j s usr st l p =
      let st' = (reader.read (c % 2 ^ 8) (h % 2 ^ 8) (s % 2 ^ 8) st).1 in
      (
        st',
        copy_bytes (wanted size j) 0 (512 * j) (reader.buffer st') usr,
        rw (room f.head_count h heads, p, room_left f.sect_per_track s l) refl,
        λ i b.
            copy_bytes_lem (wanted size j) 0 (512 * j) (reader.buffer st') usr i
            ∙ rw (outside size j i b) refl,
      )

  stops :
      (k n j s : ℕ) (usr : ℕ → ℕ) (st : S)
      → k < n
      → s + k ≤ f.sect_per_track
      → IsBadAt reader c h s k
      → ((block_loop reader f size n j (c, (h, s)) usr st).0 ≡ err dev_no_read)
        × ((i : ℕ)
            → 512 * (j + k) ≤ i
            → (block_loop reader f size n j (c, (h, s)) usr st).1.0 i ≡ usr i)
  stops k zero j s usr st a b d = absurd (omega (arith, a))
  stops zero (suc n) j s usr st a b d =
      let (e, p) = d.bad st in
      let zero_more : s + 0 ≡ s = omega arith in
      let q = fails n j s usr st e (
        at_place s st (err e) (omega (arith, b, track))
          (subst (λ z. (reader.read c h z st).0 ≡ err e) zero_more p)) in
      (ap (λ r. r.0) q, λ i l. ap (λ r. r.1.0 i) q)
  stops (suc k) (suc n) j s usr st a b d =
      let zero_more : s + 0 ≡ s = omega arith in
      let (st', usr', e, p) = goes_on n j s usr st (omega (arith, b)) (
        at_place s st (ok tt) (omega (arith, b, track))
          (subst (λ z. (reader.read c h z st).0 ≡ ok tt) zero_more (d.good 0 (omega arith) st))) in
      let (q, r) = stops k n (j + 1) (s + 1) usr' st' (omega (arith, a)) (omega (arith, b)) record {
        good = λ i l t.
            subst (λ z. (reader.read c h z t).0 ≡ ok tt) (shift s i)
              (d.good (i + 1) (omega (arith, l)) t);
        bad = λ t.
            subst (λ z. (x : FddError) × ((reader.read c h z t).0 ≡ err x)) (shift_suc s k)
              (d.bad t);
      } in
      (
        ap (λ x. x.0) e ∙ q,
        λ i l. ap (λ x. x.1.0 i) e ∙ r i (omega (arith, l)) ∙ p i (omega (arith, l)),
      )
    where
      shift : (s i : ℕ) → s + (i + 1) ≡ s + 1 + i
      shift s i = omega arith

      shift_suc : (s k : ℕ) → s + suc k ≡ s + 1 + k
      shift_suc s k = omega arith

leave_err :
    {S : Type 0} (reader : Reader S) (fdc_sem : Sem) (l : Loader)
    (r : Result (Unit {0}) × ((ℕ → ℕ) × S)) (e : FddError)
    → r.0 ≡ err e
    → leave reader fdc_sem l r ≡ (err e, (r.1, (fdc_sem, l)))
leave_err reader fdc_sem l (x, r) e p = ap (λ y. leave reader fdc_sem l (y, r)) p

loop_of :
    {S : Type 0} (reader : Reader S) (pos size : ℕ) (f : Floppy) (usr : ℕ → ℕ) (st : S)
    (fdc_sem : Sem) (l : Loader)
    → 0 < pos
    → block_read reader pos size f usr st fdc_sem l
      ≡ leave reader fdc_sem l (
          block_loop reader f size
            (sect_count size)
            0
            (
              cylinder_of f.sect_per_track pos,
              (head_of f.sect_per_track pos, sector_of f.sect_per_track pos),
            )
            usr
            st)
unfolding block_read
loop_of reader pos size f usr st fdc_sem l x = rw (no_zero pos x) refl
  where
    no_zero : (n : ℕ) → 0 < n → (n == 0) ≡ false
    no_zero n x = ground (arith, x)

-- Asking for the controller while it is taken.
waits :
    {S : Type 0} (reader : Reader S) (pos : ℕ) (f : Floppy) (fdc_sem : Sem) (l : Loader)
    → fdc_sem.vl ≡ 0
    → unconfigured f ≡ false
    → block_read_request reader pos f fdc_sem l
      ≡ some (record fdc_sem { q = (enqueue fdc_sem.q l).0 }, (enqueue fdc_sem.q l).1)
unfolding block_read_request wait
waits reader pos f fdc_sem l v u = rw (u, v, never (not (pos == 0))) refl
  where
    never : (b : Bool) → (b && false) ≡ false
    never b = ground arith

-- A read of sectors of one track of a configured device with two heads, from a sector other than 0 on,
-- of which the first `k` can be read and the next one cannot: it returns the error of a read, leaves
-- the user's buffer behind these `k` sectors as it was, and does not signal the semaphore that it
-- holds. With no place left there, whoever asks next to read from a configured device waits in its
-- queue.
pub block_read-stuck :
    {S : Type 0} (reader : Reader S) (pos size k : ℕ) (f : Floppy) (usr : ℕ → ℕ) (st : S)
    (fdc_sem : Sem) (l next : Loader) (next_pos : ℕ) (next_f : Floppy)
    → 0 < pos
    → 1 < f.head_count
    → 0 < f.sect_per_track
    → f.sect_per_track < 256
    → cylinder_of f.sect_per_track pos < 256
    → k < sect_count size
    → pos % f.sect_per_track + k < f.sect_per_track
    → IsBadAt reader
        (cylinder_of f.sect_per_track pos)
        (head_of f.sect_per_track pos)
        (sector_of f.sect_per_track pos)
        k
    → fdc_sem.vl ≡ 0
    → unconfigured next_f ≡ false
    → ((block_read reader pos size f usr st fdc_sem l).0 ≡ err dev_no_read)
      × ((i : ℕ) → 512 * k ≤ i → (block_read reader pos size f usr st fdc_sem l).1.0.0 i ≡ usr i)
      × ((block_read reader pos size f usr st fdc_sem l).1.1 ≡ (fdc_sem, l))
      × (block_read_request reader next_pos next_f
            (block_read reader pos size f usr st fdc_sem l).1.1.0
            next
          ≡ some (record fdc_sem { q = (enqueue fdc_sem.q next).0 }, (enqueue fdc_sem.q next).1))
block_read-stuck reader pos size k f usr st fdc_sem l next next_pos next_f a b c d g n t bad v u =
    let spt = f.sect_per_track in
    let two = (chs_lem spt pos c).0 in
    let (q, r) =
      stops reader f size (cylinder_of spt pos) (head_of spt pos) (omega (arith, two, b)) g
        (omega (arith, two)) d k (sect_count size) 0 (sector_of spt pos) usr st n (omega (arith, t))
        bad in
    let e =
      loop_of reader pos size f usr st fdc_sem l a ∙ leave_err reader fdc_sem l _ dev_no_read q in
    (
      ap (λ x. x.0) e,
      λ i m. ap (λ x. x.1.0.0 i) e ∙ r i (omega (arith, m)),
      ap (λ x. x.1.1) e,
      ap (λ x. block_read_request reader next_pos next_f x.1.1.0 next) e
          ∙ waits reader next_pos next_f fdc_sem next v u,
    )
