-- ===== src/Fdd/Poll.antt =====
-- The loop in which `fdd_send_byte` and `fdd_get_byte` wait for the controller.
use pso.Base.{
  ℕ, zero, suc, ◌-◌, ◌<◌, ◌==◌, if◌then◌else◌, Bool, true, false, ◌≡◌, refl, ap, ◌∙◌, arith,
  minus_one,
}
use pso.Fdd.{
  ok, err, timeout, Ports, Fdd, port_msr, port_data, takes_byte, fdd_default_timeout, poll,
  send_byte,
}

minus_one_more : (n : ℕ) → n ≡ suc n - suc zero
minus_one_more n = omega arith

minus_both : (n k : ℕ) → n - suc k ≡ suc n - suc (suc k)
minus_both n k = omega arith

last : (k : ℕ) → k < 40000 → (fdd_default_timeout - suc k == 0) ≡ (k == 39999)
last k l = ground (arith, l)

module _ {W : Type 0} (io : Ports W) where
  -- The last status read and the machine, after `k` reads of the status register.
  unfoldable pub reads : ℕ → ℕ × W → ℕ × W
  reads zero p = p
  reads (suc k) (msr, w) = reads k (io.inb port_msr w)

  poll_ready :
      (ready : ℕ → Bool) (n k : ℕ) (p : ℕ × W)
      → k < n
      → ((j : ℕ) → j < k → ready (reads j p).0 ≡ false)
      → ready (reads k p).0 ≡ true
      → poll io ready n p.0 p.1 ≡ (n - suc k, (reads k p).1)
  unfolding poll reads
  poll_ready ready zero k p l b e = absurd (omega (arith, l))
  poll_ready ready (suc n) zero (msr, w) l b e = rw e (ap (λ x. (x, w)) (minus_one_more n))
  poll_ready ready (suc n) (suc k) (msr, w) l b e = rw (b 0 (omega arith)) (
      poll_ready ready n k (io.inb port_msr w) (omega (arith, l))
        (λ j x. b (suc j) (omega (arith, x))) e
      ∙ ap (λ x. (x, (reads k (io.inb port_msr w)).1)) (minus_both n k))

  poll_never :
      (ready : ℕ → Bool) (n : ℕ) (p : ℕ × W)
      → ((j : ℕ) → j < n → ready (reads j p).0 ≡ false)
      → poll io ready n p.0 p.1 ≡ (minus_one, (reads n p).1)
  unfolding poll reads
  poll_never ready zero (msr, w) b = refl
  poll_never ready (suc n) (msr, w) b =
      rw (b 0 (omega arith))
        (poll_never ready n (io.inb port_msr w) (λ j x. b (suc j) (omega (arith, x))))

  send_byte_of :
      (byte : ℕ) (s : Fdd W) (p : ℕ × W)
      → poll io takes_byte fdd_default_timeout 0 s.world ≡ p
      → send_byte io byte s ≡ (
          if p.0 == 0
          then (err timeout, record s { world = p.1 })
          else (ok tt, record s { world = io.outb port_data byte p.1 }))
  unfolding send_byte
  send_byte_of byte s p e =
      ap
        (λ (x : ℕ × W).
          if x.0 == 0
          then (err timeout, record s { world = x.1 })
          else (ok tt, record s { world = io.outb port_data byte x.1 }))
        e

  -- The controller is ready to take a byte after `k` reads of its status, fewer than the timeout,
  -- and at none before. Then `fdd_send_byte` reads the status `k` times and writes the byte, but
  -- for the last of the reads: after it the timeout is reported although the controller is ready.
  pub send_byte-ready :
      (byte k : ℕ) (s : Fdd W)
      → k < 40000
      → ((j : ℕ) → j < k → takes_byte (reads j (0, s.world)).0 ≡ false)
      → takes_byte (reads k (0, s.world)).0 ≡ true
      → send_byte io byte s ≡ (
          if k == 39999
          then (err timeout, record s { world = (reads k (0, s.world)).1 })
          else (ok tt, record s { world = io.outb port_data byte (reads k (0, s.world)).1 }))
  send_byte-ready byte k s l b e =
      send_byte_of byte s (fdd_default_timeout - suc k, (reads k (0, s.world)).1)
        (poll_ready takes_byte fdd_default_timeout k (0, s.world) l b e)
      ∙ rw (last k l) refl

  -- The controller is at no read within the timeout ready to take a byte. Then `fdd_send_byte`
  -- writes the byte all the same, and reports no error: the counter has gone past 0.
  pub send_byte-never :
      (byte : ℕ) (s : Fdd W)
      → ((j : ℕ) → j < 40000 → takes_byte (reads j (0, s.world)).0 ≡ false)
      → send_byte io byte s
        ≡ (ok tt, record s { world = io.outb port_data byte (reads 40000 (0, s.world)).1 })
  send_byte-never byte s b =
      send_byte_of byte s (minus_one, (reads fdd_default_timeout (0, s.world)).1)
        (poll_never takes_byte fdd_default_timeout (0, s.world) b)
