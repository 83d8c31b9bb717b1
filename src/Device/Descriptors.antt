-- ===== src/Device/Descriptors.antt =====
-- What opening, forking and releasing do to the table of descriptors and to the devices' counts.
use pso.Base.{
  ℕ, zero, suc, ◌+◌, ◌%◌, ◌^◌, ◌≤◌, ◌<◌, ◌≡◌, ◌≢◌, refl, ◌∙◌, true, false, ◌&&◌, ◌==◌,
  if◌then◌else◌, leb, ltb, update, minus_one, add32, arith, Bool-cases, inl, inr, ==_refl, ==_ne,
}
use pso.Device.{
  Devices, CharDev, free_loop, fork_loop, release_loop, get_next_free_fd, device_descriptor,
  sys_close, device_fork_descriptors, device_release_devices,
}

-- How many of the `n` descriptors from `i` on hold the device.
abbrev pub holders : ℕ → ℕ → (ℕ → ℕ) → ℕ → ℕ
holders zero i fds dev = 0
holders (suc n) i fds dev =
    let rest = holders n (i + 1) fds dev in if fds i == dev then rest + 1 else rest

refs_step :
    (i : ℕ) (fds refs : ℕ → ℕ) (dev : ℕ)
    → dev ≢ 0
    → refs dev < 2 ^ 32
    → let refs' = if fds i == 0 then refs else update refs (fds i) (add32 (refs (fds i)) 1) in
      (refs' dev ≡ (if fds i == dev then (refs dev + 1) % 2 ^ 32 else refs dev))
      × (refs' dev < 2 ^ 32)
refs_step i fds refs dev d b = elim (Bool-cases (fds i == 0)) [
  | inl e ↦ rw e (ground (arith, e), b)
  | inr e ↦ rw e (ground (arith, e), ground (arith, e))
]

fork_loop_lem :
    (n i : ℕ) (fds child refs : ℕ → ℕ) (fd dev : ℕ)
    → dev ≢ 0
    → refs dev < 2 ^ 32
    → ((fork_loop n i fds (child, refs)).0 fd
        ≡ (if leb i fd && ltb fd (i + n) then fds fd else child fd))
      × ((fork_loop n i fds (child, refs)).1 dev ≡ (refs dev + holders n i fds dev) % 2 ^ 32)
unfolding fork_loop
fork_loop_lem zero i fds child refs fd dev d b = (ground arith, omega (arith, b))
fork_loop_lem (suc n) i fds child refs fd dev d b =
    let refs' = if fds i == 0 then refs else update refs (fds i) (add32 (refs (fds i)) 1) in
    let child' = update child i (fds i) in
    let r = refs_step i fds refs dev d b in
    let (p, q) = fork_loop_lem n (i + 1) fds child' refs' fd dev d (omega (arith, r.1)) in
    (ground (arith, p), q ∙ ground (arith, r.0))

-- A descriptor that is null already, and one that is set to null.
closed :
    (f : ℕ → ℕ → ℕ) (cur i pid fd : ℕ)
    → (f cur i == 0) ≡ true
    → f pid fd ≡ (if pid == cur && fd == i then 0 else f pid fd)
closed f cur i pid fd e = elim (Bool-cases (pid == cur)) [
  | inl p ↦ elim (Bool-cases (fd == i)) [
    | inl q ↦ rw (p, q) (ground (arith, p, q, e))
    | inr q ↦ rw (p, q) refl
  ]
  | inr p ↦ rw p refl
]

opened :
    (f : ℕ → ℕ → ℕ) (cur i v pid fd : ℕ)
    → update f cur (update (f cur) i v) pid fd ≡ (if pid == cur && fd == i then v else f pid fd)
opened f cur i v pid fd = elim (Bool-cases (pid == cur)) [
  | inl p ↦ rw p (ground (arith, p))
  | inr p ↦ rw p refl
]

release_step :
    {W : Type 0} (ops : CharDev W) (i : ℕ) (s : Devices W) (pid fd : ℕ)
    → let s' = if s.char_devices s.cur_pid i == 0 then s else (sys_close ops i s).1 in
      (s'.cur_pid ≡ s.cur_pid)
      × (s'.char_devices pid fd
          ≡ (if pid == s.cur_pid && fd == i then 0 else s.char_devices pid fd))
unfolding sys_close
release_step ops i s pid fd = elim (Bool-cases (s.char_devices s.cur_pid i == 0)) [
  | inl e ↦ rw e (refl, closed s.char_devices s.cur_pid i pid fd e)
  | inr e ↦ rw e (refl, opened s.char_devices s.cur_pid i 0 pid fd)
]

release_loop_lem :
    {W : Type 0} (ops : CharDev W) (n i : ℕ) (s : Devices W) (pid fd : ℕ)
    → (release_loop ops n i s).char_devices pid fd
      ≡ (if pid == s.cur_pid && (leb i fd && ltb fd (i + n)) then 0 else s.char_devices pid fd)
unfolding release_loop sys_close
release_loop_lem ops zero i s pid fd = ground arith
release_loop_lem ops (suc n) i s pid fd =
    let s' = if s.char_devices s.cur_pid i == 0 then s else (sys_close ops i s).1 in
    let (c, d) = release_step ops i s pid fd in
    let h = release_loop_lem ops n (i + 1) s' pid fd in ground (arith, h, c, d)

above_of : (i k : ℕ) (fds : ℕ → ℕ) → i ≤ k → fds k ≡ 0 → (fds i == 0) ≡ false → i + 1 ≤ k
above_of i k fds a e f = elim (Bool-cases (i == k)) [
  | inl g ↦ absurd (ground (arith, e, f, g))
  | inr g ↦ ground (arith, a, g)
]

free_loop_lem :
    (n i : ℕ) (fds : ℕ → ℕ) (k : ℕ)
    → i ≤ k
    → k < i + n
    → fds k ≡ 0
    → (i ≤ free_loop n i fds) × (free_loop n i fds ≤ k) × (fds (free_loop n i fds) ≡ 0)
unfolding free_loop
free_loop_lem zero i fds k a b e = absurd (omega (arith, a, b))
free_loop_lem (suc n) i fds k a b e = elim (Bool-cases (fds i == 0)) [
  | inl f ↦ rw f (omega arith, a, ground (arith, f))
  | inr f ↦ rw f (
      let (x, y, z) = free_loop_lem n (i + 1) fds k (above_of i k fds a e f) (omega (arith, b)) e in
      (omega (arith, x), y, z))
]

-- Opening a device when some descriptor of the running task is free gives the lowest free one, below
-- 32, puts the device there and nowhere else, and counts one reference more.
pub device_descriptor_lem :
    {W : Type 0} (dev : ℕ) (s : Devices W) (k : ℕ)
    → k < 32
    → s.char_devices s.cur_pid k ≡ 0
    → let fd = (device_descriptor dev s).0 in
      let s' = (device_descriptor dev s).1 in
      (fd ≤ k)
      × (s.char_devices s.cur_pid fd ≡ 0)
      × ((pid i : ℕ)
          → s'.char_devices pid i
            ≡ (if pid == s.cur_pid && i == fd then dev else s.char_devices pid i))
      × (s'.refcount dev ≡ (s.refcount dev + 1) % 2 ^ 32)
unfolding device_descriptor get_next_free_fd
device_descriptor_lem dev s k b e =
    let fds = s.char_devices s.cur_pid in
    let fd = free_loop 32 0 fds in
    let (x, y, z) = free_loop_lem 32 0 fds k (omega arith) b e in
    rw (==_ne fd minus_one (omega (arith, y, b)))
      (y, z, λ pid i. opened s.char_devices s.cur_pid fd dev pid i, rw (==_refl dev) refl)

-- Forking gives the child's 32 descriptors the parent's devices, and raises the count of each device
-- by the number of the parent's descriptors that hold it (modulo 2^32).
pub device_fork_descriptors_lem :
    {W : Type 0} (pid1 pid2 : ℕ) (s : Devices W) (dev fd : ℕ)
    → dev ≢ 0
    → s.refcount dev < 2 ^ 32
    → fd < 32
    → ((device_fork_descriptors pid1 pid2 s).char_devices pid2 fd ≡ s.char_devices pid1 fd)
      × ((device_fork_descriptors pid1 pid2 s).refcount dev
          ≡ (s.refcount dev + holders 32 0 (s.char_devices pid1) dev) % 2 ^ 32)
unfolding device_fork_descriptors
device_fork_descriptors_lem pid1 pid2 s dev fd d b f =
    let (x, y) =
      fork_loop_lem 32 0 (s.char_devices pid1) (s.char_devices pid2) s.refcount fd dev d b in
    (rw (==_refl pid2) (x ∙ ground (arith, f)), y)

-- A task that releases its devices has none of its 32 descriptors open afterwards, and no other
-- descriptor has changed, whatever the devices' own functions do to the counts.
pub device_release_devices_lem :
    {W : Type 0} (ops : CharDev W) (s : Devices W) (pid fd : ℕ)
    → (device_release_devices ops s).char_devices pid fd
      ≡ (if pid == s.cur_pid && ltb fd 32 then 0 else s.char_devices pid fd)
unfolding device_release_devices
device_release_devices_lem ops s pid fd = release_loop_lem ops 32 0 s pid fd ∙ ground arith
