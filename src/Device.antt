-- ===== src/Device.antt =====
-- File descriptors: tp1/src/kernel/device.c. A device is given by its address, 0 being the null
-- pointer; `refcount` is the field of that name of the device at an address. The functions that a
-- device holds pointers to are the fields of a record; they act on the counts and on a state of
-- their own, and not on the table of descriptors.
pub mod Descriptors
mod Examples
use pso.Base.{ℕ, zero, suc, ◌+◌, ◌-◌, ◌^◌, ◌==◌, ltb, ◌&&◌, if◌then◌else◌, update, minus_one, add32}

-- `MAX_FD`
abbrev pub max_fd : ℕ
max_fd = 32

-- `-ENOSYS`, as the word that it is returned as.
abbrev pub minus_enosys : ℕ
minus_enosys = 2 ^ 32 - 1

-- The static variable of device.c, the running task's pid, the devices' counts, and their state.
pub record Devices (W : Type 0) : Type 0 where
  pub char_devices : ℕ → ℕ → ℕ
  pub cur_pid : ℕ
  pub refcount : ℕ → ℕ
  pub world : W

-- The function pointers of `str_chardev`, for every device: each is given the device's address and
-- what else it takes, and returns a number.
pub record CharDev (W : Type 0) : Type 0 where
  pub read : ℕ → ℕ → ℕ → (ℕ → ℕ) × W → ℕ × ((ℕ → ℕ) × W)
  pub write : ℕ → ℕ → ℕ → (ℕ → ℕ) × W → ℕ × ((ℕ → ℕ) × W)
  pub seek : ℕ → ℕ → (ℕ → ℕ) × W → ℕ × ((ℕ → ℕ) × W)
  pub flush : ℕ → (ℕ → ℕ) × W → ℕ × ((ℕ → ℕ) × W)

-- The loop of `get_next_free_fd_for_current_task`, with `n` descriptors left: the first free one
-- from `i` on, or -1.
unfoldable pub free_loop : ℕ → ℕ → (ℕ → ℕ) → ℕ
free_loop zero i fds = minus_one
free_loop (suc n) i fds = let rest = free_loop n (i + 1) fds in if fds i == 0 then i else rest

-- The loop of `device_fork_descriptors`, with `n` descriptors left: the child's descriptors and the
-- counts.
unfoldable pub fork_loop : ℕ → ℕ → (ℕ → ℕ) → (ℕ → ℕ) × (ℕ → ℕ) → (ℕ → ℕ) × (ℕ → ℕ)
fork_loop zero i fds (child, refs) = (child, refs)
fork_loop (suc n) i fds (child, refs) = fork_loop n (i + 1) fds (
  update child i (fds i),
  if fds i == 0 then refs else update refs (fds i) (add32 (refs (fds i)) 1),
)

module _ {W : Type 0} where
  -- `get_next_free_fd_for_current_task`
  unfoldable pub get_next_free_fd : Devices W → ℕ
  get_next_free_fd s = free_loop max_fd 0 (s.char_devices s.cur_pid)

  abbrev pub set_fd : ℕ → ℕ → ℕ → Devices W → Devices W
  set_fd pid fd dev s = record s {
    char_devices = update s.char_devices pid (update (s.char_devices pid) fd dev);
  }

  -- `device_descriptor`
  unfoldable pub device_descriptor : ℕ → Devices W → ℕ × Devices W
  unfolding get_next_free_fd
  device_descriptor dev s =
      let fd = get_next_free_fd s in
      if fd == minus_one then (minus_enosys, s) else (
        fd,
        record (set_fd s.cur_pid fd dev s) {
          refcount = update s.refcount dev (add32 (s.refcount dev) 1);
        },
      )

  -- `device_init`, but for the entries of the system call table that it fills in.
  unfoldable pub device_init : Devices W → Devices W
  device_init s = record s {
    char_devices = λ pid fd. if ltb pid 32 && ltb fd max_fd then 0 else s.char_devices pid fd;
  }

  -- What a call of a device's function leaves.
  abbrev pub after_call : Devices W → ℕ × ((ℕ → ℕ) × W) → ℕ × Devices W
  after_call s (r, (refs, w)) = (r, record s { refcount = refs; world = w })

  -- `sys_read`, `sys_write` and `sys_seek`: the call of the device's own function. A descriptor that
  -- is not open gives the device at address 0.
  unfoldable pub sys_read : CharDev W → ℕ → ℕ → ℕ → Devices W → ℕ × Devices W
  sys_read ops fd buf size s =
      after_call s (ops.read (s.char_devices s.cur_pid fd) buf size (s.refcount, s.world))

  unfoldable pub sys_write : CharDev W → ℕ → ℕ → ℕ → Devices W → ℕ × Devices W
  sys_write ops fd buf size s =
      after_call s (ops.write (s.char_devices s.cur_pid fd) buf size (s.refcount, s.world))

  unfoldable pub sys_seek : CharDev W → ℕ → ℕ → Devices W → ℕ × Devices W
  sys_seek ops fd pos s =
      after_call s (ops.seek (s.char_devices s.cur_pid fd) pos (s.refcount, s.world))

  -- `sys_close`
  unfoldable pub sys_close : CharDev W → ℕ → Devices W → ℕ × Devices W
  sys_close ops fd s =
      let dev = s.char_devices s.cur_pid fd in
      let s' = set_fd s.cur_pid fd 0 s in after_call s' (ops.flush dev (s'.refcount, s'.world))

  -- `device_fork_descriptors`
  unfoldable pub device_fork_descriptors : ℕ → ℕ → Devices W → Devices W
  device_fork_descriptors pid1 pid2 s =
      let (child, refs) =
        fork_loop max_fd 0 (s.char_devices pid1) (s.char_devices pid2, s.refcount) in
      record s { char_devices = update s.char_devices pid2 child; refcount = refs }

  -- The loop of `device_release_devices`, with `n` descriptors left.
  unfoldable pub release_loop : CharDev W → ℕ → ℕ → Devices W → Devices W
  unfolding sys_close
  release_loop ops zero i s = s
  release_loop ops (suc n) i s =
      release_loop ops n (i + 1)
        (if s.char_devices s.cur_pid i == 0 then s else (sys_close ops i s).1)

  -- `device_release_devices`
  unfoldable pub device_release_devices : CharDev W → Devices W → Devices W
  device_release_devices ops s = release_loop ops max_fd 0 s
