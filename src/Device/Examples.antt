-- ===== src/Device/Examples.antt =====
-- Tables of descriptors at a concrete state: task 3 has device 500 on descriptors 0 and 1.
use pso.Base.{ℕ, ◌-◌, ◌≤◌, ◌≡◌, refl, ◌==◌, ◌&&◌, if◌then◌else◌, ltb, arith}
use pso.Device.{Devices, CharDev, device_descriptor}
use pso.Device.Descriptors.{device_descriptor_lem}

abbrev two_open : Devices ℕ
two_open = record {
  char_devices = λ pid fd. if pid == 3 && ltb fd 2 then 500 else 0;
  cur_pid = 3;
  refcount = λ dev. if dev == 500 then 2 else 0;
  world = 0;
}

-- Devices whose functions do nothing, but that `flush` counts the reference down.
abbrev plain : CharDev ℕ
plain = record {
  read = λ dev buf size s. (0, s);
  write = λ dev buf size s. (size, s);
  seek = λ dev pos s. (0, s);
  flush = λ dev s. (0, (λ d. if d == dev then s.0 d - 1 else s.0 d, s.1));
}

device_descriptor_lem_example :
    ((device_descriptor 700 two_open).0 ≤ 2)
    × (two_open.char_devices 3 (device_descriptor 700 two_open).0 ≡ 0)
    × ((pid i : ℕ)
        → (device_descriptor 700 two_open).1.char_devices pid i ≡ (
            if pid == 3 && i == (device_descriptor 700 two_open).0
            then 700
            else two_open.char_devices pid i))
    × ((device_descriptor 700 two_open).1.refcount 700 ≡ 1)
device_descriptor_lem_example = device_descriptor_lem 700 two_open 2 (omega arith) refl
