-- ===== src/Fdd/Examples.antt =====
-- Tests of the floppy disk controller and of the block device, and runs of the theorems on them.
use pso.Base.{
  some, ℕ, zero, suc, ◌+◌, ◌-◌, ◌*◌, ◌≤◌, ◌≢◌, ◌&&◌, ==_ne, ◌/◌, ◌%◌, ◌<◌, ◌==◌, if◌then◌else◌, ltb,
  true, false, ◌≡◌, refl, arith,
}
use pso.Loader.{Loader, enqueue}
use pso.Loader.Sample.{booted}
use pso.Sem.{Sem, sem_new, signal}
use pso.Fdd.{
  dev_no_read, dev_overhead, Result, ok, err, timeout, FdcStat, Ports, Fdd, port_msr, port_data,
  takes_byte, send_byte,
}
use pso.Fdd.Poll.{reads, send_byte-ready}
use pso.Fdd.Block.{block_read_request, Floppy, Reader, cylinder_of, head_of, block_read, block_loop}
use pso.Fdd.Block.Locked.{IsBadAt, block_read-stuck}
use pso.Fdd.Block.Transfer.{IsDisk, lba, block_read-disk}

-- A controller that is busy for a number of reads of its status, and takes a byte then; the byte
-- is kept in the second component.
abbrev busy_machine : Ports (ℕ × ℕ)
busy_machine = record {
  inb = λ port w.
      if port == port_msr then ((if w.0 == 0 then 0x80 else 0), (w.0 - 1, w.1)) else (w.1, w);
  outb = λ port v w. (w.0, v);
  interrupt = λ w. w;
}

abbrev new_fdc : FdcStat
new_fdc = record {
  st0 = 0;
  st1 = 0;
  st2 = 0;
  c = 0;
  h = 0;
  r = 0;
  n = 0;
  dor = 0;
  sr_a = 0;
  sr_b = 0;
  dsr = 0;
  dir = 0;
  ccr = 0;
  msr = 0;
  config1 = 0;
  config2 = 0;
  pcn0 = 0;
  pcn1 = 0;
  pcn2 = 0;
  pcn3 = 0;
  srt_hut = 0;
  hlt_nd = 0;
  sc_eot = 0;
  perpendicular = 0;
}

abbrev busy : ℕ → Fdd (ℕ × ℕ)
busy n = record { fdc = new_fdc; world = (n, 0) }

not_yet : (j : ℕ) → j < 3 → takes_byte (reads busy_machine j (0, (2, 0))).0 ≡ false
unfolding reads
not_yet zero l = refl
not_yet (suc zero) l = refl
not_yet (suc (suc zero)) l = refl
not_yet (suc (suc (suc j))) l = absurd (omega (arith, l))

then_ready : takes_byte (reads busy_machine 3 (0, (2, 0))).0 ≡ true
unfolding reads
then_ready = refl

send_byte-ready_example : send_byte busy_machine 8 (busy 2) ≡ (
    if 3 == 39999
    then (err timeout, record (busy 2) { world = (reads busy_machine 3 (0, (2, 0))).1 })
    else (
      ok tt,
      record (busy 2) {
        world = busy_machine.outb port_data 8 (reads busy_machine 3 (0, (2, 0))).1;
      },
    ))
send_byte-ready_example = send_byte-ready busy_machine 8 3 (busy 2) (omega arith) not_yet then_ready

-- A disk of 80 cylinders, two heads and 18 sectors in a track.
abbrev disk_144 : Floppy
disk_144 = record {
  refcount = 1;
  drive = 0;
  cylinder_count = 80;
  head_count = 2;
  sect_per_track = 18;
}

abbrev bytes : ℕ → ℕ → ℕ → ℕ → ℕ
bytes c h s i = c + h + s + i

abbrev test_reader : Reader (ℕ × (ℕ × ℕ))
test_reader = record {
  read = λ c h s st. (ok tt, (c, (h, s)));
  buffer = λ st. bytes st.0 st.1.0 st.1.1;
}

test_reader-IsDisk : IsDisk test_reader bytes
test_reader-IsDisk = record { reads = λ c h s st. refl; fills = λ c h s st i. refl }

abbrev at_start : ℕ × (ℕ × ℕ)
at_start = (0, (0, 0))

abbrev empty_buffer : ℕ → ℕ
empty_buffer k = 0

abbrev taken : Sem
taken = sem_new 0

abbrev result_20 : Result (Unit {0}) × (((ℕ → ℕ) × (ℕ × (ℕ × ℕ))) × (Sem × Loader))
result_20 = block_read test_reader 20 600 disk_144 empty_buffer at_start taken booted

block_read-disk_example :
    (result_20.0 ≡ ok tt)
    × (((k : ℕ)
          → result_20.1.0.0 k ≡ (
              if ltb k 600
              then lba test_reader bytes test_reader-IsDisk 18 (20 + k / 512) (k % 512)
              else empty_buffer k))
        × (result_20.1.1 ≡ signal taken booted))
block_read-disk_example =
    block_read-disk test_reader bytes test_reader-IsDisk 20 600 disk_144 empty_buffer at_start taken
      booted (omega arith) (omega arith) (omega arith) (omega arith) (omega arith) (omega arith)

-- A device without heads.
headless :
    (block_read test_reader 20 600
      (record disk_144 { head_count = 0 })
      empty_buffer
      at_start
      taken
      booted).0
    ≡ err dev_overhead
unfolding block_read block_loop
headless = refl

-- Two consecutive sectors, 17 and 18, the second on the other side of the disk: the loop goes to the
-- next cylinder instead.
crossing :
    (block_read test_reader 17 1024 disk_144 empty_buffer at_start taken booted).1.0.1 ≡ (1, (0, 1))
unfolding block_read block_loop
crossing = refl

crossing_chs : (cylinder_of 18 18 ≡ 0) × (head_of 18 18 ≡ 1)
crossing_chs = (refl, refl)

-- A reader that cannot read sector 4 of cylinder 0, head 1.
abbrev scratched : Reader (ℕ × (ℕ × ℕ))
scratched = record {
  read = λ c h s st. (if c == 0 && (h == 1 && s == 4) then err dev_no_read else ok tt, (c, (h, s)));
  buffer = λ st. bytes st.0 st.1.0 st.1.1;
}

scratched-IsBadAt : IsBadAt scratched 0 1 3 1
scratched-IsBadAt = record {
  good = λ j l st. goes (3 + j) (omega (arith, l));
  bad = λ st. (dev_no_read, refl);
}
  where
    goes : (s : ℕ) → s ≢ 4 → (if s == 4 then err dev_no_read else ok tt) ≡ ok tt
    goes s d = rw (==_ne s 4 d) refl

block_read-stuck_example :
    ((block_read scratched 20 1500 disk_144 empty_buffer at_start taken booted).0 ≡ err dev_no_read)
    × ((i : ℕ)
        → 512 * 1 ≤ i
        → (block_read scratched 20 1500 disk_144 empty_buffer at_start taken booted).1.0.0 i ≡ 0)
    × ((block_read scratched 20 1500 disk_144 empty_buffer at_start taken booted).1.1
        ≡ (taken, booted))
    × (block_read_request scratched 0 disk_144
          (block_read scratched 20 1500 disk_144 empty_buffer at_start taken booted).1.1.0
          booted
        ≡ some (record taken { q = (enqueue taken.q booted).0 }, (enqueue taken.q booted).1))
block_read-stuck_example =
    block_read-stuck scratched 20 1500 1 disk_144 empty_buffer at_start taken booted booted 0
      disk_144 (omega arith) (omega arith) (omega arith) (omega arith) (omega arith) (omega arith)
      (omega arith) scratched-IsBadAt refl refl
