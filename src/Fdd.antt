-- ===== src/Fdd.antt =====
-- The floppy disk controller: tp1/src/kernel/fdd.c, tp1/src/include/fdd.h. The machine behind the
-- ports is a parameter: what a read of a port gives, what a write does, and what passes until the
-- controller's interrupt. A command is an action on the controller's last known state and the
-- machine, which ends with a result or one of the negative codes.
mod Examples
pub mod Poll
pub mod Commands
pub mod Sector
pub mod Block
use Prim.Native.Nat.{bit_and}
use pso.Base.{ℕ, zero, suc, ◌==◌, if◌then◌else◌, not, ◌&&◌, Bool, minus_one}

-- The codes `FDD_ERROR_…`. The last stands for a loop of the source without bound that has not
-- ended within the fuel.
pub data FddError : Type 0 where
  timeout version_not_correct lock_cmd sense_int_invalid : FddError
  recalibrate_no_trk0 recalibrate_wdev : FddError
  read_wres_param read_abnorm read_de read_nd read_dd : FddError
  dev_no_config dev_no_read dev_overhead ioctl_wcmd : FddError
  out_of_fuel : FddError

pub data Result (A : Type 0) : Type 0 where
  ok : A → Result A
  err : FddError → Result A

-- `fdc_stat`
pub record FdcStat : Type 0 where
  pub st0 : ℕ
  pub st1 : ℕ
  pub st2 : ℕ
  pub c : ℕ
  pub h : ℕ
  pub r : ℕ
  pub n : ℕ
  pub dor : ℕ
  pub sr_a : ℕ
  pub sr_b : ℕ
  pub dsr : ℕ
  pub dir : ℕ
  pub ccr : ℕ
  pub msr : ℕ
  pub config1 : ℕ
  pub config2 : ℕ
  pub pcn0 : ℕ
  pub pcn1 : ℕ
  pub pcn2 : ℕ
  pub pcn3 : ℕ
  pub srt_hut : ℕ
  pub hlt_nd : ℕ
  pub sc_eot : ℕ
  pub perpendicular : ℕ

-- The machine: its ports, and what passes until the interrupt that a command waits for.
pub record Ports (W : Type 0) : Type 0 where
  pub inb : ℕ → W → ℕ × W
  pub outb : ℕ → ℕ → W → W
  pub interrupt : W → W

pub record Fdd (W : Type 0) : Type 0 where
  pub fdc : FdcStat
  pub world : W

abbrev pub Action : Type 0 → Type 0 → Type 0
Action W A = Fdd W → Result A × Fdd W

module _ {W A : Type 0} where
  abbrev pub pure : A → Action W A
  pure a s = (ok a, s)

  abbrev pub raise : FddError → Action W A
  raise e s = (err e, s)

infixl 5 ◌>>=◌ ◌>>◌
abbrev pub ◌>>=◌ : {W A B : Type 0} → Action W A → (A → Action W B) → Action W B
◌>>=◌ m f s = let (x, s') = m s in elim x [ ok a ↦ f a s' | err e ↦ (err e, s') ]

abbrev pub ◌>>◌ : {W B : Type 0} → Action W (Unit {0}) → Action W B → Action W B
m >> k = m >>= λ _. k

module _ {W : Type 0} where
  abbrev pub raise_if : Bool → FddError → Action W (Unit {0})
  raise_if b e s = (if b then err e else ok tt, s)

  -- Assignments to fields of `fdc`.
  abbrev pub assign : (FdcStat → FdcStat) → Action W (Unit {0})
  assign f s = (ok tt, record s { fdc = f s.fdc })

  abbrev pub current : Action W FdcStat
  current s = (ok s.fdc, s)

-- `FDD_DEFAULT_TIMEOUT`
abbrev pub fdd_default_timeout : ℕ
fdd_default_timeout = 40000

-- `FDD_PORT` and the registers behind it.
abbrev pub port_dor : ℕ
port_dor = 0x3F2

abbrev pub port_msr : ℕ
port_msr = 0x3F4

abbrev pub port_data : ℕ
port_data = 0x3F5

abbrev pub port_ccr : ℕ
port_ccr = 0x3F7

-- Whether the controller takes a byte, and whether it has one: `FDD_MSR_MRQ`, and `FDD_MSR_DIO`.
abbrev pub takes_byte : ℕ → Bool
takes_byte msr = not (bit_and msr 0x80 == 0) && (bit_and msr 0x40 == 0)

abbrev pub has_byte : ℕ → Bool
has_byte msr = not (bit_and msr 0x80 == 0) && not (bit_and msr 0x40 == 0)

module _ {W : Type 0} (io : Ports W) where
  abbrev pub out : ℕ → ℕ → Action W (Unit {0})
  out port v s = (ok tt, record s { world = io.outb port v s.world })

  abbrev pub input : ℕ → Action W ℕ
  input port s = let (v, w) = io.inb port s.world in (ok v, record s { world = w })

  -- The loop of `fdd_send_byte` and `fdd_get_byte`: what is left of `timeout` behind it, and the
  -- machine. The test decrements `timeout` also when it fails, so that 0 wraps.
  unfoldable pub poll : (ℕ → Bool) → ℕ → ℕ → W → ℕ × W
  poll ready zero msr w = (minus_one, w)
  poll ready (suc n) msr w =
      let rest = (let (v, w') = io.inb port_msr w in poll ready n v w') in
      if ready msr then (n, w) else rest

  -- `fdd_send_byte`
  unfoldable pub send_byte : ℕ → Action W (Unit {0})
  send_byte byte s =
      let (left, w) = poll takes_byte fdd_default_timeout 0 s.world in
      if left == 0
      then (err timeout, record s { world = w })
      else (ok tt, record s { world = io.outb port_data byte w })

  -- `fdd_get_byte`
  unfoldable pub get_byte : Action W ℕ
  get_byte s =
      let (left, w) = poll has_byte fdd_default_timeout 0 s.world in
      let (v, w') = io.inb port_data w in
      if left == 0 then (err timeout, record s { world = w }) else (ok v, record s { world = w' })

  -- A byte of the answer that goes into a field: 0 goes there on a timeout, before the return.
  unfoldable pub get_into : (ℕ → FdcStat → FdcStat) → Action W (Unit {0})
  unfolding get_byte
  get_into f s =
      let (x, s') = get_byte s in
      elim x [
        | ok v ↦ (ok tt, record s' { fdc = f v s'.fdc })
        | err e ↦ (err e, record s' { fdc = f 0 s'.fdc })
      ]

  -- `fdd_wait_for_interrupt`
  abbrev pub wait_for_interrupt : Action W (Unit {0})
  wait_for_interrupt s = (ok tt, record s { world = io.interrupt s.world })
