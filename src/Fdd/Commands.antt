-- ===== src/Fdd/Commands.antt =====
-- The commands of the floppy disk controller, as fdd.c sends them.
use Prim.Native.Nat.{bit_and, bit_or}
use pso.Base.{
  ℕ, zero, suc, ◌+◌, ◌-◌, ◌*◌, ◌%◌, ◌^◌, ◌==◌, if◌then◌else◌, ltb, not, Bool, true, false,
}
use pso.Fdd.{
  lock_cmd, sense_int_invalid, recalibrate_no_trk0, recalibrate_wdev, out_of_fuel, ok, err, Ports,
  Action, pure, ◌>>=◌, ◌>>◌, raise_if, assign, current, port_dor, port_msr, port_ccr, out, input,
  send_byte, get_byte, get_into, wait_for_interrupt,
}

-- `(v > 0) << k` for a flag.
abbrev pub flag : ℕ → ℕ → ℕ
flag v k = if ltb 0 v then 2 ^ k else 0

module _ {W : Type 0} (io : Ports W) where
  -- `fdd_version`
  unfoldable pub version : Action W ℕ
  version = do send_byte io 0x10; get_byte io

  -- The last two writes of the functions on the digital output register.
  abbrev pub set_dor : ℕ → Action W (Unit {0})
  set_dor v = do out io port_dor v; assign (λ f. record f { dor = v })

  -- `fdd_mot_en`, `1 << (motor + 4)` cut to a byte.
  unfoldable pub mot_en : ℕ → Bool → Action W (Unit {0})
  mot_en motor st = do
    f ← current
    set_dor (
        if st
        then bit_or f.dor (2 ^ (motor + 4) % 256)
        else bit_and f.dor (255 - 2 ^ (motor + 4) % 256))

  -- `fdd_dev_sel`
  unfoldable pub dev_sel : ℕ → Action W (Unit {0})
  dev_sel dev = do f ← current; set_dor (bit_or (bit_and f.dor 0xFC) (bit_and dev 3))

  -- `fdd_dma_en`: the bit is cleared to enable.
  unfoldable pub dma_en : Bool → Action W (Unit {0})
  dma_en st = do f ← current; set_dor (if st then bit_and f.dor 0xF7 else bit_or f.dor 8)

  -- `get_dma_st`
  unfoldable pub dma_st : Action W Bool
  dma_st = do msr ← input io port_msr; pure (bit_and msr 0x20 == 0)

  -- `fdd_configure`
  unfoldable pub configure : ℕ → ℕ → ℕ → ℕ → ℕ → Action W (Unit {0})
  configure eis efifo poll fifothr pretrk = do
    let param1 =
        flag eis 6 + (if ltb 0 efifo then 0 else 32) + (if ltb 0 poll then 0 else 16) + fifothr % 16
    send_byte io 0x13
    send_byte io 0
    send_byte io param1
    assign (λ f. record f { config1 = param1 })
    send_byte io pretrk
    assign (λ f. record f { config2 = pretrk })

  -- `fdd_specify`
  unfoldable pub specify : ℕ → ℕ → ℕ → ℕ → Action W (Unit {0})
  specify srt hut hlt nd = do
    let param1 = srt % 16 * 16 + hut % 16
    let param2 = hlt % 128 * 2 + flag nd 0
    send_byte io 3
    send_byte io param1
    send_byte io param2
    assign (λ f. record f { srt_hut = param1; hlt_nd = param2 })

  -- `fdd_dumpreg`
  unfoldable pub dumpreg : Action W (Unit {0})
  dumpreg = do
    send_byte io 0x0E
    get_into io (λ v f. record f { pcn0 = v })
    get_into io (λ v f. record f { pcn1 = v })
    get_into io (λ v f. record f { pcn2 = v })
    get_into io (λ v f. record f { pcn3 = v })
    get_into io (λ v f. record f { srt_hut = v })
    get_into io (λ v f. record f { hlt_nd = v })
    get_into io (λ v f. record f { sc_eot = v })
    get_into io (λ v f. f)
    get_into io (λ v f. record f { config1 = v })
    get_into io (λ v f. record f { config2 = v })

  -- `fdd_lock`
  unfoldable pub lock : ℕ → Action W (Unit {0})
  lock l = do
    send_byte io (bit_or 0x14 (flag l 7))
    ret ← get_byte io
    raise_if (not (ret == flag l 4)) lock_cmd

  -- `fdd_sense_interrupt_status`
  unfoldable pub sense_interrupt_status : Action W (Unit {0})
  sense_interrupt_status = do
    send_byte io 8
    st0 ← get_byte io
    pnc ← get_byte io
    raise_if (st0 == 0x80) sense_int_invalid
    assign (λ f. record f { st0 = st0 })

  -- `while (msr & 0x10) msr = inb(...)`, which has no bound: on fuel.
  unfoldable pub wait_idle : ℕ → ℕ → Action W (Unit {0})
  wait_idle zero msr s = raise_if (not (bit_and msr 0x10 == 0)) out_of_fuel s
  wait_idle (suc fuel) msr s =
      let rest = (do m ← input io port_msr; wait_idle fuel m) s in
      if bit_and msr 0x10 == 0 then (ok tt, s) else rest

  -- `fdd_recalibrate`. The first test compares two bits of the mask 0xC0 with 4, and never holds.
  unfoldable pub recalibrate : ℕ → ℕ → Action W (Unit {0})
  unfolding mot_en dev_sel wait_idle sense_interrupt_status
  recalibrate fuel ds = do
    mot_en ds true
    dev_sel ds
    send_byte io 7
    send_byte io (ds % 4)
    msr ← input io port_msr
    wait_idle fuel msr
    wait_for_interrupt io
    sense_interrupt_status
    f ← current
    raise_if (bit_and f.st0 0xC0 == 4) recalibrate_no_trk0
    raise_if (not (f.st0 % 4 == ds)) recalibrate_wdev

  -- `fdd_update_R_regs` and `fdd_update_status`
  unfoldable pub update_r_regs : Action W (Unit {0})
  update_r_regs = do
    a ← input io 0x3F0
    assign (λ f. record f { sr_a = a })
    b ← input io 0x3F1
    assign (λ f. record f { sr_b = b })
    m ← input io port_msr
    assign (λ f. record f { msr = m })
    d ← input io 0x3F7
    assign (λ f. record f { dir = d })

  unfoldable pub update_status : Action W (Unit {0})
  unfolding update_r_regs dumpreg
  update_status = do update_r_regs; dumpreg

  -- The loops of `fdd_full_reset`, with `count` rounds left: sensing, recalibrating, where a missing
  -- track 0 is passed over, and switching the motors off.
  unfoldable pub sense_all : ℕ → Action W (Unit {0})
  sense_all zero = pure tt
  sense_all (suc count) = do sense_interrupt_status; sense_all count

  -- `if (st < 0 && st != FDD_ERROR_RECALIBRATE_NOTRK0) return st`
  abbrev pub pass_no_trk0 : Action W (Unit {0}) → Action W (Unit {0})
  pass_no_trk0 m s =
      let (x, s') = m s in
      elim x [ ok a ↦ (ok a, s') | err recalibrate_no_trk0 ↦ (ok tt, s') | err e ↦ (err e, s') ]

  unfoldable pub recalibrate_all : ℕ → ℕ → Action W (Unit {0})
  recalibrate_all fuel zero = pure tt
  recalibrate_all fuel (suc count) = do
    pass_no_trk0 (recalibrate fuel count)
    recalibrate_all fuel count

  unfoldable pub motors_off : ℕ → Action W (Unit {0})
  motors_off zero = pure tt
  motors_off (suc count) = do mot_en count false; motors_off count

  -- `fdd_full_reset`
  unfoldable pub full_reset : ℕ → Action W (Unit {0})
  full_reset fuel = do
    out io port_dor 0x0C
    out io port_msr 0x80
    out io port_ccr 0
    out io port_msr 0
    assign (λ f. record f { ccr = 0; dsr = 0; dor = 0x0C })
    wait_for_interrupt io
    out io port_ccr 0
    out io port_msr 0
    out io port_dor 0x0C
    sense_all 4
    configure 1 1 0 8 0
    specify 8 5 15 0
    recalibrate_all fuel 4
    motors_off 4
    dev_sel 0
