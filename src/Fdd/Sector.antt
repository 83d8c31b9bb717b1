-- ===== src/Fdd/Sector.antt =====
-- Reading one sector: `fdd_read_sector` of fdd.c, which sets the DMA controller up and sends the
-- command of nine bytes. The waiting loop for the motor has no effect here.
use Prim.Native.Nat.{bit_and, bit_or}
use pso.Base.{ℕ, ◌*◌, ◌%◌, ◌==◌, if◌then◌else◌, not, Bool, true, List, [], ◌∷◌}
use pso.Dma.{dma_set_floppy_read}
use pso.Fdd.{
  read_abnorm, read_de, read_nd, read_dd, ok, Ports, Action, pure, ◌>>=◌, ◌>>◌, raise_if, assign,
  current, port_dor, port_msr, port_ccr, out, input, send_byte, get_byte, wait_for_interrupt,
}
use pso.Fdd.Commands.{flag, mot_en, dev_sel, recalibrate}

module _ {W : Type 0} where
  -- A call whose result is not looked at.
  abbrev pub ignore : Action W (Unit {0}) → Action W (Unit {0})
  ignore m s = (ok tt, (m s).1)

  abbrev pub when : Bool → Action W (Unit {0}) → Action W (Unit {0})
  when b m s = if b then m s else (ok tt, s)

module _ {W : Type 0} (io : Ports W) where
  -- Several writes to ports.
  unfoldable pub out_all : List (ℕ × ℕ) → Action W (Unit {0})
  out_all [] = pure tt
  out_all ((port, v) ∷ rest) = do out io port v; out_all rest

  -- Several bytes to the controller, up to the first that fails.
  unfoldable pub send_all : List ℕ → Action W (Unit {0})
  send_all [] = pure tt
  send_all (b ∷ bytes) = do send_byte io b; send_all bytes

  -- The nine bytes of the command: the source sends them one by one.
  abbrev pub read_command : ℕ → ℕ → ℕ → ℕ → ℕ → ℕ → List ℕ
  read_command c h r eot mt drv =
      bit_or 0x46 (flag mt 7)
      ∷ bit_or (h % 2 * 4) (drv % 4)
      ∷ c
      ∷ h
      ∷ r
      ∷ 2
      ∷ eot
      ∷ 0x1B
      ∷ 0xFF
      ∷ []

  -- The seven bytes of the answer, and the tests on the first three.
  unfoldable pub read_result : Action W (Unit {0})
  read_result = do
    st0 ← get_byte io
    st1 ← get_byte io
    st2 ← get_byte io
    ret_c ← get_byte io
    ret_h ← get_byte io
    ret_r ← get_byte io
    ret_n ← get_byte io
    assign (λ f. record f { st0 = st0; st1 = st1; st2 = st2 })
    raise_if (not (bit_and st0 0xC0 == 0)) read_abnorm
    raise_if (not (bit_and st1 0x20 == 0)) read_de
    raise_if (not (bit_and st1 0x04 == 0)) read_nd
    raise_if (not (bit_and st2 0x20 == 0)) read_dd

  -- `fdd_read_sector`. The result of `fdd_recalibrate` is not looked at, and the write of 4 to the
  -- digital output register is not noted in `fdc`.
  unfoldable pub read_sector : ℕ → ℕ → ℕ → ℕ → ℕ → ℕ → ℕ → ℕ → Action W (Unit {0})
  unfolding send_all out_all read_result
  read_sector fuel c h r eot mt dest drv = do
    f ← current
    when (bit_and f.dor (drv % 16 * 16) == 0) (mot_en io drv true)
    out io port_ccr 0
    out io port_dor 4
    dev_sel io drv
    ignore (recalibrate io fuel drv)
    out_all (dma_set_floppy_read dest)
    send_all (read_command c h r eot mt drv)
    assign (λ f. record f { c = c; h = h; r = r; n = 2 })
    m ← input io port_msr
    wait_for_interrupt io
    m' ← input io port_msr
    read_result
