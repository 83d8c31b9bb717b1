-- ===== src/Dma.antt =====
-- The DMA controller: tp1/src/kernel/dma.c, tp1/src/include/dma.h. A function is the list of the
-- writes to ports that it makes, each a port and a byte.
use pso.Base.{ℕ, ◌+◌, ◌*◌, ◌/◌, ◌%◌, ◌^◌, List, [], ◌∷◌, ◌++◌, if◌then◌else◌, ltb}

abbrev pub dma_io_addr : ℕ
dma_io_addr = 0x004

abbrev pub dma_io_top : ℕ
dma_io_top = 0x081

abbrev pub dma_io_count : ℕ
dma_io_count = 0x005

abbrev pub dma_io_flipflop : ℕ
dma_io_flipflop = 0x00C

abbrev pub dma_io_mode : ℕ
dma_io_mode = 0x00B

abbrev pub dma_io_mask : ℕ
dma_io_mask = 0x00F

-- `(v > 0) << k`
abbrev pub flag : ℕ → ℕ → ℕ
flag v k = if ltb 0 v then 2 ^ k else 0

-- `dma_set_mask`
unfoldable pub dma_set_mask : ℕ → List (ℕ × ℕ)
dma_set_mask mask = (dma_io_mask, mask % 16) ∷ []

-- `dma_set_cmd_reg`, on arguments that are not negative. The fields do not overlap.
unfoldable pub dma_set_cmd_reg : ℕ → ℕ → ℕ → List (ℕ × ℕ)
dma_set_cmd_reg ce dreq_low dack_high =
    (8, (if ltb 0 ce then 0 else 4) + flag dreq_low 6 + flag dack_high 7) ∷ []

-- The byte of `dma_set_mode`.
abbrev pub mode_byte : ℕ → ℕ → ℕ → ℕ → ℕ → ℕ
mode_byte ch tra auto_init down mode =
    ch % 4 + tra % 4 * 4 + flag auto_init 4 + flag down 5 + mode % 4 * 64

-- `dma_set_mode`
unfoldable pub dma_set_mode : ℕ → ℕ → ℕ → ℕ → ℕ → List (ℕ × ℕ)
unfolding dma_set_mask
dma_set_mode ch tra auto_init down mode =
    dma_set_mask 6 ++ (dma_io_mode, mode_byte ch tra auto_init down mode) ∷ dma_set_mask 1

-- `dma_set_floppy_read`
unfoldable pub dma_set_floppy_read : ℕ → List (ℕ × ℕ)
unfolding dma_set_mask dma_set_mode
dma_set_floppy_read dest =
    dma_set_mask 6
    ++ dma_set_mode 2 1 0 0 1
    ++ (dma_io_flipflop, 0xFF)
      ∷ (dma_io_addr, dest % 256)
      ∷ (dma_io_addr, dest / 256 % 256)
      ∷ (dma_io_flipflop, 0xFF)
      ∷ (dma_io_count, 511 % 256)
      ∷ (dma_io_count, 511 / 256)
      ∷ (dma_io_top, dest / 65536 % 256)
      ∷ dma_set_mask 1

-- `dma_set_floppy_write`
unfoldable pub dma_set_floppy_write : ℕ → List (ℕ × ℕ)
unfolding dma_set_mask dma_set_mode
dma_set_floppy_write src =
    dma_set_mask 6
    ++ dma_set_mode 2 2 0 0 1
    ++ (dma_io_flipflop, 0xFF)
      ∷ (dma_io_addr, src % 256)
      ∷ (dma_io_addr, src / 256 % 256)
      ∷ (dma_io_top, src / 65536 % 256)
      ∷ (dma_io_flipflop, 0xFF)
      ∷ (dma_io_count, 511 % 256)
      ∷ (dma_io_count, 511 / 256)
      ∷ dma_set_mask 1
