-- ===== src/Mm/Init.antt =====
-- The start of the memory: `memory_detect`, `activate_paging`, `activate_pse` and `mm_init` of
-- tp1/src/kernel/mm.c. The physical memory is what a write and a read of it do, by the index of a
-- word of 32 bits: behind its end a write is lost, and a read gives what `absent` says. `mm_init`
-- registers the fault handler and the system calls, too; that is left out, and so are the words that
-- `memory_detect` leaves in pages that are not used yet.
pub mod Detect
pub mod Start
use pso.Base.{
  ℕ, zero, suc, ◌+◌, ◌-◌, ◌*◌, ◌/◌, ◌^◌, Bool, true, false, ◌==◌, ltb, if◌then◌else◌, update,
  Option, none, some,
}
use pso.Mm.{Bits, FrameInfo, Mm, page_size, usr_mem_start}
use pso.Mm.Paging.Directory.{mm_dir_new}
use pso.Sem.{Sem, sem_new}

pub record Ram : Type 0 where
  pub cells : ℕ → ℕ
  pub limit : ℕ
  pub absent : ℕ → ℕ

abbrev pub read_word : ℕ → Ram → ℕ
read_word i r = if ltb i r.limit then r.cells i else r.absent i

abbrev pub write_word : ℕ → ℕ → Ram → Ram
write_word i v r = if ltb i r.limit then record r { cells = update r.cells i v } else r

-- `MAGIC_NUMBER`
abbrev pub magic_number : ℕ
magic_number = 0x4D32_4432

-- The loop of `memory_detect`. `none` is the end of the fuel.
pub detect_loop : ℕ → ℕ → ℕ → Ram → Option (ℕ × Ram)
detect_loop zero maxfree jump r = none
detect_loop (suc fuel) maxfree jump r =
    let next = maxfree + jump in
    elim (read_word (maxfree + jump - 1) r == magic_number) [
      | true ↦
          detect_loop fuel next jump
            (write_word (next + jump - 1) magic_number (write_word (next - 1) 0 r))
      | false ↦ some (maxfree, r)
    ]

-- `memory_detect`, on indices of words.
unfoldable pub memory_detect : ℕ → ℕ → ℕ → Ram → Option (ℕ × Ram)
unfolding detect_loop
memory_detect fuel start jump r =
    detect_loop fuel start jump (write_word (start + jump - 1) magic_number r)

-- The control registers that paging needs.
pub record Control : Type 0 where
  pub cr0 : Bits
  pub cr3 : ℕ
  pub cr4 : Bits

-- `activate_paging` and `activate_pse`: bit 31 of `cr0` and bit 4 of `cr4`.
unfoldable pub activate_paging : Bool → Control → Control
activate_paging status c = record c { cr0 = update c.cr0 31 status }

unfoldable pub activate_pse : Bool → Control → Control
activate_pse status c = record c { cr4 = update c.cr4 4 status }

-- The loops that clear an array. Their bound is the size in bytes, four times the number of words.
abbrev pub cleared : ℕ → FrameInfo → FrameInfo
cleared size pfi i = if ltb i size then (λ b. false) else pfi i

-- What `mm_init` sets up: the variables, the registers, the semaphore of `mm_dir_free`, and
-- `kernel_dir`, the number of its frame, 0 for `NULL`.
pub record Started : Type 0 where
  pub mm : Mm
  pub control : Control
  pub dir_free_sem : Sem
  pub kernel_dir : ℕ

abbrev pub dir_or_null : Option ℕ → ℕ
dir_or_null none = 0
dir_or_null (some d) = d

-- `mm_init` behind `memory_detect`, with the address in bytes that it returned.
unfoldable pub init_with : ℕ → Control → Mm → Started
unfolding activate_paging activate_pse
init_with detected c m =
    let m₁ = record m {
      usr_pf_limit = (detected - usr_mem_start) / (page_size * 32);
      kernel_pf_info = cleared (24 * 4) m.kernel_pf_info;
      usr_pf_info = cleared (32736 * 4) m.usr_pf_info;
    } in
    let c₁ = activate_pse true c in
    let (d, m₂) = mm_dir_new m₁ in
    record {
      mm = m₂;
      control = activate_paging true (record c₁ { cr3 = dir_or_null d * page_size });
      dir_free_sem = sem_new 1;
      kernel_dir = dir_or_null d;
    }

-- `mm_init`
unfoldable pub mm_init : ℕ → Ram → Control → Mm → Option Started
mm_init fuel r c m =
    elim (memory_detect fuel (usr_mem_start / 4) page_size r) as (λ x. Option Started) [
      | none ↦ none
      | some (word, r') ↦ some (init_with (word * 4) c m)
    ]
