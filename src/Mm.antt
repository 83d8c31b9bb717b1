-- ===== src/Mm.antt =====
-- Physical memory: tp1/src/kernel/mm.c, tp1/src/include/mm.h. A word of `page_frame_info` is its 32
-- bits, each telling whether one page frame is in use; an array of them is a function of the index
-- of the word, and what lies behind its end stands for the memory that is there.
-- A page frame that holds a directory or a table is its 1024 entries.
pub mod Frames
pub mod Given
pub mod Paging
pub mod Fault
pub mod Init
mod Examples
use pso.Base.{
  ℕ, zero, suc, ◌+◌, ◌-◌, ◌*◌, ◌/◌, ◌%◌, ◌^◌, Bool, true, false, ◌&&◌, ◌||◌, ◌==◌, if◌then◌else◌,
  leb, ltb, update, add32, sub32,
}

-- The bits of one word, and an array of words.
abbrev pub Bits : Type 0
Bits = ℕ → Bool

abbrev pub FrameInfo : Type 0
FrameInfo = ℕ → Bits

-- `str_mm_page`: the twelve bits of attributes, and the number of a page frame.
pub record Entry : Type 0 where
  pub attr : Bits
  pub base : ℕ

-- The static variables of mm.c, the page frames seen as tables, and the tasks' directories (the
-- field `cr3` of `task_table`), each given by the number of its page frame.
pub record Mm : Type 0 where
  pub kernel_pf_info : FrameInfo
  pub usr_pf_info : FrameInfo
  pub usr_pf_limit : ℕ
  pub tables : ℕ → ℕ → Entry

abbrev pub page_size : ℕ
page_size = 4096

abbrev pub usr_mem_start : ℕ
usr_mem_start = 4194304

abbrev pub krn_mem_start : ℕ
krn_mem_start = 1048576

-- `SET_BIT` and `UNSET_BIT` on bit `i` of word `j`.
abbrev pub put_bit : ℕ → ℕ → Bool → FrameInfo → FrameInfo
put_bit j i v pfi = update pfi j (update (pfi j) i v)

-- `== PFI_OCCUPIED`: whether the low `n` bits are all set.
pub occupied : ℕ → Bits → Bool
occupied zero w = true
occupied (suc n) w = w n && occupied n w

-- `while (i < limit && pfi[i++] == PFI_OCCUPIED)`, with `n` words left before the limit: the value
-- of `i` behind the loop.
pub skip_occupied : ℕ → ℕ → FrameInfo → ℕ
unfolding occupied
skip_occupied zero i pfi = i
skip_occupied (suc n) i pfi =
    let rest = skip_occupied n (i + 1) pfi in if occupied 32 (pfi i) then rest else i + 1

-- `while (CHECK_BIT(pfi[j], i)) i++`, with `n` bits left.
pub first_clear : ℕ → ℕ → Bits → ℕ
first_clear zero i w = i
first_clear (suc n) i w = let rest = first_clear n (i + 1) w in if w i then rest else i

-- `page_frame_info_alloc`: the address of the page, 0 for `NULL`, and the array afterwards.
unfoldable pub page_frame_info_alloc : FrameInfo → ℕ → ℕ → ℕ × FrameInfo
unfolding skip_occupied first_clear
page_frame_info_alloc pfi limit mem_offset =
    let i = skip_occupied limit 0 pfi in
    let j = i - 1 in
    let b = first_clear 32 0 (pfi j) in
    if leb limit i
    then (0, pfi)
    else ((mem_offset + (j * 32 + b) * page_size) % 2 ^ 32, put_bit j b true pfi)

-- `mm_mem_alloc`
unfoldable pub mm_mem_alloc : Mm → ℕ × Mm
unfolding page_frame_info_alloc
mm_mem_alloc m =
    let (page, pfi) = page_frame_info_alloc m.usr_pf_info m.usr_pf_limit usr_mem_start in
    (page, record m { usr_pf_info = pfi })

-- An entry of all zeros.
abbrev pub no_entry : Entry
no_entry = record { attr = λ i. false; base = 0 }

-- `mm_mem_kalloc`. The limit is the size of the array in bytes, 96, and not its 24 words; the page
-- is cleared before anyone looks whether there is one, so that without one page 0 is cleared.
unfoldable pub mm_mem_kalloc : Mm → ℕ × Mm
unfolding page_frame_info_alloc
mm_mem_kalloc m =
    let (page, pfi) = page_frame_info_alloc m.kernel_pf_info 96 krn_mem_start in
    (
      page,
      record m {
        kernel_pf_info = pfi;
        tables = update m.tables (page / page_size) (λ i. no_entry);
      },
    )

-- `(int) page / PAGE_SIZE`, as the index that it is used for: an `unsigned`.
abbrev pub frame_index : ℕ → ℕ
frame_index page =
    if ltb page (2 ^ 31) then page / page_size else 2 ^ 32 - (2 ^ 32 - page) / page_size

-- `mm_mem_free`. The comparison is one of signed numbers.
unfoldable pub mm_mem_free : ℕ → Mm → Mm
mm_mem_free page m =
    if ltb page usr_mem_start || leb (2 ^ 31) page
    then (let index = frame_index (sub32 page krn_mem_start) in
        record m { kernel_pf_info = put_bit (index / 32) (index % 32) false m.kernel_pf_info })
    else (let index = frame_index (sub32 page usr_mem_start) in
        record m { usr_pf_info = put_bit (index / 32) (index % 32) false m.usr_pf_info })
