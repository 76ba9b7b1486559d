-- ===== src/Pmm.antt =====
-- The physical frame allocator, src/kernel/pmm.cpp: one bit per 4 KB frame.
-- `bitmap` is the memory from `pmm_bitmap` on, read and written by offset; the array itself is the
-- first 4096 bytes, so an offset from 4096 on lies outside the array.
pub mod Bits
pub mod Init
pub mod Alloc
pub mod Free
pub mod Reach
mod Examples
use trieternal_x_os.Base.{
  ℕ, zero, suc, ◌+◌, ◌*◌, ◌/◌, ◌%◌, Bool, not, none, some, if◌then◌else◌, update, find_from,
}
use trieternal_x_os.Base.Bytes.{has_bit, with_bit, without_bit}
use trieternal_x_os.Base.Words.{add32, sub32, mul32}

pub record Pmm : Type 0 where
  pub bitmap : ℕ → ℕ
  pub total_frames : ℕ
  pub used_frames : ℕ

abbrev pub page_size : ℕ
page_size = 4096

-- `sizeof(pmm_bitmap)`
abbrev pub bitmap_bytes : ℕ
bitmap_bytes = 4096

abbrev pub reserved_frames : ℕ
reserved_frames = 1024

abbrev pub null : ℕ
null = 0

pub set_bit : Pmm → ℕ → Pmm
set_bit p bit = record p {
  bitmap = update p.bitmap (bit / 8) (with_bit (p.bitmap (bit / 8)) (bit % 8));
}

pub clear_bit : Pmm → ℕ → Pmm
clear_bit p bit = record p {
  bitmap = update p.bitmap (bit / 8) (without_bit (p.bitmap (bit / 8)) (bit % 8));
}

unfoldable pub test_bit : Pmm → ℕ → Bool
test_bit p bit = has_bit (p.bitmap (bit / 8)) (bit % 8)

-- `for (; n > 0; n--, i++) pmm_bitmap[i] = 0;`
zero_bytes : ℕ → ℕ → (ℕ → ℕ) → ℕ → ℕ
zero_bytes zero i a = a
zero_bytes (suc n) i a = zero_bytes n (i + 1) (update a i 0)

-- `for (; n > 0; n--, i++) { set_bit(i); used_frames++; }`
reserve : ℕ → ℕ → Pmm → Pmm
reserve zero i p = p
reserve (suc n) i p =
    reserve n (i + 1) (record (set_bit p i) { used_frames = add32 p.used_frames 1 })

unfoldable pub init : ℕ → Pmm → Pmm
unfolding zero_bytes reserve set_bit
init mem_size p = reserve reserved_frames 0 (record {
  bitmap = zero_bytes bitmap_bytes 0 p.bitmap;
  total_frames = mem_size / page_size;
  used_frames = 0;
})

-- The address of the first frame that is clear, or `null`.
unfoldable pub alloc_frame : Pmm → ℕ × Pmm
unfolding set_bit test_bit find_from
alloc_frame p = elim (find_from (λ i. not (test_bit p i)) p.total_frames 0) [
  | none ↦ (null, p)
  | some i ↦ (mul32 i page_size, record (set_bit p i) { used_frames = add32 p.used_frames 1 })
]

unfoldable pub free_frame : Pmm → ℕ → Pmm
unfolding clear_bit test_bit
free_frame p frame =
    if test_bit p (frame / page_size)
    then record (clear_bit p (frame / page_size)) { used_frames = sub32 p.used_frames 1 }
    else p

unfoldable pub get_free_frames : Pmm → ℕ
get_free_frames p = sub32 p.total_frames p.used_frames

unfoldable pub get_used_frames : Pmm → ℕ
get_used_frames p = p.used_frames
