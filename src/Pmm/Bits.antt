-- ===== src/Pmm/Bits.antt =====
-- The three bit operations of src/kernel/pmm.cpp against a set of frame numbers, and the
-- allocator's invariant.
use trieternal_x_os.Base.{
  ℕ, ◌/◌, ◌%◌, ◌≤◌, ◌<◌, ◌≡◌, inl, inr, not, ◌&&◌, ◌||◌, arith, ◌==◌, Bool-cases, count_below,
}
use trieternal_x_os.Base.Bytes.{has_bit-with_bit, has_bit-without_bit, with_bit_lt, without_bit_lt}
use trieternal_x_os.Pmm.{Pmm, set_bit, clear_bit, test_bit}

-- Every cell holds a byte.
abbrev pub Bytes : Pmm → Type 0
Bytes p = (i : ℕ) → p.bitmap i < 256

-- The number of bits of the bitmap.
abbrev pub bitmap_bits : ℕ
bitmap_bits = 32768

-- The bitmap has a bit for each frame, and `used_frames` counts the bits that are set.
pub record IsValid (p : Pmm) : Type 0 where
  pub bytes : Bytes p
  pub fits : p.total_frames ≤ bitmap_bits
  pub counted : p.used_frames ≡ count_below (test_bit p) bitmap_bits

module _ (p : Pmm) (h : Bytes p) (i : ℕ) where
  pub set_bit-Bytes : Bytes (set_bit p i)
  unfolding set_bit
  set_bit-Bytes j = ground (arith, h j, with_bit_lt (p.bitmap (i / 8)) (i % 8) (h (i / 8)))

  pub clear_bit-Bytes : Bytes (clear_bit p i)
  unfolding clear_bit
  clear_bit-Bytes j = ground (arith, h j, without_bit_lt (p.bitmap (i / 8)) (i % 8) (h (i / 8)))

  pub test_bit-set_bit : (j : ℕ) → test_bit (set_bit p i) j ≡ ((j == i) || test_bit p j)
  unfolding set_bit test_bit
  test_bit-set_bit j = elim (Bool-cases (j / 8 == i / 8)) [
    | inl e ↦
        ground
          (arith, has_bit-with_bit (p.bitmap (i / 8)) (i % 8) (h (i / 8)) (omega arith) (j % 8))
    | inr e ↦ ground arith
  ]

  pub test_bit-clear_bit : (j : ℕ) → test_bit (clear_bit p i) j ≡ (not (j == i) && test_bit p j)
  unfolding clear_bit test_bit
  test_bit-clear_bit j = elim (Bool-cases (j / 8 == i / 8)) [
    | inl e ↦
        ground
          (arith, has_bit-without_bit (p.bitmap (i / 8)) (i % 8) (h (i / 8)) (omega arith) (j % 8))
    | inr e ↦ ground arith
  ]
