-- ===== src/Pmm/Init.antt =====
-- `pmm_init` of src/kernel/pmm.cpp.
use trieternal_x_os.Base.{
  ℕ, zero, suc, ◌+◌, ◌^◌, ◌/◌, ◌≤◌, ◌<◌, ◌≡◌, ◌∙◌, refl, ◌&&◌, ◌||◌, arith, leb, ltb, if◌then◌else◌,
  update, sym, ◌%◌, false, count_below_congr, count_below-ltb,
}
use trieternal_x_os.Base.Bytes.{not-has_bit-zero}
use trieternal_x_os.Base.Words.{add32}
use trieternal_x_os.Pmm.{
  Pmm, set_bit, test_bit, zero_bytes, reserve, init, reserved_frames, bitmap_bytes,
}
use trieternal_x_os.Pmm.Bits.{Bytes, IsValid, bitmap_bits, set_bit-Bytes, test_bit-set_bit}

zero_bytes_lem :
    (n i : ℕ) (a : ℕ → ℕ) (j : ℕ)
    → zero_bytes n i a j ≡ (if leb i j && ltb j (i + n) then 0 else a j)
unfolding zero_bytes
zero_bytes_lem zero i a j = ground arith
zero_bytes_lem (suc n) i a j = ground (arith, zero_bytes_lem n (i + 1) (update a i 0) j)

zero_bytes_inside : (n i : ℕ) (a : ℕ → ℕ) (j : ℕ) → i ≤ j → j < i + n → zero_bytes n i a j ≡ 0
zero_bytes_inside n i a j lo hi = ground (arith, zero_bytes_lem n i a j)

zero_bytes-lt : (n i : ℕ) (a : ℕ → ℕ) (j : ℕ) → a j < 256 → zero_bytes n i a j < 256
zero_bytes-lt n i a j h = ground (arith, zero_bytes_lem n i a j)

-- What the loop over the reserved frames does.
record Reserved (n i : ℕ) (p q : Pmm) : Type 0 where
  bytes : Bytes q
  total : q.total_frames ≡ p.total_frames
  used : q.used_frames ≡ p.used_frames + n
  bits : (j : ℕ) → test_bit q j ≡ ((leb i j && ltb j (i + n)) || test_bit p j)

abbrev reserve_one : ℕ → Pmm → Pmm
reserve_one i p = record (set_bit p i) { used_frames = add32 p.used_frames 1 }

test_bit-reserve_one :
    (i : ℕ) (p : Pmm) (j : ℕ) → test_bit (reserve_one i p) j ≡ test_bit (set_bit p i) j
unfolding test_bit set_bit
test_bit-reserve_one i p j = refl

total-set_bit : (i : ℕ) (p : Pmm) → (set_bit p i).total_frames ≡ p.total_frames
unfolding set_bit
total-set_bit i p = refl

reserve-Reserved :
    (n i : ℕ) (p : Pmm) → Bytes p → p.used_frames + n < 2 ^ 32 → Reserved n i p (reserve n i p)
unfolding reserve
reserve-Reserved zero i p h small = record {
  bytes = h;
  total = refl;
  used = omega arith;
  bits = λ j. ground arith;
}
reserve-Reserved (suc n) i p h small =
    let r = reserve-Reserved n (i + 1) (reserve_one i p) (set_bit-Bytes p h i) (omega arith) in
    record {
      bytes = r.bytes;
      total = r.total ∙ total-set_bit i p;
      used = omega (arith, r.used);
      bits = λ j. ground (arith, r.bits j, test_bit-reserve_one i p j, test_bit-set_bit p h i j);
    }

abbrev cleared : ℕ → Pmm → Pmm
cleared mem_size p = record {
  bitmap = zero_bytes bitmap_bytes 0 p.bitmap;
  total_frames = mem_size / 4096;
  used_frames = 0;
}

test_bit-cleared :
    (mem_size : ℕ) (p : Pmm) (j : ℕ) → j < bitmap_bits → test_bit (cleared mem_size p) j ≡ false
unfolding test_bit
test_bit-cleared mem_size p j h =
    rw (zero_bytes_inside bitmap_bytes 0 p.bitmap (j / 8) (omega arith) (omega arith))
      (not-has_bit-zero (j % 8))

module _ (mem_size : ℕ) (p : Pmm) (h : Bytes p) where
  init-Reserved : Reserved reserved_frames 0 (cleared mem_size p) (init mem_size p)
  unfolding init
  init-Reserved =
      reserve-Reserved reserved_frames 0 (cleared mem_size p)
        (λ i. zero_bytes-lt bitmap_bytes 0 p.bitmap i (h i)) (omega arith)

  -- After `pmm_init` exactly the first 1024 frames are in use.
  pub test_bit-init : (j : ℕ) → j < bitmap_bits → test_bit (init mem_size p) j ≡ ltb j 1024
  test_bit-init j b = ground (arith, init-Reserved.bits j, test_bit-cleared mem_size p j b)

  -- For a memory of at most 128 MB `pmm_init` makes a valid allocator with 1024 used frames.
  pub init-IsValid :
      mem_size ≤ 2 ^ 27
      → IsValid (init mem_size p)
        × ((init mem_size p).used_frames ≡ 1024)
        × ((init mem_size p).total_frames ≡ mem_size / 4096)
  init-IsValid small = (
    record {
      bytes = init-Reserved.bytes;
      fits = omega (arith, init-Reserved.total);
      counted =
          init-Reserved.used
          ∙ sym
              (count_below_congr _ _ bitmap_bits test_bit-init ∙ count_below-ltb 1024 bitmap_bits);
    },
    init-Reserved.used,
    init-Reserved.total,
  )
