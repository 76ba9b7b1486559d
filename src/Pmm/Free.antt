-- ===== src/Pmm/Free.antt =====
-- `pmm_free_frame` and the counters of src/kernel/pmm.cpp.
use trieternal_x_os.Base.{
  ℕ, ◌+◌, ◌/◌, ◌%◌, ◌^◌, ◌≤◌, ◌<◌, ◌≡◌, ◌≢◌, ◌⊎◌, inl, inr, refl, sym, ◌∙◌, true, false, not, ◌&&◌,
  arith, ◌==◌, Bool-cases, count_below, count_below_add, count_below_congr, count_below-not, ap,
}
use mathlib.Core.Bool.{false≢true}
use trieternal_x_os.Base.Bytes.{has_bit}
use trieternal_x_os.Pmm.{
  Pmm, null, clear_bit, test_bit, alloc_frame, free_frame, get_free_frames, bitmap_bytes,
}
use trieternal_x_os.Pmm.Bits.{Bytes, IsValid, bitmap_bits, clear_bit-Bytes, test_bit-clear_bit}
use trieternal_x_os.Pmm.Alloc.{used-le, Allocated, alloc_frame_lem, alloc_frame-IsValid}

-- The bits of `q` are those of `p` but for `i`, which is clear.
pub record Freed (p : Pmm) (i : ℕ) (q : Pmm) : Type 0 where
  pub bytes : Bytes q
  pub bits : (j : ℕ) → test_bit q j ≡ (not (j == i) && test_bit p j)
  pub used : q.used_frames + 1 ≡ p.used_frames
  pub total : q.total_frames ≡ p.total_frames

module _ {p : Pmm} (v : IsValid p) (frame : ℕ) where
  cleared_count :
      frame / 4096 < bitmap_bits
      → test_bit p (frame / 4096) ≡ true
      → count_below (test_bit p) bitmap_bits
        ≡ count_below (test_bit (clear_bit p (frame / 4096))) bitmap_bits + 1
  cleared_count inside t =
      count_below_add (test_bit (clear_bit p (frame / 4096))) (test_bit p) (frame / 4096)
        bitmap_bits inside
        (ground (arith, test_bit-clear_bit p v.bytes (frame / 4096) (frame / 4096))) t
        (λ j ne. ground (arith, test_bit-clear_bit p v.bytes (frame / 4096) j))

  -- `pmm_free_frame` of a frame of the bitmap clears its bit and counts it; a frame that is not in
  -- use is left alone, so that freeing it again does nothing.
  pub free_frame_lem :
      frame / 4096 < bitmap_bits
      → (test_bit p (frame / 4096) ≡ true) × Freed p (frame / 4096) (free_frame p frame)
        ⊎ (test_bit p (frame / 4096) ≡ false) × (free_frame p frame ≡ p)
  unfolding free_frame
  free_frame_lem inside = elim (Bool-cases (test_bit p (frame / 4096))) [
    | inl t ↦ inl (
      t,
      rw (t, free_frame)
          (record {
            bytes = clear_bit-Bytes p v.bytes (frame / 4096);
            bits = test_bit-clear_bit p v.bytes (frame / 4096);
            used = ground (arith, cleared_count inside t, v.counted, used-le v);
            total = refl;
          }),
    )
    | inr f ↦ inr (f, rw (f, free_frame))
  ]

  -- `pmm_free_frame` of a frame of the bitmap keeps the allocator valid.
  pub free_frame-IsValid : frame / 4096 < bitmap_bits → IsValid (free_frame p frame)
  free_frame-IsValid inside = elim (free_frame_lem inside) [
    | inl (t, f) ↦ record {
      bytes = f.bytes;
      fits = omega (arith, f.total, v.fits);
      counted = omega (arith, f.used, v.counted, cleared_count inside t, same_count f);
    }
    | inr (t, e) ↦ rw e v
  ]
    where
      same_count :
          Freed p (frame / 4096) (free_frame p frame)
          → count_below (test_bit (free_frame p frame)) bitmap_bits
            ≡ count_below (test_bit (clear_bit p (frame / 4096))) bitmap_bits
      same_count f =
          count_below_congr _ _ bitmap_bits
            (λ j b. f.bits j ∙ sym (test_bit-clear_bit p v.bytes (frame / 4096) j))

  -- `pmm_free_frame` has no bounds check: for an address from 128 MB on it tests, and if it finds
  -- a one clears, a bit of the memory behind the bitmap.
  pub free_frame_outside :
      2 ^ 27 ≤ frame
      → test_bit p (frame / 4096) ≡ true
      → (bitmap_bytes ≤ frame / 4096 / 8)
        × ((free_frame p frame).bitmap (frame / 4096 / 8) ≢ p.bitmap (frame / 4096 / 8))
  unfolding free_frame test_bit
  free_frame_outside far t = (omega arith, λ same. absurd_bits (cleared_bit t) t same)
    where
      cleared_bit :
          test_bit p (frame / 4096) ≡ true → test_bit (free_frame p frame) (frame / 4096) ≡ false
      cleared_bit t =
          rw (t, free_frame)
            (ground (arith, test_bit-clear_bit p v.bytes (frame / 4096) (frame / 4096)))

      absurd_bits :
          test_bit (free_frame p frame) (frame / 4096) ≡ false
          → test_bit p (frame / 4096) ≡ true
          → (free_frame p frame).bitmap (frame / 4096 / 8) ≡ p.bitmap (frame / 4096 / 8)
          → ⊥
      absurd_bits off on same =
          false≢true (sym off ∙ ap (λ b. has_bit b (frame / 4096 % 8)) same ∙ on)

module _ {p : Pmm} (v : IsValid p) where
  -- Freeing the frame just handed out makes every bit and the count what they were.
  pub free_frame-alloc_frame :
      (alloc_frame p).0 ≢ null
      → let q = free_frame (alloc_frame p).1 (alloc_frame p).0 in
        ((j : ℕ) → test_bit q j ≡ test_bit p j) × (q.used_frames ≡ p.used_frames)
  free_frame-alloc_frame got = elim (alloc_frame_lem v) [
    | inl (full, e) ↦ absurd (got (rw e))
    | inr (i, a) ↦
        elim (free_frame_lem (alloc_frame-IsValid v) (alloc_frame p).0 (frame_inside i a)) [
          | inl (t, f) ↦ (
            λ j. ground (arith, f.bits j, a.bits j, a.was_free, a.address),
            omega (arith, f.used, a.used),
          )
          | inr (t, e) ↦ absurd (clash i a t)
        ]
  ]
    where
      frame_inside :
          (i : ℕ) → Allocated p i (alloc_frame p) → (alloc_frame p).0 / 4096 < bitmap_bits
      frame_inside i a = omega (arith, a.address, a.managed, v.fits)

      clash :
          (i : ℕ)
          → Allocated p i (alloc_frame p)
          → test_bit (alloc_frame p).1 ((alloc_frame p).0 / 4096) ≡ false
          → ⊥
      clash i a t = ground (arith, a.bits ((alloc_frame p).0 / 4096), a.address)

  -- While the bitmap covers the managed frames exactly, `pmm_get_free_frames` counts the clear bits.
  pub get_free_frames_lem :
      p.total_frames ≡ bitmap_bits
      → get_free_frames p ≡ count_below (λ j. not (test_bit p j)) bitmap_bits
  unfolding get_free_frames
  get_free_frames_lem all = omega (arith, v.counted, all, count_below-not (test_bit p) bitmap_bits)
