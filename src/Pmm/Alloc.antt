-- ===== src/Pmm/Alloc.antt =====
-- `pmm_alloc_frame` of src/kernel/pmm.cpp.
use trieternal_x_os.Base.{
  ℕ, ◌+◌, ◌*◌, ◌≤◌, ◌<◌, ◌≡◌, ◌≢◌, ◌⊎◌, inl, inr, refl, sym, ◌∙◌, true, false, not, ◌||◌, arith,
  ◌==◌, Option-cases, find_from, find_from-some, find_from-none, count_below_le, count_below_add,
  ap,
}
use trieternal_x_os.Pmm.{Pmm, null, test_bit, alloc_frame}
use trieternal_x_os.Pmm.Bits.{Bytes, IsValid, bitmap_bits, set_bit-Bytes, test_bit-set_bit}

-- The table is full: every frame that it manages is in use.
abbrev pub IsFull : Pmm → Type 0
IsFull p = (j : ℕ) → j < p.total_frames → test_bit p j ≡ true

-- Frame `i`, the lowest free one, has been handed out as `frame`, and nothing else has changed.
pub record Allocated (p : Pmm) (i : ℕ) (out : ℕ × Pmm) : Type 0 where
  pub bytes : Bytes out.1
  pub managed : i < p.total_frames
  pub was_free : test_bit p i ≡ false
  pub lowest : (j : ℕ) → j < i → test_bit p j ≡ true
  pub address : out.0 ≡ i * 4096
  pub bits : (j : ℕ) → test_bit out.1 j ≡ ((j == i) || test_bit p j)
  pub used : out.1.used_frames ≡ p.used_frames + 1
  pub total : out.1.total_frames ≡ p.total_frames

module _ {p : Pmm} (v : IsValid p) where
  pub used-le : p.used_frames ≤ bitmap_bits
  used-le = omega (arith, v.counted, count_below_le (test_bit p) bitmap_bits)

  -- `pmm_alloc_frame` hands out the lowest free frame and marks it, and fails, changing nothing,
  -- just when there is none.
  pub alloc_frame_lem :
      (IsFull p × (alloc_frame p ≡ (null, p))) ⊎ ((i : ℕ) × Allocated p i (alloc_frame p))
  unfolding alloc_frame
  alloc_frame_lem = elim (Option-cases (find_from (λ i. not (test_bit p i)) p.total_frames 0)) [
    | inl full ↦ inl (
      λ j b. ground (arith, find_from-none (λ i. not (test_bit p i)) p.total_frames 0 full j),
      rw (full, alloc_frame),
    )
    | inr (i, hit) ↦
        let f = find_from-some (λ i. not (test_bit p i)) p.total_frames 0 hit in
        inr (
          i,
          rw (hit, alloc_frame)
              (record {
                bytes = set_bit-Bytes p v.bytes i;
                managed = omega (arith, f.below);
                was_free = ground (arith, f.hit);
                lowest = λ j b. ground (arith, f.first j);
                address = omega (arith, f.below, v.fits);
                bits = test_bit-set_bit p v.bytes i;
                used = omega (arith, used-le);
                total = refl;
              }),
        )
  ]

  -- Every allocation keeps the allocator valid.
  pub alloc_frame-IsValid : IsValid (alloc_frame p).1
  alloc_frame-IsValid = elim (alloc_frame_lem) [
    | inl (full, e) ↦ rw e v
    | inr (i, a) ↦ record {
      bytes = a.bytes;
      fits = omega (arith, a.total, v.fits);
      counted =
          a.used
          ∙ omega (
            arith,
            v.counted,
            count_below_add (test_bit p) (test_bit (alloc_frame p).1) i bitmap_bits
                (omega (arith, a.managed, v.fits)) a.was_free (ground (arith, a.bits i))
                (λ j ne. ground (arith, a.bits j)),
          );
    }
  ]

module _ {p : Pmm} (v : IsValid p) where
  -- Two allocations in a row never hand out the same frame.
  pub alloc_frame-ne-alloc_frame :
      (alloc_frame p).0 ≢ null → (alloc_frame (alloc_frame p).1).0 ≢ (alloc_frame p).0
  alloc_frame-ne-alloc_frame got = elim (alloc_frame_lem v) [
    | inl (full, e) ↦ absurd (got (rw e))
    | inr (i, a) ↦ elim (alloc_frame_lem (alloc_frame-IsValid v)) [
      | inl (full, e) ↦ λ same. got (sym same ∙ ap (λ (r : ℕ × Pmm). r.0) e)
      | inr (k, b) ↦ λ same. ground (arith, a.bits k, a.address, b.address, b.was_free)
    ]
  ]

  -- Once frame 0 is free the next allocation marks it in use and returns the null pointer, which
  -- every caller takes for a failure.
  pub alloc_frame_zero :
      0 < p.total_frames
      → test_bit p 0 ≡ false
      → ((alloc_frame p).0 ≡ null) × (test_bit (alloc_frame p).1 0 ≡ true)
  alloc_frame_zero some_frame free = elim (alloc_frame_lem v) [
    | inl (full, e) ↦ ground (arith, full 0)
    | inr (i, a) ↦ ground (arith, a.lowest 0, a.address, a.bits 0)
  ]
