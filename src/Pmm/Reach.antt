-- ===== src/Pmm/Reach.antt =====
-- The states that the allocator of src/kernel/pmm.cpp can reach, as sequences of calls.
use trieternal_x_os.Base.{ℕ, ◌/◌, ◌^◌, ◌≤◌, ◌<◌, ◌≡◌, ◌≢◌, inl, inr, sym, ◌∙◌, ap, true, arith}
use trieternal_x_os.Pmm.{Pmm, null, test_bit, init, alloc_frame, free_frame}
use trieternal_x_os.Pmm.Bits.{Bytes, IsValid, bitmap_bits}
use trieternal_x_os.Pmm.Init.{init-IsValid}
use trieternal_x_os.Pmm.Alloc.{alloc_frame_lem, alloc_frame-IsValid}
use trieternal_x_os.Pmm.Free.{free_frame_lem, free_frame-IsValid}

-- The states after `pmm_init` of at most 128 MB, by allocations and by releases of frames of the bitmap.
pub data Reach : Pmm → Type 0 where
  start : (mem_size : ℕ) (p : Pmm) → Bytes p → mem_size ≤ 2 ^ 27 → Reach (init mem_size p)
  allocs : {p : Pmm} → Reach p → Reach (alloc_frame p).1
  frees :
      {p : Pmm} → Reach p → (frame : ℕ) → frame / 4096 < bitmap_bits → Reach (free_frame p frame)

-- In every state that can be reached the counter is the number of the bits that are set.
pub Reach-IsValid : {p : Pmm} → Reach p → IsValid p
Reach-IsValid (start mem_size p bytes small) = (init-IsValid mem_size p bytes small).0
Reach-IsValid (allocs r) = alloc_frame-IsValid (Reach-IsValid r)
Reach-IsValid (frees r frame inside) = free_frame-IsValid (Reach-IsValid r) frame inside

-- The states that follow `p` while the frame `i` is not given back.
pub data Steps (i : ℕ) (p : Pmm) : Pmm → Type 0 where
  stay : Steps i p p
  allocs : {q : Pmm} → Steps i p q → Steps i p (alloc_frame q).1
  frees :
      {q : Pmm}
      → Steps i p q
      → (frame : ℕ) → frame / 4096 < bitmap_bits
      → frame / 4096 ≢ i
      → Steps i p (free_frame q frame)

alloc_frame-bit :
    {q : Pmm} → IsValid q → (i : ℕ) → test_bit q i ≡ true → test_bit (alloc_frame q).1 i ≡ true
alloc_frame-bit {q} v i used = elim (alloc_frame_lem v) [
  | inl (full, e) ↦ ap (λ (r : ℕ × Pmm). test_bit r.1 i) e ∙ used
  | inr (k, a) ↦ ground (arith, a.bits i)
]

free_frame-bit :
    {q : Pmm}
    → IsValid q
    → (frame i : ℕ) → frame / 4096 < bitmap_bits
    → frame / 4096 ≢ i
    → test_bit q i ≡ true
    → test_bit (free_frame q frame) i ≡ true
free_frame-bit {q} v frame i inside other used = elim (free_frame_lem v frame inside) [
  | inl (t, f) ↦ ground (arith, f.bits i)
  | inr (t, e) ↦ ap (λ (r : Pmm). test_bit r i) e ∙ used
]

Steps-keep :
    {i : ℕ} {p q : Pmm}
    → IsValid p
    → test_bit p i ≡ true
    → Steps i p q
    → IsValid q × (test_bit q i ≡ true)
Steps-keep v used stay = (v, used)
Steps-keep {i} v used (allocs steps) =
    let (w, kept) = Steps-keep v used steps in (alloc_frame-IsValid w, alloc_frame-bit w i kept)
Steps-keep {i} v used (frees steps frame inside other) =
    let (w, kept) = Steps-keep v used steps in
    (free_frame-IsValid w frame inside, free_frame-bit w frame i inside other kept)

-- A frame that has been handed out is not handed out again, whatever calls follow, before it is given
-- back.
pub alloc_frame-Steps :
    {p q : Pmm}
    → Reach p
    → (alloc_frame p).0 ≢ null
    → Steps ((alloc_frame p).0 / 4096) (alloc_frame p).1 q
    → (alloc_frame q).0 ≢ (alloc_frame p).0
alloc_frame-Steps {p} {q} reach got steps = elim (alloc_frame_lem (Reach-IsValid reach)) [
  | inl (full, e) ↦ absurd (got (ap (λ (r : ℕ × Pmm). r.0) e))
  | inr (i, a) ↦
      let k = (alloc_frame p).0 / 4096 in
      let at : k ≡ i = omega (arith, a.address) in
      let set : test_bit (alloc_frame p).1 k ≡ true = ground (arith, a.bits k) in
      let (w, kept) = Steps-keep (alloc_frame-IsValid (Reach-IsValid reach)) set steps in
      elim (alloc_frame_lem w) [
        | inl (full, e) ↦ λ same. got (sym same ∙ ap (λ (r : ℕ × Pmm). r.0) e)
        | inr (j, b) ↦ λ same. ground (arith, b.address, b.was_free, a.address)
      ]
]
