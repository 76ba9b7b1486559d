-- ===== src/Pmm/Examples.antt =====
-- The theorems about src/kernel/pmm.cpp at concrete allocators, and test runs.
use trieternal_x_os.Base.{ℕ, ◌^◌, ◌≡◌, ◌≢◌, ◌⊎◌, refl, arith, ◌==◌, if◌then◌else◌, count_below}
use trieternal_x_os.Pmm.{Pmm, null, test_bit, init, alloc_frame, free_frame}
use trieternal_x_os.Pmm.Bits.{IsValid}
use trieternal_x_os.Pmm.Alloc.{IsFull, Allocated, alloc_frame_lem}
use trieternal_x_os.Pmm.Reach.{Reach, start, stay, Reach-IsValid, Steps, alloc_frame-Steps}

abbrev blank : Pmm
blank = record { bitmap = λ i. 0; total_frames = 0; used_frames = 0 }

-- Frames 0 and 1 of sixteen are in use.
abbrev two_used : Pmm
two_used = record { bitmap = λ i. if i == 0 then 3 else 0; total_frames = 16; used_frames = 2 }

two_used-IsValid : IsValid two_used
unfolding count_below test_bit
two_used-IsValid = record { bytes = λ i. ground arith; fits = omega arith; counted = refl }

alloc_two_used : (alloc_frame two_used).0 ≡ 8192
unfolding alloc_frame
alloc_two_used = refl

alloc_frame_lem_example :
    (IsFull two_used × (alloc_frame two_used ≡ (null, two_used)))
    ⊎ ((i : ℕ) × Allocated two_used i (alloc_frame two_used))
alloc_frame_lem_example = alloc_frame_lem two_used-IsValid

-- After the start the frame 1 is given back.
abbrev one_free : Pmm
one_free = free_frame (init (2 ^ 27) blank) 4096

one_free-Reach : Reach one_free
one_free-Reach =
    Reach.frees (start (2 ^ 27) blank (λ i. omega arith) (omega arith)) 4096 (omega arith)

alloc_one_free : (alloc_frame one_free).0 ≡ 4096
unfolding alloc_frame free_frame init
alloc_one_free = refl

Reach-IsValid_example : IsValid one_free
Reach-IsValid_example = Reach-IsValid one_free-Reach

alloc_frame-Steps_example :
    (alloc_frame (free_frame (alloc_frame one_free).1 8192)).0 ≢ (alloc_frame one_free).0
alloc_frame-Steps_example =
    alloc_frame-Steps one_free-Reach (omega (arith, alloc_one_free))
      (Steps.frees stay 8192 (omega arith) (omega (arith, alloc_one_free)))
