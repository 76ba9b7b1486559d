-- ===== src/Elf/Examples.antt =====
-- The theorems about src/kernel/elf.cpp at a concrete file, and test runs.
use trieternal_x_os.Base.{
  ℕ, ◌+◌, ◌≤◌, ◌<◌, ◌⊎◌, none, ◌≡◌, inr, refl, true, some, arith, ◌==◌, if◌then◌else◌, update,
}
use trieternal_x_os.Elf.{Machine, failed, scan, validate, load_from_memory}
use trieternal_x_os.Elf.Headers.{IsCovering, end_of, scan_lem, load_from_memory-rejects}

-- Memory without page tables, and no frames.
abbrev flat : Machine (ℕ → ℕ)
flat = record {
  load = λ v a. v a;
  store = λ a b v. update v a b;
  alloc_frame = λ v. (0, v);
  map_page = λ virt phys flags v. v;
}

-- A header at 1000 that names one program header, at the offset 52, for 0x123 bytes at 0x8000.
abbrev small : ℕ → ℕ
small a =
    if a == 1000
    then 0x7F
    else if a == 1001
    then 69
    else if a == 1002
    then 76
    else if a == 1003
    then 70
    else if a == 1004
    then 1
    else if a == 1005
    then 1
    else if a == 1016
    then 2
    else if a == 1018
    then 3
    else if a == 1028
    then 52
    else if a == 1042
    then 32
    else if a == 1044
    then 1
    else if a == 1052
    then 1
    else if a == 1061
    then 0x80
    else if a == 1072
    then 0x23
    else if a == 1073
    then 1
    else 0

is_valid : validate flat small 1000 ≡ true
unfolding validate
is_valid = refl

range : scan flat 1 0 small 1000 84 0xFFFFFFFF 0 ≡ some (0x8000, 0x8123)
unfolding scan
range = refl

scan_lem_example :
    ((scan flat 1 0 small 1000 84 0xFFFFFFFF 0 ≡ none)
      × (k : ℕ) × (0 ≤ k)
      × (k < 0 + 1)
      × (84 < end_of flat small 1000 84 k))
    ⊎ ((range : ℕ × ℕ) × (scan flat 1 0 small 1000 84 0xFFFFFFFF 0 ≡ some range)
        × IsCovering flat small 1000 84 1 0 0xFFFFFFFF 0 range)
scan_lem_example = scan_lem flat small 1000 84 1 0 0xFFFFFFFF 0 (record {
  fits = omega arith;
  ends = λ k from below. let e : k ≡ 0 = omega arith in rw e (omega arith);
  segments = λ k from below l. let e : k ≡ 0 = omega arith in rw e (omega arith);
})

-- The program header lies behind the end of the file.
load_from_memory-rejects_example : load_from_memory flat 5 1000 83 small ≡ some (failed, small)
load_from_memory-rejects_example =
    load_from_memory-rejects flat small 1000 83 5 0
      (inr (inr (omega arith, omega arith, omega arith)))
