-- ===== src/Base/Decimal.antt =====
-- Printing a 32-bit number, as the kernel's `write_dec` and its copies do.
use Prim.Native.Nat.{ℕ, zero, suc, ◌+◌, ◌-◌, ◌*◌, ◌/◌, ◌%◌, ◌^◌, ◌<◌}
use mathlib.Core.Path.{◌≡◌, refl, ◌∙◌}
use mathlib.Core.Logic.{inl, inr}
use mathlib.Core.Bool.{true, false}
use mathlib.Core.List.{List, [], ◌∷◌}
use native.Mathlib.Omega.{arith}
use trieternal_x_os.Base.Tests.{◌==◌, if◌then◌else◌, Bool-cases}
use trieternal_x_os.Base.Arrays.{length}

-- `while (n > 0) { buf[i++] = n % 10 + '0'; n /= 10; }` for at most `fuel` digits, with what is in the
-- buffer from its end on.
unfoldable pub digit_loop : ℕ → ℕ → List ℕ → List ℕ
digit_loop zero n buf = buf
digit_loop (suc fuel) n buf = elim (n == 0) [
  | true ↦ buf
  | false ↦ digit_loop fuel (n / 10) ((n % 10 + b'0') ∷ buf)
]

-- A 32-bit number has at most 10 digits.
unfoldable pub write_dec : ℕ → List ℕ
unfolding digit_loop
write_dec n = if n == 0 then b'0' ∷ [] else digit_loop 10 n []

-- `while (n > 0) { count++; n /= 10; }`
unfoldable pub count_loop : ℕ → ℕ → ℕ → ℕ
count_loop zero n count = count
count_loop (suc fuel) n count = elim (n == 0) [
  | true ↦ count
  | false ↦ count_loop fuel (n / 10) (count + 1)
]

unfoldable pub num_digits : ℕ → ℕ
unfolding count_loop
num_digits n = if n == 0 then 1 else count_loop 10 n 0

-- The number that a row of digits stands for, behind the number `v`.
abbrev pub value : List ℕ → ℕ → ℕ
value [] v = v
value (c ∷ s) v = value s (v * 10 + (c - b'0'))

-- A power of ten, which `◌^◌` does not give to the tactics at a variable exponent.
abbrev pub pow_ten : ℕ → ℕ
pow_ten zero = 1
pow_ten (suc k) = 10 * pow_ten k

value-digit_loop :
    (fuel n : ℕ) (buf : List ℕ) → n < pow_ten fuel → value (digit_loop fuel n buf) 0 ≡ value buf n
unfolding digit_loop
value-digit_loop zero n buf lt = let z : n ≡ 0 = omega arith in rw z refl
value-digit_loop (suc fuel) n buf lt = elim (Bool-cases (n == 0)) [
  | inl t ↦ let z : n ≡ 0 = ground arith in rw (t, digit_loop) (rw z refl)
  | inr f ↦
      let last : n / 10 * 10 + (n % 10 + b'0' - b'0') ≡ n = omega arith in
      rw (f, digit_loop)
        (value-digit_loop fuel (n / 10) ((n % 10 + b'0') ∷ buf) (omega arith) ∙ rw last refl)
]

pub value-write_dec : (n : ℕ) → n < 2 ^ 32 → value (write_dec n) 0 ≡ n
unfolding write_dec
value-write_dec n h = elim (Bool-cases (n == 0)) [
  | inl t ↦ let z : n ≡ 0 = ground arith in rw t (rw z refl)
  | inr f ↦ rw f (value-digit_loop 10 n [] (omega arith))
]

count_loop-digit_loop :
    (fuel n count : ℕ) (buf : List ℕ)
    → count ≡ length buf
    → count_loop fuel n count ≡ length (digit_loop fuel n buf)
unfolding count_loop digit_loop
count_loop-digit_loop zero n count buf e = e
count_loop-digit_loop (suc fuel) n count buf e = elim (Bool-cases (n == 0)) [
  | inl t ↦ rw (t, count_loop) (rw (t, digit_loop) e)
  | inr f ↦
      rw (f, count_loop)
        (rw (f, digit_loop)
          (count_loop-digit_loop fuel (n / 10) (count + 1) ((n % 10 + b'0') ∷ buf)
            (omega (arith, e))))
]

pub num_digits-write_dec : (n : ℕ) → num_digits n ≡ length (write_dec n)
unfolding num_digits write_dec
num_digits-write_dec n = elim (Bool-cases (n == 0)) [
  | inl t ↦ rw t refl
  | inr f ↦ rw f (count_loop-digit_loop 10 n 0 [] refl)
]
