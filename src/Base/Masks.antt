-- ===== src/Base/Masks.antt =====
-- `|` of a multiple of 4096 and flags below it, as in the entries of page tables.
use Prim.Native.Nat.{
  ℕ, zero, suc, ◌+◌, ◌*◌, ◌/◌, ◌%◌, ◌≤◌, ◌<◌, max, digits, bit_or, bit_or-bitwise,
}
use mathlib.Core.Path.{◌≡◌, refl, ◌∙◌, ap}
use native.Mathlib.Nat.{mul_left_comm}
use native.Mathlib.Omega.{arith}

-- The digits of an "or", for any number of rounds that is enough.
abbrev or_digits : ℕ → ℕ → ℕ → ℕ
or_digits rounds a b = digits (λ y. y) max rounds a b

or_digits-congr : (a b n m : ℕ) → a ≤ n → a ≤ m → or_digits n a b ≡ or_digits m a b
or_digits-congr zero b zero zero below below' = refl
or_digits-congr zero b zero (suc m) below below' = refl
or_digits-congr zero b (suc n) zero below below' = refl
or_digits-congr zero b (suc n) (suc m) below below' = refl
or_digits-congr (suc a) b zero m below below' = absurd (omega arith)
or_digits-congr (suc a) b (suc n) zero below below' = absurd (omega arith)
or_digits-congr (suc a) b (suc n) (suc m) below below' =
    omega (arith, or_digits-congr (suc a / 2) (b / 2) n m (omega arith) (omega arith))

zero-bit_or : (b : ℕ) → bit_or 0 b ≡ b
zero-bit_or b = bit_or-bitwise 0 b

-- The lowest digit and the others.
bit_or_low : (a b : ℕ) → bit_or a b ≡ max (a % 2) (b % 2) + 2 * bit_or (a / 2) (b / 2)
bit_or_low zero b = omega (arith, zero-bit_or b, zero-bit_or (b / 2))
bit_or_low (suc a) b = omega (
  arith,
  bit_or-bitwise (suc a) b,
  bit_or-bitwise (suc a / 2) (b / 2),
  or_digits-congr (suc a / 2) (b / 2) a (suc a / 2) (omega arith) (omega arith),
)

abbrev two_pow : ℕ → ℕ
two_pow zero = 1
two_pow (suc k) = 2 * two_pow k

bit_or_zero : (n a : ℕ) → a ≤ n → bit_or a 0 ≡ a
bit_or_zero n zero below = zero-bit_or 0
bit_or_zero zero (suc a) below = absurd (omega arith)
bit_or_zero (suc n) (suc a) below =
    omega (arith, bit_or_low (suc a) 0, bit_or_zero n (suc a / 2) (omega arith))

shift : (a p : ℕ) → a * (2 * p) ≡ 2 * (a * p)
shift a p = mul_left_comm a 2 p

or_high :
    (k a g f : ℕ)
    → g < two_pow k
    → f < two_pow k
    → (bit_or (a * two_pow k + g) f ≡ a * two_pow k + bit_or g f) × (bit_or g f < two_pow k)
or_high zero a g f lg lf =
    let z : g ≡ 0 = omega arith in
    let z' : f ≡ 0 = omega arith in
    rw (z, z')
      (
        bit_or_zero (a * 1 + 0) (a * 1 + 0) (omega arith)
            ∙ omega (arith, bit_or_zero 0 0 (omega arith)),
        omega (arith, bit_or_zero 0 0 (omega arith)),
      )
or_high (suc k) a g f lg lf =
    let p = two_pow k in
    let (high, low) = or_high k a (g / 2) (f / 2) (omega arith) (omega arith) in
    let double = shift a p in
    let half : (a * (2 * p) + g) / 2 ≡ a * p + g / 2 = omega (arith, double) in
    let rest = ap (λ z. bit_or z (f / 2)) half in
    (
      omega (arith, bit_or_low (a * (2 * p) + g) f, bit_or_low g f, high, rest, double),
      omega (arith, bit_or_low g f, low),
    )

-- `x | f` for flags `f` keeps the page address of `x`.
pub bit_or-page : (x f : ℕ) → f < 4096 → bit_or x f / 4096 ≡ x / 4096
bit_or-page x f lf =
    let split : x / 4096 * 4096 + x % 4096 ≡ x = omega arith in
    let (high, low) = or_high 12 (x / 4096) (x % 4096) f (omega arith) lf in
    let same = ap (λ z. bit_or z f) split in omega arith

-- A page address and an offset.
pub bit_or-offset : (t f : ℕ) → f < 4096 → bit_or (t * 4096) f ≡ t * 4096 + f
bit_or-offset t f lf =
    let (high, low) = or_high 12 t 0 f (omega arith) lf in
    let zero_end : t * 4096 + 0 ≡ t * 4096 = omega arith in
    let same = ap (λ z. bit_or z f) zero_end in omega (arith, zero-bit_or f)

-- The lowest bit is set where one of the two has it.
pub bit_or-odd : (a b : ℕ) → bit_or a b % 2 ≡ max (a % 2) (b % 2)
bit_or-odd a b = omega (arith, bit_or_low a b)
