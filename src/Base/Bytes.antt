-- ===== src/Base/Bytes.antt =====
-- Bits of a byte: facts about `|`, `&` and `~` checked at every byte and every bit.
use Prim.Native.Nat.{ℕ, zero, suc, ◌-◌, ◌^◌, ◌<◌, bit_and, bit_or, bit_and-bitwise}
use mathlib.Core.Path.{◌≡◌, refl}
use mathlib.Core.Logic.{inl, inr}
use mathlib.Core.Bool.{Bool, true, false, ◌&&◌, not, ◌||◌}
use native.Mathlib.Omega.{arith}
use trieternal_x_os.Base.Tests.{ltb, ◌==◌, ==→eq, Bool-cases}

-- Whether a test passes at each of 0, 1, ..., bound - 1.
unfoldable pub every : (ℕ → Bool) → ℕ → Bool
every test zero = true
every test (suc bound) = every test bound && test bound

pub every-at :
    (test : ℕ → Bool) (bound : ℕ) → every test bound ≡ true → {k : ℕ} → k < bound → test k ≡ true
unfolding every
every-at test zero all below = absurd (omega arith)
every-at test (suc bound) all {k} below = elim (Bool-cases (k == bound)) [
  | inl last ↦ rw (==→eq k bound last) (ground arith)
  | inr before ↦ every-at test bound (ground arith) (ground arith)
]

-- `(b & (1 << k)) != 0`
abbrev pub has_bit : ℕ → ℕ → Bool
has_bit b k = not (bit_and b (2 ^ k) == 0)

-- `b | (1 << k)`
abbrev pub with_bit : ℕ → ℕ → ℕ
with_bit b k = bit_or b (2 ^ k)

-- `b & ~(1 << k)`, cut to a byte by the store
abbrev pub without_bit : ℕ → ℕ → ℕ
without_bit b k = bit_and b (255 - 2 ^ k)

same : Bool → Bool → Bool
same true b = b
same false b = not b

same-eq : (a b : Bool) → same a b ≡ true → a ≡ b
unfolding same
same-eq a b h = ground arith

check : (ℕ → ℕ → ℕ → Bool) → Bool
unfolding every
check p = every (λ b. every (λ k. every (p b k) 8) 8) 256

check_sound :
    (p : ℕ → ℕ → ℕ → Bool) → check p ≡ true → (b k j : ℕ) → b < 256 → k < 8 → j < 8 → p b k j ≡ true
unfolding check
check_sound p h b k j hb hk hj =
    every-at (p b k) 8
      (every-at (λ k'. every (p b k') 8) 8
        (every-at (λ b'. every (λ k'. every (p b' k') 8) 8) 256 h hb) hk)
      hj

with_table : check (λ b k j. same (has_bit (with_bit b k) j) ((j == k) || has_bit b j)) ≡ true
unfolding check same
with_table = refl

without_table :
    check (λ b k j. same (has_bit (without_bit b k) j) (not (j == k) && has_bit b j)) ≡ true
unfolding check same
without_table = refl

range_table : check (λ b k j. ltb (with_bit b k) 256 && ltb (without_bit b k) 256) ≡ true
unfolding check
range_table = refl

module _ (b k : ℕ) (hb : b < 256) (hk : k < 8) where
  pub has_bit-with_bit : (j : ℕ) → j < 8 → has_bit (with_bit b k) j ≡ ((j == k) || has_bit b j)
  has_bit-with_bit j hj = same-eq _ _ (check_sound _ with_table b k j hb hk hj)

  pub has_bit-without_bit :
      (j : ℕ) → j < 8 → has_bit (without_bit b k) j ≡ (not (j == k) && has_bit b j)
  has_bit-without_bit j hj = same-eq _ _ (check_sound _ without_table b k j hb hk hj)

  pub with_bit_lt : with_bit b k < 256
  with_bit_lt = ground (arith, check_sound _ range_table b k 0 hb hk (omega arith))

  pub without_bit_lt : without_bit b k < 256
  without_bit_lt = ground (arith, check_sound _ range_table b k 0 hb hk (omega arith))

pub not-has_bit-zero : (k : ℕ) → has_bit 0 k ≡ false
not-has_bit-zero k = rw (bit_and-bitwise 0 (2 ^ k))
