-- ===== src/Base/Count.antt =====
-- How many indices below a bound pass a test.
use Prim.Native.Nat.{ℕ, zero, suc, ◌+◌, ◌≤◌, ◌<◌}
use mathlib.Core.Path.{◌≡◌, refl}
use mathlib.Core.Logic.{◌≢◌, inl, inr}
use mathlib.Core.Bool.{Bool, true, false, not}
use native.Mathlib.Omega.{arith}
use trieternal_x_os.Base.Tests.{if◌then◌else◌, ◌==◌, ==→eq, Bool-cases, ltb, leb}

unfoldable pub count_below : (ℕ → Bool) → ℕ → ℕ
count_below p zero = 0
count_below p (suc n) = count_below p n + (if p n then 1 else 0)

pub count_below_le : (p : ℕ → Bool) (n : ℕ) → count_below p n ≤ n
unfolding count_below
count_below_le p zero = omega arith
count_below_le p (suc n) = ground (arith, count_below_le p n)

pub count_below_congr :
    (p q : ℕ → Bool) (n : ℕ) → ((j : ℕ) → j < n → p j ≡ q j) → count_below p n ≡ count_below q n
unfolding count_below
count_below_congr p q zero h = refl
count_below_congr p q (suc n) h =
    ground (arith, h n, count_below_congr p q n (λ j b. h j (omega arith)))

-- Turning one index on adds one.
pub count_below_add :
    (p q : ℕ → Bool) (k n : ℕ)
    → k < n
    → p k ≡ false
    → q k ≡ true
    → ((j : ℕ) → j ≢ k → q j ≡ p j)
    → count_below q n ≡ count_below p n + 1
unfolding count_below
count_below_add p q k zero lt off turned same = absurd (omega arith)
count_below_add p q k (suc n) lt off turned same = elim (Bool-cases (n == k)) [
  | inl e ↦
      let e' : n ≡ k = ==→eq n k e in
      ground (arith, count_below_congr q p n (λ j b. same j (omega arith)))
  | inr e ↦ ground (arith, same n, count_below_add p q k n (ground arith) off turned same)
]

-- Of the indices below `n`, those below `k` are as many as the smaller of the two.
pub count_below-ltb : (k n : ℕ) → count_below (λ j. ltb j k) n ≡ (if leb n k then n else k)
unfolding count_below
count_below-ltb k zero = ground arith
count_below-ltb k (suc n) = ground (arith, count_below-ltb k n)

-- The indices that pass and those that do not make up the range.
pub count_below-not : (p : ℕ → Bool) (n : ℕ) → count_below p n + count_below (λ j. not (p j)) n ≡ n
unfolding count_below
count_below-not p zero = omega arith
count_below-not p (suc n) = ground (arith, count_below-not p n)
