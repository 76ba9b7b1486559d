-- ===== src/Base/Words.antt =====
-- 32-bit unsigned arithmetic of `uint32_t` and `size_t`: results are cut to 2 ^ 32.
use Prim.Native.Nat.{ℕ, ◌+◌, ◌-◌, ◌*◌, ◌%◌, ◌^◌, ◌<◌, ◌≤◌}
use mathlib.Core.Path.{◌≡◌}
use native.Mathlib.Omega.{arith}
use mathlib.Core.Bool.{Bool, true, false}
use trieternal_x_os.Base.Tests.{ltb, if◌then◌else◌}

abbrev pub add32 : ℕ → ℕ → ℕ
add32 a b = (a + b) % 2 ^ 32

abbrev pub sub32 : ℕ → ℕ → ℕ
sub32 a b = (a + 2 ^ 32 - b) % 2 ^ 32

abbrev pub mul32 : ℕ → ℕ → ℕ
mul32 a b = a * b % 2 ^ 32

-- `a < b` on the numbers as signed ones.
abbrev pub lt32 : ℕ → ℕ → Bool
lt32 a b = ltb (add32 a (2 ^ 31)) (add32 b (2 ^ 31))

-- How often a loop runs that counts up to a signed number.
abbrev pub rounds : ℕ → ℕ
rounds n = if ltb n (2 ^ 31) then n else 0

-- On numbers that are not negative.
pub lt32→lt : (a b : ℕ) → a < 2 ^ 31 → b < 2 ^ 31 → lt32 a b ≡ true → a < b
lt32→lt a b ha hb e = ground arith

pub lt32→le : (a b : ℕ) → a < 2 ^ 31 → b < 2 ^ 31 → lt32 a b ≡ false → b ≤ a
lt32→le a b ha hb e = ground arith
