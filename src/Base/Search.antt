-- ===== src/Base/Search.antt =====
-- `for (i = i0; i < i0 + n; i++) if (p(i)) return i;`, the scan of every table of the kernel.
use Prim.Native.Nat.{ℕ, zero, suc, ◌+◌, ◌≤◌, ◌<◌}
use mathlib.Core.Path.{◌≡◌, refl}
use mathlib.Core.Logic.{inl, inr}
use mathlib.Core.Bool.{Bool, true, false}
use mathlib.Core.Option.{Option, none, some}
use native.Mathlib.Omega.{arith}
use trieternal_x_os.Base.Tests.{if◌then◌else◌, Bool-cases, ◌==◌, ==→eq}

unfoldable pub find_from : (ℕ → Bool) → ℕ → ℕ → Option ℕ
find_from p zero i = none
find_from p (suc n) i = let rest = find_from p n (i + 1) in if p i then some i else rest

-- What `some k` says: `k` is the first index of the range that passes.
pub record IsFirst (p : ℕ → Bool) (i n k : ℕ) : Type 0 where
  pub from : i ≤ k
  pub below : k < i + n
  pub hit : p k ≡ true
  pub first : (j : ℕ) → i ≤ j → j < k → p j ≡ false

pub find_from-some : (p : ℕ → Bool) (n i : ℕ) {k : ℕ} → find_from p n i ≡ some k → IsFirst p i n k
unfolding find_from
find_from-some p zero i e = cc
find_from-some p (suc n) i {k} e = elim (Bool-cases (p i)) [
  | inl t ↦ record {
    from = ground arith;
    below = ground arith;
    hit = ground arith;
    first = λ j a b. ground arith;
  }
  | inr f ↦
      let r = find_from-some p n (i + 1) {k = k} (rw f at e) in
      record {
        from = omega (arith, r.from);
        below = omega (arith, r.below);
        hit = r.hit;
        first = λ j a b. ground (arith, r.first j);
      }
]

pub find_from-none :
    (p : ℕ → Bool) (n i : ℕ) → find_from p n i ≡ none → (j : ℕ) → i ≤ j → j < i + n → p j ≡ false
unfolding find_from
find_from-none p zero i e j a b = absurd (omega arith)
find_from-none p (suc n) i e j a b = elim (Bool-cases (p i)) [
  | inl t ↦ ground arith
  | inr f ↦ elim (Bool-cases (i == j)) [
    | inl same ↦ rw (← ==→eq i j same) f
    | inr other ↦ find_from-none p n (i + 1) (rw f at e) j (ground arith) (omega arith)
  ]
]

pub find_from-hit : (p : ℕ → Bool) (n i k : ℕ) → IsFirst p i n k → find_from p n i ≡ some k
unfolding find_from
find_from-hit p zero i k h = absurd (omega arith)
find_from-hit p (suc n) i k h = elim (Bool-cases (p i)) [
  | inl t ↦ ground (arith, h.first i)
  | inr f ↦ rw f (
      find_from-hit p n (i + 1) k (record {
        from = ground (arith, h.hit);
        below = omega arith;
        hit = h.hit;
        first = λ j a b. h.first j (omega arith) b;
      }))
]

pub find_from-congr :
    (p q : ℕ → Bool) (n i : ℕ)
    → ((j : ℕ) → i ≤ j → j < i + n → p j ≡ q j)
    → find_from p n i ≡ find_from q n i
unfolding find_from
find_from-congr p q zero i same = refl
find_from-congr p q (suc n) i same = ground (
  arith,
  same i (omega arith) (omega arith),
  find_from-congr p q n (i + 1) (λ j a b. same j (omega arith) (omega arith)),
)

-- A range that is longer by one.
pub find_from-longer :
    (p : ℕ → Bool) (n i : ℕ)
    → find_from p (n + 1) i
      ≡ elim (find_from p n i) [ none ↦ if p (i + n) then some (i + n) else none | some k ↦ some k ]
unfolding find_from
find_from-longer p zero i = ground arith
find_from-longer p (suc n) i = ground (arith, find_from-longer p n (i + 1))
