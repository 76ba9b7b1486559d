-- ===== src/Base/Arrays.antt =====
-- C arrays as functions of the index, written at one place at a time, and the copy loops on them.
use Prim.Native.Nat.{ℕ, zero, suc, ◌+◌, ◌≤◌, ◌<◌}
use mathlib.Core.Path.{◌≡◌, refl, ap, ap₂}
use mathlib.Core.Bool.{◌&&◌}
use mathlib.Core.List.{List, [], ◌∷◌, ◌++◌}
use native.Mathlib.Omega.{arith}
use trieternal_x_os.Base.Tests.{ltb, leb, ◌==◌, if◌then◌else◌}

-- `a[i] = v`
abbrev pub update {ℓ} : {A : Type ℓ} → (ℕ → A) → ℕ → A → ℕ → A
update a i v j = if j == i then v else a j

-- `for (; n > 0; n--, i++) dst[i] = src[i];`
unfoldable pub copy_from : ℕ → ℕ → (ℕ → ℕ) → (ℕ → ℕ) → ℕ → ℕ
copy_from zero i src dst = dst
copy_from (suc n) i src dst = copy_from n (i + 1) src (update dst i (src i))

pub copy_from_lem :
    (n i : ℕ) (src dst : ℕ → ℕ) (j : ℕ)
    → copy_from n i src dst j ≡ (if leb i j && ltb j (i + n) then src j else dst j)
unfolding copy_from
copy_from_lem zero i src dst j = ground arith
copy_from_lem (suc n) i src dst j =
    ground (arith, copy_from_lem n (i + 1) src (update dst i (src i)) j)

-- The first `n` entries of an array from index `i` on.
abbrev pub window {ℓ} : {A : Type ℓ} → (ℕ → A) → ℕ → ℕ → List A
window a i zero = []
window a i (suc n) = a i ∷ window a (i + 1) n

abbrev pub length {ℓ} : {A : Type ℓ} → List A → ℕ
length [] = 0
length (x ∷ xs) = suc (length xs)

pub window-congr {ℓ} :
    {A : Type ℓ} (a b : ℕ → A) (i n : ℕ)
    → ((j : ℕ) → i ≤ j → j < i + n → a j ≡ b j)
    → window a i n ≡ window b i n
window-congr a b i zero same = refl
window-congr a b i (suc n) same =
    ap₂ ◌∷◌ (same i (omega arith) (omega arith))
      (window-congr a b (i + 1) n (λ j lo hi. same j (omega arith) (omega arith)))

pub window-copy_from :
    (n : ℕ) (src dst : ℕ → ℕ) → window (copy_from n 0 src dst) 0 n ≡ window src 0 n
window-copy_from n src dst =
    window-congr (copy_from n 0 src dst) src 0 n
      (λ j lo hi. ground (arith, copy_from_lem n 0 src dst j))

abbrev pub take {ℓ} : {A : Type ℓ} → ℕ → List A → List A
take zero xs = []
take (suc n) [] = []
take (suc n) (x ∷ xs) = x ∷ take n xs

abbrev pub drop {ℓ} : {A : Type ℓ} → ℕ → List A → List A
drop zero xs = xs
drop (suc n) [] = []
drop (suc n) (x ∷ xs) = drop n xs

pub length-window {ℓ} : {A : Type ℓ} (a : ℕ → A) (i n : ℕ) → length (window a i n) ≡ n
length-window a i zero = refl
length-window a i (suc n) = ap suc (length-window a (i + 1) n)

pub take-window {ℓ} :
    {A : Type ℓ} (a : ℕ → A) (i k n : ℕ) → k ≤ n → take k (window a i n) ≡ window a i k
take-window a i zero n h = refl
take-window a i (suc k) zero h = absurd (omega arith)
take-window a i (suc k) (suc n) h = ap (λ r. a i ∷ r) (take-window a (i + 1) k n (omega arith))

-- The entry of a list at an index, and `d` behind its end.
unfoldable pub entry_of : List ℕ → ℕ → ℕ → ℕ
entry_of [] i d = d
entry_of (x ∷ xs) zero d = x
entry_of (x ∷ xs) (suc i) d = entry_of xs i d

-- `a[off + i] = src[i]` for `n` values of `i` from `i` on.
unfoldable pub append_from : ℕ → ℕ → ℕ → (ℕ → ℕ) → (ℕ → ℕ) → ℕ → ℕ
append_from zero i off src dst = dst
append_from (suc n) i off src dst = append_from n (i + 1) off src (update dst (off + i) (src i))

pub length-append {ℓ} : {A : Type ℓ} (xs ys : List A) → length (xs ++ ys) ≡ length xs + length ys
length-append [] ys = omega arith
length-append (x ∷ xs) ys = omega (arith, length-append xs ys)
