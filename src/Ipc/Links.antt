-- ===== src/Ipc/Links.antt =====
-- Linked queues of pool entries, as src/kernel/ipc.cpp threads them through `next`.
use trieternal_x_os.Base.{
  ℕ, ◌≡◌, ◌≢◌, refl, Bool, true, false, ◌||◌, Option, none, some, List, [], ◌∷◌, ◌++◌, arith, ◌==◌,
}
use trieternal_x_os.Ipc.{Message}

abbrev pub Pool : Type 0
Pool = ℕ → Message

abbrev pub has : ℕ → List ℕ → Bool
has i [] = false
has i (x ∷ xs) = (i == x) || has i xs

-- No entry twice.
abbrev pub Distinct : List ℕ → Type 0
Distinct [] = Unit {0}
Distinct (x ∷ xs) = (has x xs ≡ false) × Distinct xs

-- From `h` the `next` fields lead through the entries `xs`, in order, to the null pointer.
abbrev pub Links : Pool → Option ℕ → List ℕ → Type 0
Links pool h [] = h ≡ none
Links pool h (x ∷ xs) = (h ≡ some x) × Links pool (pool x).next xs

abbrev pub last : List ℕ → Option ℕ
last [] = none
last (x ∷ []) = some x
last (x ∷ y ∷ ys) = last (y ∷ ys)

pub has_self : (x : ℕ) (xs : List ℕ) → has x (x ∷ xs) ≡ true
has_self x xs = ground arith

pub has-append : (i : ℕ) (xs ys : List ℕ) → has i (xs ++ ys) ≡ (has i xs || has i ys)
has-append i [] ys = refl
has-append i (x ∷ xs) ys = ground (arith, has-append i xs ys)

pub Distinct-snoc : (xs : List ℕ) (i : ℕ) → Distinct xs → has i xs ≡ false → Distinct (xs ++ i ∷ [])
Distinct-snoc [] i d n = (refl, tt)
Distinct-snoc (x ∷ xs) i d n =
    (ground (arith, has-append x xs (i ∷ [])), Distinct-snoc xs i d.1 (ground arith))

pub last-snoc : (xs : List ℕ) (i : ℕ) → last (xs ++ i ∷ []) ≡ some i
last-snoc [] i = refl
last-snoc (x ∷ []) i = refl
last-snoc (x ∷ y ∷ ys) i = last-snoc (y ∷ ys) i

pub has-last : (xs : List ℕ) {t : ℕ} → last xs ≡ some t → has t xs ≡ true
has-last [] e = cc
has-last (x ∷ []) e = ground arith
has-last (x ∷ y ∷ ys) e = ground (arith, has-last (y ∷ ys) e)

pub nil_of_last : (xs : List ℕ) → last xs ≡ none → xs ≡ []
nil_of_last [] e = refl
nil_of_last (x ∷ []) e = cc
nil_of_last (x ∷ y ∷ ys) e = absurd (cons_ne (nil_of_last (y ∷ ys) e))
  where
    cons_ne : (y ∷ ys) ≢ []
    cons_ne p = cc

-- A queue survives any change that keeps the links of its own entries.
pub Links-frame :
    (p q : Pool) (h : Option ℕ) (xs : List ℕ)
    → ((j : ℕ) → has j xs ≡ true → (q j).next ≡ (p j).next)
    → Links p h xs
    → Links q h xs
Links-frame p q h [] same l = l
Links-frame p q h (x ∷ xs) same l = (
  l.0,
  rw (same x (has_self x xs)) (Links-frame p q (p x).next xs (λ j m. same j (ground arith)) l.1),
)

-- Writing `i` into the last link, and null into its own, puts `i` at the end of the queue.
pub Links-snoc :
    (p q : Pool) (h : Option ℕ) (xs : List ℕ) (t i : ℕ)
    → last xs ≡ some t
    → Distinct xs
    → ((j : ℕ) → has j xs ≡ true → j ≢ t → (q j).next ≡ (p j).next)
    → (q t).next ≡ some i
    → (q i).next ≡ none
    → Links p h xs
    → Links q h (xs ++ i ∷ [])
Links-snoc p q h [] t i e d same et ei l = cc
Links-snoc p q h (x ∷ []) t i e d same et ei l = (l.0, (ground arith, ei))
Links-snoc p q h (x ∷ y ∷ ys) t i e d same et ei l = (
  l.0,
  rw (same x (has_self x (y ∷ ys)) (λ eq. clash eq))
      (Links-snoc p q (p x).next (y ∷ ys) t i e d.1 (λ j m. same j (ground arith)) et ei l.1),
)
  where
    clash : x ≢ t
    clash eq = ground (arith, has-last (y ∷ ys) e, d.0)

-- The head of a queue is null just when the queue is empty.
pub nil_of_Links : (p : Pool) (xs : List ℕ) {h : Option ℕ} → Links p h xs → h ≡ none → xs ≡ []
nil_of_Links p [] l e = refl
nil_of_Links p (x ∷ xs) l e = cc
