-- ===== src/Kheap/Scan.antt =====
-- The search of `kmalloc` in src/kernel/kheap.cpp finds the best fit.
use trieternal_x_os.Base.{
  ℕ, zero, suc, ◌≤◌, ◌<◌, ◌≡◌, ◌≢◌, ◌⊎◌, inl, inr, refl, sym, ap, Bool, true, false, ◌&&◌, Option,
  none, some, [], ◌∷◌, arith, leb, ltb, if◌then◌else◌, Bool-cases, length,
}
use native.Mathlib.Nat.{le_refl, le_trans}
use trieternal_x_os.Kheap.{null, scan}
use trieternal_x_os.Kheap.Chain.{Span, Spans, end_of, Mem, Chain, Ordered}

abbrev pub Among : Span → Spans → Type 0
Among b [] = ⊥
Among b (x ∷ xs) = (b ≡ x) ⊎ Among b xs

abbrev pub fits : ℕ → Span → Bool
fits s b = b.is_free && leb s b.size

abbrev pub better : Option Span → Span → Bool
better none b = true
better (some c) b = ltb b.size c.size

-- The search over the list of blocks, with the best fit so far.
unfoldable pub pick : ℕ → Option Span → Spans → Option Span
pick s best [] = best
pick s best (b ∷ bs) = pick s (if fits s b && better best b then some b else best) bs

-- `c` is free, large enough, and no larger than any other such block.
pub record IsBest (s : ℕ) (bs : Spans) (c : Span) : Type 0 where
  pub among : Among c bs
  pub free : c.is_free ≡ true
  pub enough : s ≤ c.size
  pub least : (b : Span) → Among b bs → b.is_free ≡ true → s ≤ b.size → c.size ≤ b.size

pick-from :
    (s : ℕ) (best : Option Span) (bs : Spans) {c : Span}
    → pick s best bs ≡ some c
    → (best ≡ some c) ⊎ Among c bs × (c.is_free ≡ true) × (s ≤ c.size)
unfolding pick
pick-from s best [] e = inl e
pick-from s best (b ∷ bs) {c} e = elim (Bool-cases (fits s b && better best b)) [
  | inl t ↦ elim (pick-from s (some b) bs {c = c} (rw t at e)) [
    | inl q ↦ inr (inl (cc q), ground arith, ground arith)
    | inr (a, f, z) ↦ inr (inr a, f, z)
  ]
  | inr f ↦ elim (pick-from s best bs {c = c} (rw f at e)) [
    | inl q ↦ inl q
    | inr (a, g, z) ↦ inr (inr a, g, z)
  ]
]

pick-le :
    (s : ℕ) (best : Option Span) (bs : Spans) {c : Span}
    → pick s best bs ≡ some c
    → (d : Span) → best ≡ some d
    → c.size ≤ d.size
unfolding pick
pick-le s best [] {c} e d q = let same : c ≡ d = cc in rw same (le_refl d.size)
pick-le s best (b ∷ bs) {c} e d q = elim (Bool-cases (fits s b && better best b)) [
  | inl t ↦
      let small : b.size < d.size = smaller t in
      omega (arith, pick-le s (some b) bs {c = c} (rw t at e) b refl)
  | inr f ↦ pick-le s best bs {c = c} (rw f at e) d q
]
  where
    smaller : (fits s b && better best b) ≡ true → b.size < d.size
    smaller t = let t' : (fits s b && better (some d) b) ≡ true = rw q at t in ground arith

pick-least :
    (s : ℕ) (best : Option Span) (bs : Spans) {c : Span}
    → pick s best bs ≡ some c
    → (b : Span) → Among b bs
    → b.is_free ≡ true
    → s ≤ b.size
    → c.size ≤ b.size
unfolding pick
pick-least s best [] e b a f z = absurd a
pick-least s best (x ∷ bs) {c} e b (inr a) f z =
    pick-least s (if fits s x && better best x then some x else best) bs {c = c} e b a f z
pick-least s none (x ∷ bs) {c} e b (inl same) f z =
    pick-le s (some x) bs {c = c} (rw (fit same) at e) b (ap some (sym same))
  where
    fit : b ≡ x → (fits s x && true) ≡ true
    fit same = rw (← same) (ground arith)
pick-least s (some d) (x ∷ bs) {c} e b (inl same) f z =
    elim (Bool-cases (fits s x && ltb x.size d.size)) [
      | inl t ↦ rw same (pick-le s (some x) bs {c = c} (rw t at e) x refl)
      | inr g ↦
          let far : d.size ≤ x.size = farther (rw same at f) (rw same at z) g in
          rw same (le_trans (pick-le s (some d) bs {c = c} (rw g at e) d refl) far)
    ]
  where
    farther :
        x.is_free ≡ true → s ≤ x.size → (fits s x && ltb x.size d.size) ≡ false → d.size ≤ x.size
    farther f z g = ground arith

pick-none :
    (s : ℕ) (best : Option Span) (bs : Spans)
    → pick s best bs ≡ none
    → (best ≡ none) × ((b : Span) → Among b bs → b.is_free ≡ true → b.size < s)
unfolding pick
pick-none s best [] e = (e, λ b a f. absurd a)
pick-none s best (x ∷ bs) e = elim (Bool-cases (fits s x && better best x)) [
  | inl t ↦ let none_is = (pick-none s (some x) bs (rw t at e)).0 in cc none_is
  | inr g ↦
      let ih = pick-none s best bs (rw g at e) in (ih.0, λ b a f. small (rw ih.0 at g) ih.1 b a f)
]
  where
    small :
        (fits s x && true) ≡ false
        → ((b : Span) → Among b bs → b.is_free ≡ true → b.size < s)
        → (b : Span) → Among b (x ∷ bs)
        → b.is_free ≡ true
        → b.size < s
    small g rest b (inl same) f = rw same (fitless g (rw same at f))
      where
        fitless : (fits s x && true) ≡ false → x.is_free ≡ true → x.size < s
        fitless g f = ground arith
    small g rest b (inr a) f = rest b a f

-- The search finds the best fit, if there is a fit at all.
pub pick-IsBest : (s : ℕ) (bs : Spans) {c : Span} → pick s none bs ≡ some c → IsBest s bs c
pick-IsBest s bs {c} e = elim (pick-from s none bs {c = c} e) [
  | inl q ↦ cc q
  | inr (a, f, z) ↦ record {
    among = a;
    free = f;
    enough = z;
    least = pick-least s none bs {c = c} e;
  }
]

pub no_fit_of_pick :
    (s : ℕ) (bs : Spans)
    → pick s none bs ≡ none
    → (b : Span) → Among b bs
    → b.is_free ≡ true
    → b.size < s
no_fit_of_pick s bs e = (pick-none s none bs e).1

abbrev pub ptr : Option Span → ℕ
ptr none = null
ptr (some b) = b.addr

-- The best fit so far, as the loop keeps it.
abbrev pub Kept : Mem → Option Span → Type 0
Kept mem none = Unit {0}
Kept mem (some c) = (c.addr ≢ null) × ((mem c.addr).size ≡ c.size)

-- The loop over the headers is the search over the list, with one step of fuel more than blocks.
pub scan-pick :
    (fuel : ℕ) (mem : Mem) (s prev p lo hi : ℕ) (best : Option Span) (bs : Spans)
    → 0 < lo
    → Ordered lo hi bs
    → Chain mem prev p bs
    → Kept mem best
    → length bs < fuel
    → scan fuel mem s p (ptr best) ≡ some (ptr (pick s best bs))
unfolding scan pick
scan-pick zero mem s prev p lo hi best bs pos o c k f = absurd (omega arith)
scan-pick (suc fuel) mem s prev p lo hi best [] pos o c k f = rw (c, scan) refl
scan-pick (suc fuel) mem s prev p lo hi none (b ∷ bs) pos o c k f = ground (
  arith,
  scan-pick fuel mem s b.addr (mem b.addr).next (end_of b) hi none bs (omega arith) o.1 c.4 tt
      (omega arith),
  scan-pick fuel mem s b.addr (mem b.addr).next (end_of b) hi (some b) bs (omega arith) o.1 c.4
      (omega (arith, o.0), c.1) (omega arith),
)
scan-pick (suc fuel) mem s prev p lo hi (some d) (b ∷ bs) pos o c k f = ground (
  arith,
  scan-pick fuel mem s b.addr (mem b.addr).next (end_of b) hi (some d) bs (omega arith) o.1 c.4 k
      (omega arith),
  scan-pick fuel mem s b.addr (mem b.addr).next (end_of b) hi (some b) bs (omega arith) o.1 c.4
      (omega (arith, o.0), c.1) (omega arith),
)
