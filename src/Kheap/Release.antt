-- ===== src/Kheap/Release.antt =====
-- What `kfree` of src/kernel/kheap.cpp does to the blocks of the heap.
use mathlib.Core.Path.{subst}
use trieternal_x_os.Base.{
  ℕ, ◌+◌, ◌≤◌, ◌≡◌, ◌⊎◌, inl, inr, refl, sym, ◌∙◌, ap, true, false, ◌&&◌, [], ◌∷◌, ◌++◌, arith,
  if◌then◌else◌, Bool-cases,
}
use trieternal_x_os.Kheap.Chain.{Span, Spans, end_of, Ordered}
use trieternal_x_os.Kheap.Scan.{Among}
use trieternal_x_os.Kheap.Merge.{wider, join, freed}
use trieternal_x_os.Kheap.Free.{absorb, release, join_takes, join_leaves}

-- The outcomes of a join.
pub join-cases :
    (b c : Span) (cs : Spans)
    → (b.is_free ≡ true) × (c.is_free ≡ true) × (join b (c ∷ cs) ≡ wider b c.size ∷ cs)
      ⊎ ((b.is_free ≡ false) ⊎ (c.is_free ≡ false)) × (join b (c ∷ cs) ≡ b ∷ c ∷ cs)
unfolding join
join-cases b c cs = elim (Bool-cases b.is_free) [
  | inr f ↦ inr (inl f, join_leaves b c cs f)
  | inl t ↦ elim (Bool-cases c.is_free) [
    | inl u ↦ inl (t, u, join_takes b c cs t u)
    | inr g ↦ inr (inr g, join_apart t g)
  ]
]
  where
    join_apart : b.is_free ≡ true → c.is_free ≡ false → join b (c ∷ cs) ≡ b ∷ c ∷ cs
    join_apart t g =
        ap (λ q. if q && c.is_free then wider b c.size ∷ cs else b ∷ c ∷ cs) t
        ∙ ap (λ q. if q then wider b c.size ∷ cs else b ∷ c ∷ cs) g

pub join-Ordered :
    (lo hi : ℕ) (b : Span) (bs : Spans) → Ordered lo hi (b ∷ bs) → Ordered lo hi (join b bs)
unfolding join
join-Ordered lo hi b [] o = o
join-Ordered lo hi b (c ∷ cs) o = elim (join-cases b c cs) [
  | inl (t, u, e) ↦
      subst (λ bs. Ordered lo hi bs) (sym e) (o.0, nearer cs (omega (arith, o.1.0)) o.1.1)
  | inr (_, e) ↦ subst (λ bs. Ordered lo hi bs) (sym e) o
]
  where
    nearer : {l l' : ℕ} (cs : Spans) → l ≤ l' → Ordered l' hi cs → Ordered l hi cs
    nearer [] le o = omega arith
    nearer (d ∷ cs) le o = (omega (arith, o.0), o.1)

-- What a join starts with.
pub join-head :
    (b : Span) (bs : Spans)
    → (y : Span) × (ys : Spans) × (join b bs ≡ y ∷ ys)
      × (y.addr ≡ b.addr)
      × (y.is_free ≡ b.is_free)
      × (b.size ≤ y.size)
unfolding join
join-head b [] = (b, [], refl, refl, refl, omega arith)
join-head b (c ∷ cs) = elim (join-cases b c cs) [
  | inl (t, u, e) ↦ (wider b c.size, cs, e, refl, refl, omega arith)
  | inr (_, e) ↦ (b, c ∷ cs, e, refl, refl, omega arith)
]

absorb-Ordered :
    (lo hi : ℕ) (front rest : Spans)
    → Ordered lo hi (front ++ rest)
    → Ordered lo hi (absorb front rest)
unfolding absorb
absorb-Ordered lo hi [] rest o = o
absorb-Ordered lo hi (x ∷ []) rest o = join-Ordered lo hi x rest o
absorb-Ordered lo hi (x ∷ y ∷ front) rest o =
    (o.0, absorb-Ordered (end_of x) hi (y ∷ front) rest o.1)

pub Ordered-middle :
    (lo hi : ℕ) (front bs cs : Spans)
    → ((l : ℕ) → Ordered l hi bs → Ordered l hi cs)
    → Ordered lo hi (front ++ bs)
    → Ordered lo hi (front ++ cs)
Ordered-middle lo hi [] bs cs f o = f lo o
Ordered-middle lo hi (x ∷ front) bs cs f o = (o.0, Ordered-middle (end_of x) hi front bs cs f o.1)

pub release-Ordered :
    (lo hi : ℕ) (front : Spans) (b : Span) (back : Spans)
    → Ordered lo hi (front ++ b ∷ back)
    → Ordered lo hi (release front b back)
release-Ordered lo hi front b back o = absorb-Ordered lo hi front (join (freed b) back) (
    Ordered-middle lo hi front (b ∷ back) (join (freed b) back)
      (λ l p. join-Ordered l hi (freed b) back p) o)

clash : (d b : Span) → d ≡ b → d.is_free ≡ false → b.is_free ≡ true → ⊥
clash d b s f t = let q : false ≡ true = sym f ∙ ap (λ (x : Span). x.is_free) s ∙ t in cc q

-- Blocks in use stay through a join.
join-Among :
    (b : Span) (bs : Spans) (d : Span)
    → d.is_free ≡ false
    → (d ≡ b) ⊎ Among d bs
    → Among d (join b bs)
unfolding join
join-Among b [] d f a = a
join-Among b (c ∷ cs) d f a = elim (join-cases b c cs) [
  | inr (_, e) ↦ subst (Among d) (sym e) a
  | inl (t, u, e) ↦ subst (Among d) (sym e) (elim a [
    | inl s ↦ absurd (clash d b s f t)
    | inr (inl s) ↦ absurd (clash d c s f u)
    | inr (inr m) ↦ inr m
  ])
]

absorb-Among :
    (front rest : Spans) (d : Span)
    → d.is_free ≡ false
    → Among d front ⊎ Among d rest
    → Among d (absorb front rest)
unfolding absorb
absorb-Among [] rest d f (inl a) = absurd a
absorb-Among [] rest d f (inr a) = a
absorb-Among (x ∷ []) rest d f (inl (inl s)) = join-Among x rest d f (inl s)
absorb-Among (x ∷ []) rest d f (inl (inr a)) = absurd a
absorb-Among (x ∷ []) rest d f (inr a) = join-Among x rest d f (inr a)
absorb-Among (x ∷ y ∷ front) rest d f (inl (inl s)) = inl s
absorb-Among (x ∷ y ∷ front) rest d f (inl (inr a)) =
    inr (absorb-Among (y ∷ front) rest d f (inl a))
absorb-Among (x ∷ y ∷ front) rest d f (inr a) = inr (absorb-Among (y ∷ front) rest d f (inr a))

pub release-Among :
    (front : Spans) (b : Span) (back : Spans) (d : Span)
    → d.is_free ≡ false
    → Among d front ⊎ Among d back
    → Among d (release front b back)
release-Among front b back d f (inl a) = absorb-Among front (join (freed b) back) d f (inl a)
release-Among front b back d f (inr a) =
    absorb-Among front (join (freed b) back) d f (inr (join-Among (freed b) back d f (inr a)))

-- The bytes of the blocks, their headers included.
abbrev pub footprint : Spans → ℕ
footprint [] = 0
footprint (b ∷ bs) = 16 + b.size + footprint bs

footprint-join : (b : Span) (bs : Spans) → footprint (join b bs) ≡ footprint (b ∷ bs)
unfolding join
footprint-join b [] = refl
footprint-join b (c ∷ cs) = elim (join-cases b c cs) [
  | inl (t, u, e) ↦ ap footprint e ∙ omega arith
  | inr (_, e) ↦ ap footprint e
]

footprint-absorb : (front rest : Spans) → footprint (absorb front rest) ≡ footprint (front ++ rest)
unfolding absorb
footprint-absorb [] rest = refl
footprint-absorb (x ∷ []) rest = footprint-join x rest
footprint-absorb (x ∷ y ∷ front) rest =
    ap (λ n. 16 + x.size + n) (footprint-absorb (y ∷ front) rest)

footprint-middle :
    (front bs cs : Spans)
    → footprint bs ≡ footprint cs
    → footprint (front ++ bs) ≡ footprint (front ++ cs)
footprint-middle [] bs cs e = e
footprint-middle (x ∷ front) bs cs e = ap (λ n. 16 + x.size + n) (footprint-middle front bs cs e)

pub footprint-release :
    (front : Spans) (b : Span) (back : Spans)
    → footprint (release front b back) ≡ footprint (front ++ b ∷ back)
footprint-release front b back =
    footprint-absorb front (join (freed b) back)
    ∙ footprint-middle front (join (freed b) back) (b ∷ back) (footprint-join (freed b) back)

-- A free block of at least `size` bytes.
abbrev pub HasFree : ℕ → Spans → Type 0
HasFree size bs = (c : Span) × Among c bs × (c.is_free ≡ true) × (size ≤ c.size)

pub absorb-HasFree :
    (front : Spans) (y : Span) (ys : Spans)
    → y.is_free ≡ true
    → HasFree y.size (absorb front (y ∷ ys))
unfolding absorb
absorb-HasFree [] y ys t = (y, inl refl, t, omega arith)
absorb-HasFree (x ∷ []) y ys t = elim (join-cases x y ys) [
  | inl (u, _, e) ↦ subst (HasFree y.size) (sym e) (wider x y.size, inl refl, u, omega arith)
  | inr (_, e) ↦ subst (HasFree y.size) (sym e) (y, inr (inl refl), t, omega arith)
]
absorb-HasFree (x ∷ z ∷ front) y ys t =
    let r = absorb-HasFree (z ∷ front) y ys t in (r.0, inr r.1, r.2, r.3)
