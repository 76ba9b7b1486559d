-- ===== src/Kheap/RoundTrip.antt =====
-- `kfree` undoes `kmalloc`, src/kernel/kheap.cpp.
use mathlib.Core.Path.{subst}
use trieternal_x_os.Base.{
  ℕ, ◌+◌, ◌-◌, ◌≤◌, ◌<◌, ◌≡◌, ◌≢◌, ◌⊎◌, inl, inr, refl, sym, ◌∙◌, ap, Bool, true, false, none, some,
  Option-cases, length, [], ◌∷◌, ◌++◌, arith, leb, Bool-cases, eq→==, ne→==,
}
use trieternal_x_os.Kheap.{Pages, Heap, heap_start, round_up, kmalloc, kfree}
use trieternal_x_os.Kheap.Chain.{Span, Spans, end_of, Ordered}
use trieternal_x_os.Kheap.Scan.{Among, pick, no_fit_of_pick}
use trieternal_x_os.Kheap.Carve.{carve, Among-le}
use trieternal_x_os.Kheap.Grow.{IsHeap}
use trieternal_x_os.Kheap.Alloc.{Served, hit}
use trieternal_x_os.Kheap.Merge.{join, freed}
use trieternal_x_os.Kheap.Free.{absorb, release, join_takes, join_leaves}
use trieternal_x_os.Kheap.Release.{join-cases, HasFree}
use trieternal_x_os.Kheap.Kfree.{Among-middle, kfree_lem}

-- The list does not start with a free block.
abbrev pub StartsUsed : Spans → Type 0
StartsUsed [] = Unit {0}
StartsUsed (b ∷ bs) = b.is_free ≡ false

-- No two neighbours are both free.
abbrev pub IsMerged : Spans → Type 0
IsMerged [] = Unit {0}
IsMerged (b ∷ bs) = ((b.is_free ≡ false) ⊎ StartsUsed bs) × IsMerged bs

pub used_or_free : {b : Bool} → b ≡ false → b ≡ true → ⊥
used_or_free e f = let q : false ≡ true = sym e ∙ f in cc q

-- A block of the list has a part of the list on each side.
Among-split :
    (c : Span) (bs : Spans)
    → Among c bs
    → (front : Spans) × (back : Spans) × (bs ≡ front ++ c ∷ back)
Among-split c [] a = absurd a
Among-split c (b ∷ bs) (inl e) = ([], bs, ap (λ x. x ∷ bs) (sym e))
Among-split c (b ∷ bs) (inr a) =
    let (front, back, e) = Among-split c bs a in (b ∷ front, back, ap (λ r. b ∷ r) e)

IsMerged-back :
    (front : Spans) (c : Span) (back : Spans)
    → c.is_free ≡ true
    → IsMerged (front ++ c ∷ back)
    → StartsUsed back
IsMerged-back [] c back t (inl f, m) = absurd (used_or_free f t)
IsMerged-back [] c back t (inr s, m) = s
IsMerged-back (x ∷ front) c back t m = IsMerged-back front c back t m.1

-- In a merged list a free block is not joined with the one in front.
absorb-IsMerged :
    (front : Spans) (c : Span) (back : Spans)
    → c.is_free ≡ true
    → IsMerged (front ++ c ∷ back)
    → absorb front (c ∷ back) ≡ front ++ c ∷ back
unfolding absorb
absorb-IsMerged [] c back t m = refl
absorb-IsMerged (x ∷ []) c back t (inl f, m) = join_leaves x c back f
absorb-IsMerged (x ∷ []) c back t (inr f, m) = absurd (used_or_free f t)
absorb-IsMerged (x ∷ y ∷ front) c back t m =
    ap (λ r. x ∷ r) (absorb-IsMerged (y ∷ front) c back t m.1)

carve-middle :
    (s lo hi : ℕ) (front : Spans) (c : Span) (back : Spans)
    → Ordered lo hi (front ++ c ∷ back)
    → carve c.addr s (front ++ c ∷ back) ≡ front ++ carve c.addr s (c ∷ back)
unfolding carve
carve-middle s lo hi [] c back o = refl
carve-middle s lo hi (x ∷ front) c back o =
    let a = Among-le c (end_of x) hi (front ++ c ∷ back) o.1 (Among-middle front c back) in
    rw (ne→== x.addr c.addr (omega arith))
      (ap (λ r. x ∷ r) (carve-middle s (end_of x) hi front c back o.1))

join_used : (b : Span) (bs : Spans) → StartsUsed bs → join b bs ≡ b ∷ bs
unfolding join
join_used b [] u = refl
join_used b (c ∷ cs) u = elim (join-cases b c cs) [
  | inl (_, t, _) ↦ absurd (used_or_free u t)
  | inr (_, e) ↦ e
]

whole :
    (c : Span) (n : ℕ)
    → c.is_free ≡ true
    → n ≡ c.size
    → record { addr = c.addr; size = n; is_free = true } ≡ c
whole c n t e =
    ap (λ m. record { addr = c.addr; size = m; is_free = true }) e
    ∙ ap (λ q. record { addr = c.addr; size = c.size; is_free = q }) (sym t)

-- Freeing what has been carved out of `c` gives `c` back.
carve-join :
    (s : ℕ) (c : Span) (back : Spans)
    → c.is_free ≡ true
    → s ≤ c.size
    → StartsUsed back
    → (taken : Span) × (rest : Spans) × (carve c.addr s (c ∷ back) ≡ taken ∷ rest)
      × (taken.addr ≡ c.addr)
      × (join (freed taken) rest ≡ c ∷ back)
unfolding carve
carve-join s c back t le u = elim (Bool-cases (leb (s + 20) c.size)) [
  | inl large ↦ (
    record { addr = c.addr; size = s; is_free = false },
    record { addr = c.addr + 16 + s; size = c.size - s - 16; is_free = true } ∷ back,
    rw (eq→== c.addr c.addr refl, large) refl,
    refl,
    join_takes (record { addr = c.addr; size = s; is_free = true })
          (record { addr = c.addr + 16 + s; size = c.size - s - 16; is_free = true }) back refl refl
        ∙ ap (λ x. x ∷ back) (whole c (s + 16 + (c.size - s - 16)) t (ground arith)),
  )
  | inr small ↦ (
    record { addr = c.addr; size = c.size; is_free = false },
    back,
    rw (eq→== c.addr c.addr refl, small) refl,
    refl,
    ap (λ x. join x back) (whole c c.size t refl) ∙ join_used c back u,
  )
]

-- Freeing what a request without growth was given.
kfree-Served :
    {V : Type 0} (s lo hi : ℕ) (bs : Spans) (out : ℕ × Heap V)
    → Ordered lo hi bs
    → IsMerged bs
    → Served s bs out
    → IsHeap (kfree out.1 out.0) bs
kfree-Served s lo hi bs out o m v =
    let c = v.block in
    let (front, back, e) = Among-split c bs v.best.among in
    let merged : IsMerged (front ++ c ∷ back) = subst IsMerged e m in
    let (taken, rest, eq, at, joined) =
      carve-join s c back v.best.free v.best.enough
        (IsMerged-back front c back v.best.free merged) in
    let carved : carve c.addr s bs ≡ front ++ taken ∷ rest =
      ap (carve c.addr s) e
      ∙ carve-middle s lo hi front c back (subst (Ordered lo hi) e o)
      ∙ ap (λ r. front ++ r) eq in
    let r = kfree_lem out.1 front taken rest (subst (IsHeap out.1) carved v.heap) in
    let restored : release front taken rest ≡ bs =
      ap (absorb front) joined ∙ absorb-IsMerged front c back v.best.free merged ∙ sym e in
    let pointer : taken.addr + 16 ≡ out.0 = ap (λ a. a + 16) at ∙ sym v.address in
    subst (λ a. IsHeap (kfree out.1 a) bs) pointer
      (subst (IsHeap (kfree out.1 (taken.addr + 16))) restored r.heap)

-- Where no two neighbours are free and a free block fits the rounded size, a request that is not for
-- 0 bytes is served, and freeing the block that it was given restores the list of blocks.
pub kfree-kmalloc :
    {V : Type 0} (ops : Pages V) (walk size : ℕ) (h : Heap V) (bs : Spans)
    → IsHeap h bs
    → IsMerged bs
    → size ≢ 0
    → length bs < walk
    → HasFree (round_up size) bs
    → (out : ℕ × Heap V) × (kmalloc ops walk 1 size h ≡ some out) × IsHeap (kfree out.1 out.0) bs
kfree-kmalloc ops walk size h bs i m ne f has = elim (Option-cases (pick (round_up size) none bs)) [
  | inl e ↦
      let few = no_fit_of_pick (round_up size) bs e has.0 has.1 has.2 in
      absurd (omega (arith, few, has.3))
  | inr (c, e) ↦
      let r = hit ops walk 0 size h bs {c = c} i ne f e in
      (r.0, r.1, kfree-Served (round_up size) heap_start h.heap_current_end bs r.0 i.ordered m r.2)
]
