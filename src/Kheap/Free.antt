-- ===== src/Kheap/Free.antt =====
-- `kfree` of src/kernel/kheap.cpp on the list of blocks: the block joined with the free block behind
-- it, and then with the free block in front.
use mathlib.Core.Path.{subst}
use trieternal_x_os.Base.{
  ℕ, ◌≤◌, ◌<◌, ◌≡◌, ◌≢◌, ◌⊎◌, inl, inr, refl, sym, ◌∙◌, ap, true, false, ◌&&◌, [], ◌∷◌, ◌++◌, arith,
  ◌==◌, if◌then◌else◌, Bool-cases, ne→==,
}
use trieternal_x_os.Kheap.{Block, null, heap_max, merge_next, free_forward, free_backward}
use trieternal_x_os.Kheap.Chain.{Span, Spans, end_of, Mem, Chain, Ordered, Chain-link}
use trieternal_x_os.Kheap.Merge.{
  wider, join, freed, forward_lem, merge_next-Chain, merge_prev-merge_next, merge-other,
}

-- The last block of `front` takes the block behind it in.
unfoldable pub absorb : Spans → Spans → Spans
absorb [] rest = rest
absorb (x ∷ []) rest = join x rest
absorb (x ∷ y ∷ front) rest = x ∷ absorb (y ∷ front) rest

-- The list after `b`, between `front` and `back`, has been freed.
abbrev pub release : Spans → Span → Spans → Spans
release front b back = absorb front (join (freed b) back)

-- The chain `bs` from `p` on, and headers below `lo` as they were.
pub record Rewired (mem mem' : Mem) (prev p lo : ℕ) (bs : Spans) : Type 0 where
  pub chain : Chain mem' prev p bs
  below : (x : ℕ) → x < lo → mem' x ≡ mem x

-- A block in front of what has been rewired.
Rewired-cons :
    {mem mem' : Mem} {prev p lo : ℕ} {x : Span} {bs : Spans}
    → lo ≤ x.addr
    → p ≡ x.addr
    → (mem x.addr).size ≡ x.size
    → (mem x.addr).is_free ≡ x.is_free
    → (mem x.addr).prev ≡ prev
    → Rewired mem mem' x.addr (mem x.addr).next (end_of x) bs
    → Rewired mem mem' prev p lo (x ∷ bs)
Rewired-cons {mem} {mem'} {x = x} {bs = bs} le e size free back r =
    let here = r.below x.addr (omega arith) in
    record {
      chain = (
        e,
        ap (λ (b : Block). b.size) here ∙ size,
        ap (λ (b : Block). b.is_free) here ∙ free,
        ap (λ (b : Block). b.prev) here ∙ back,
        subst (λ (b : Block). Chain mem' x.addr b.next bs) (sym here) r.chain,
      );
      below = λ z lt. r.below z (omega arith);
    }

pub forward_list :
    (mem : Mem) (prev p lo hi : ℕ) (front : Spans) (b : Span) (back : Spans)
    → 0 < lo
    → hi ≤ heap_max
    → Ordered lo hi (front ++ b ∷ back)
    → Chain mem prev p (front ++ b ∷ back)
    → Rewired mem (free_forward mem b.addr) prev p lo (front ++ join (freed b) back)
forward_list mem prev p lo hi [] b back pos top o ch =
    let f = forward_lem mem prev p lo hi b pos back top o ch in
    record { chain = f.chain; below = λ x lt. f.below x (omega (arith, o.0)) }
forward_list mem prev p lo hi (x ∷ front) b back pos top o ch =
    Rewired-cons o.0 ch.0 ch.1 ch.2 ch.3 (
      forward_list mem x.addr (mem x.addr).next (end_of x) hi front b back (omega arith) top o.1
        ch.4)

takes_back :
    (mem : Mem) (a x : ℕ)
    → x ≢ null
    → (mem a).prev ≡ x
    → (mem x).next ≡ a
    → (mem x).is_free ≡ true
    → free_backward mem a ≡ merge_next mem x
unfolding free_backward
takes_back mem a x ne e f t =
    rw (e, free_backward) (rw (ne→== x null ne) (rw t (merge_prev-merge_next mem a x e f)))

leaves_back :
    (mem : Mem) (a x : ℕ)
    → (mem a).prev ≡ x
    → (x ≡ null) ⊎ ((mem x).is_free ≡ false)
    → free_backward mem a ≡ mem
unfolding free_backward
leaves_back mem a x e (inl z) = rw (e, free_backward) (rw z refl)
leaves_back mem a x e (inr f) =
    rw (e, free_backward)
      (elim (Bool-cases (x == null)) [ inl z ↦ rw z refl | inr z ↦ rw z (rw f refl) ])

pub join_takes :
    (b c : Span) (cs : Spans)
    → b.is_free ≡ true
    → c.is_free ≡ true
    → join b (c ∷ cs) ≡ wider b c.size ∷ cs
unfolding join
join_takes b c cs e f =
    ap (λ q. if q && c.is_free then wider b c.size ∷ cs else b ∷ c ∷ cs) e
    ∙ ap (λ q. if q then wider b c.size ∷ cs else b ∷ c ∷ cs) f

pub join_leaves : (b c : Span) (cs : Spans) → b.is_free ≡ false → join b (c ∷ cs) ≡ b ∷ c ∷ cs
unfolding join
join_leaves b c cs e = ap (λ q. if q && c.is_free then wider b c.size ∷ cs else b ∷ c ∷ cs) e

Rewired-eq :
    {mem mem1 mem2 : Mem} {prev p lo : ℕ} {bs cs : Spans}
    → mem2 ≡ mem1
    → cs ≡ bs
    → Rewired mem mem1 prev p lo bs
    → Rewired mem mem2 prev p lo cs
Rewired-eq {mem} {mem1} {mem2} {prev} {p} {lo} {bs} {cs} e f r =
    subst (λ μ. Rewired mem μ prev p lo cs) (sym e)
      (subst (λ ds. Rewired mem mem1 prev p lo ds) (sym f) r)

-- The merge with the block in front.
backward_pair :
    (mem : Mem) (prev p lo hi : ℕ) (x y : Span) (ys : Spans)
    → 0 < lo
    → hi ≤ heap_max
    → y.is_free ≡ true
    → Ordered lo hi (x ∷ y ∷ ys)
    → Chain mem prev p (x ∷ y ∷ ys)
    → Rewired mem (free_backward mem y.addr) prev p lo (join x (y ∷ ys))
backward_pair mem prev p lo hi x y ys pos top free o ch = elim (Bool-cases x.is_free) [
  | inl t ↦
      Rewired-eq (takes_back mem y.addr x.addr (omega (arith, o.0)) ch.4.3 ch.4.0 (ch.2 ∙ t))
        (join_takes x y ys t free)
        (record {
          chain = merge_next-Chain mem prev p lo hi x y ys pos top o ch;
          below =
              λ z lt. merge-other mem x.addr z (omega (arith, o.0)) (far z (omega (arith, o.0)));
        })
  | inr f ↦
      Rewired-eq (leaves_back mem y.addr x.addr ch.4.3 (inr (ch.2 ∙ f))) (join_leaves x y ys f)
        (record { chain = ch; below = λ z lt. refl })
]
  where
    far :
        (z : ℕ)
        → z < x.addr
        → ((mem (mem x.addr).next).next ≡ null) ⊎ (z ≢ (mem (mem x.addr).next).next)
    far z lt =
        let e = ap (λ a. (mem a).next) ch.4.0 in
        elim (Chain-link mem y.addr (mem y.addr).next (end_of y) hi ys o.1.1 ch.4.4) [
          | inl n ↦ inl (e ∙ n)
          | inr le ↦ inr (omega (arith, e, o.1.0))
        ]

backward_list :
    (mem : Mem) (prev p lo hi : ℕ) (x : Span) (front : Spans) (y : Span) (ys : Spans)
    → 0 < lo
    → hi ≤ heap_max
    → y.is_free ≡ true
    → Ordered lo hi (x ∷ front ++ y ∷ ys)
    → Chain mem prev p (x ∷ front ++ y ∷ ys)
    → Rewired mem (free_backward mem y.addr) prev p lo (absorb (x ∷ front) (y ∷ ys))
unfolding absorb
backward_list mem prev p lo hi x [] y ys pos top free o ch =
    backward_pair mem prev p lo hi x y ys pos top free o ch
backward_list mem prev p lo hi x (z ∷ front) y ys pos top free o ch =
    Rewired-cons o.0 ch.0 ch.1 ch.2 ch.3 (
      backward_list mem x.addr (mem x.addr).next (end_of x) hi z front y ys (omega arith) top free
        o.1 ch.4)

-- The whole of it, from the first block of the heap.
pub backward_all :
    (mem : Mem) (p lo hi : ℕ) (front : Spans) (y : Span) (ys : Spans)
    → 0 < lo
    → hi ≤ heap_max
    → y.is_free ≡ true
    → Ordered lo hi (front ++ y ∷ ys)
    → Chain mem null p (front ++ y ∷ ys)
    → Chain (free_backward mem y.addr) null p (absorb front (y ∷ ys))
unfolding absorb
backward_all mem p lo hi [] y ys pos top free o ch =
    subst (λ μ. Chain μ null p (y ∷ ys)) (sym (leaves_back mem y.addr null ch.3 (inl refl))) ch
backward_all mem p lo hi (x ∷ front) y ys pos top free o ch =
    (backward_list mem null p lo hi x front y ys pos top free o ch).chain
