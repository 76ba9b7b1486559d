-- ===== src/Kheap/Apart.antt =====
-- `kfree` of src/kernel/kheap.cpp leaves no two free neighbours.
use mathlib.Core.Path.{subst}
use trieternal_x_os.Base.{◌+◌, ◌≡◌, inl, inr, sym, true, false, [], ◌∷◌, ◌++◌}
use trieternal_x_os.Kheap.{Heap, kfree}
use trieternal_x_os.Kheap.Chain.{Span, Spans}
use trieternal_x_os.Kheap.Grow.{IsHeap}
use trieternal_x_os.Kheap.Merge.{join, freed}
use trieternal_x_os.Kheap.Free.{absorb, release, join_leaves}
use trieternal_x_os.Kheap.Release.{join-cases, join-head}
use trieternal_x_os.Kheap.Kfree.{kfree_lem}
use trieternal_x_os.Kheap.RoundTrip.{StartsUsed, IsMerged, used_or_free}

after_free : (b : Span) (bs : Spans) → b.is_free ≡ true → IsMerged (b ∷ bs) → StartsUsed bs
after_free b bs t (inl f, m) = absurd (used_or_free f t)
after_free b bs t (inr u, m) = u

join-IsMerged : (b : Span) (bs : Spans) → IsMerged bs → IsMerged (join b bs)
unfolding join
join-IsMerged b [] m = (inr tt, tt)
join-IsMerged b (c ∷ cs) m = elim (join-cases b c cs) [
  | inl (_, u, e) ↦ subst IsMerged (sym e) (inr (after_free c cs u m), m.1)
  | inr (inl f, e) ↦ subst IsMerged (sym e) (inl f, m)
  | inr (inr f, e) ↦ subst IsMerged (sym e) (inr f, m)
]

StartsUsed-absorb :
    (x : Span) (front : Spans) (y : Span) (ys : Spans)
    → x.is_free ≡ false
    → StartsUsed (absorb (x ∷ front) (y ∷ ys))
unfolding absorb
StartsUsed-absorb x [] y ys f = subst StartsUsed (sym (join_leaves x y ys f)) f
StartsUsed-absorb x (z ∷ front) y ys f = f

absorb-apart :
    (front : Spans) (b : Span) (back : Spans) (y : Span) (ys : Spans)
    → IsMerged (front ++ b ∷ back)
    → IsMerged (y ∷ ys)
    → IsMerged (absorb front (y ∷ ys))
unfolding absorb
absorb-apart [] b back y ys m r = r
absorb-apart (x ∷ []) b back y ys m r = join-IsMerged x (y ∷ ys) r
absorb-apart (x ∷ z ∷ front) b back y ys (inl f, m) r =
    (inl f, absorb-apart (z ∷ front) b back y ys m r)
absorb-apart (x ∷ z ∷ front) b back y ys (inr f, m) r =
    (inr (StartsUsed-absorb z front y ys f), absorb-apart (z ∷ front) b back y ys m r)

back-IsMerged :
    (front : Spans) (b : Span) (back : Spans) → IsMerged (front ++ b ∷ back) → IsMerged back
back-IsMerged [] b back m = m.1
back-IsMerged (x ∷ front) b back m = back-IsMerged front b back m.1

-- Where no two neighbours are free, `kfree` of any block of the list leaves no two free neighbours.
pub kfree-IsMerged :
    {V : Type 0} (h : Heap V) (front : Spans) (b : Span) (back : Spans)
    → IsHeap h (front ++ b ∷ back)
    → IsMerged (front ++ b ∷ back)
    → IsHeap (kfree h (b.addr + 16)) (release front b back) × IsMerged (release front b back)
kfree-IsMerged h front b back i m =
    let (y, ys, e, _, _, _) = join-head (freed b) back in
    let joined = join-IsMerged (freed b) back (back-IsMerged front b back m) in
    (
      (kfree_lem h front b back i).heap,
      subst (λ r. IsMerged (absorb front r)) (sym e)
          (absorb-apart front b back y ys m (subst IsMerged e joined)),
    )
