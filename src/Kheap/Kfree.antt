-- ===== src/Kheap/Kfree.antt =====
-- `kfree` of src/kernel/kheap.cpp as a whole.
use mathlib.Core.Path.{subst}
use trieternal_x_os.Base.{
  ℕ, ◌+◌, ◌^◌, ◌≤◌, ◌<◌, ◌≡◌, ◌⊎◌, inl, inr, refl, sym, ap, false, [], ◌∷◌, ◌++◌, arith, ne→==,
}
use trieternal_x_os.Base.Words.{sub32}
use trieternal_x_os.Kheap.{Heap, null, heap_start, free_forward, free_backward, kfree}
use trieternal_x_os.Kheap.Chain.{Span, Spans, end_of, Mem, Chain, Ordered}
use trieternal_x_os.Kheap.Scan.{Among}
use trieternal_x_os.Kheap.Carve.{Among-le}
use trieternal_x_os.Kheap.Grow.{IsHeap}
use trieternal_x_os.Kheap.Merge.{join, freed}
use trieternal_x_os.Kheap.Free.{absorb, release, forward_list, backward_all}
use trieternal_x_os.Kheap.Release.{
  join-head, join-Ordered, Ordered-middle, release-Ordered, release-Among, footprint,
  footprint-release, HasFree, absorb-HasFree,
}

-- What the heap is after `b`, between `front` and `back`, has been freed: its memory is free, joined
-- with its free neighbours, the blocks in use are as before, and no byte is lost.
pub record Released {V : Type 0} (front : Spans) (b : Span) (back : Spans) (h : Heap V)
    : Type 0 where
  pub heap : IsHeap h (release front b back)
  pub kept :
      (d : Span) → d.is_free ≡ false → Among d front ⊎ Among d back → Among d (release front b back)
  pub available : HasFree b.size (release front b back)
  pub bytes : footprint (release front b back) ≡ footprint (front ++ b ∷ back)

pub Among-middle : (front : Spans) (b : Span) (back : Spans) → Among b (front ++ b ∷ back)
Among-middle [] b back = inl refl
Among-middle (x ∷ front) b back = inr (Among-middle front b back)

module _ {V : Type 0} (h : Heap V) (front : Spans) (b : Span) (back : Spans)
    (i : IsHeap h (front ++ b ∷ back)) where
  abbrev after : Mem
  after = free_backward (free_forward h.mem b.addr) b.addr

  inside : (heap_start ≤ b.addr) × (end_of b ≤ h.heap_current_end)
  inside =
      Among-le b heap_start h.heap_current_end (front ++ b ∷ back) i.ordered
        (Among-middle front b back)

  kfree-eq : kfree h (b.addr + 16) ≡ record h { mem = after }
  unfolding kfree
  kfree-eq = rw (ne→== (b.addr + 16) null (omega arith)) (
      ap (λ a. record h { mem = free_backward (free_forward h.mem a) a })
        (header (b.addr) (omega (arith, inside.1, i.top))))
    where
      header : (a : ℕ) → a + 16 < 2 ^ 32 → sub32 (a + 16) 16 ≡ a
      header a lt = omega arith

  after-Chain : Chain after null h.heap_start_block (release front b back)
  after-Chain =
      let f =
        forward_list h.mem null h.heap_start_block heap_start h.heap_current_end front b back
          (omega arith) i.top i.ordered i.chain in
      let (y, ys, e, a, t, z) = join-head (freed b) back in
      let o =
        Ordered-middle heap_start h.heap_current_end front (b ∷ back) (join (freed b) back)
          (λ l p. join-Ordered l h.heap_current_end (freed b) back p) i.ordered in
      subst (λ r. Chain after null h.heap_start_block (absorb front r)) (sym e)
        (subst
          (λ c.
            Chain (free_backward (free_forward h.mem b.addr) c) null h.heap_start_block
              (absorb front (y ∷ ys)))
          a
          (backward_all (free_forward h.mem b.addr) h.heap_start_block heap_start h.heap_current_end
            front y ys (omega arith) i.top t
            (subst (λ r. Ordered heap_start h.heap_current_end (front ++ r)) e o)
            (subst (λ r. Chain (free_forward h.mem b.addr) null h.heap_start_block (front ++ r)) e
              f.chain)))

  -- For a heap with a block `b` at any place of its list, `kfree` of the address behind its header
  -- leaves a heap in which the block is free and joined with its free neighbours; all other blocks in
  -- use are still there, and the blocks have as many bytes together as before.
  pub kfree_lem : Released front b back (kfree h (b.addr + 16))
  kfree_lem =
      let (y, ys, e, a, t, z) = join-head (freed b) back in
      subst (λ k. Released front b back k) (sym kfree-eq)
        (record {
          heap = record {
            chain = after-Chain;
            ordered = release-Ordered heap_start h.heap_current_end front b back i.ordered;
            top = i.top;
            aligned = i.aligned;
          };
          kept = release-Among front b back;
          available =
              subst (λ r. HasFree b.size (absorb front r)) (sym e)
                (let r = absorb-HasFree front y ys t in (r.0, r.1, r.2, omega (arith, z, r.3)));
          bytes = footprint-release front b back;
        })
