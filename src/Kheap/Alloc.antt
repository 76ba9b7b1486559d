-- ===== src/Kheap/Alloc.antt =====
-- `kmalloc` of src/kernel/kheap.cpp: best fit, growth, and failure.
use native.Mathlib.Nat.{le_refl}
use trieternal_x_os.Base.{
  ℕ, suc, ◌+◌, ◌-◌, ◌^◌, ◌≤◌, ◌<◌, ◌≡◌, ◌≢◌, inl, inr, refl, ◌∙◌, ap, Bool, true, false, Option,
  none, some, [], ◌∷◌, ◌++◌, arith, ne→==, length,
}
use trieternal_x_os.Base.Words.{add32}
use trieternal_x_os.Kheap.{
  Pages, Heap, null, heap_start, round_up, scan, take_block, heap_grow, add_block, kmalloc,
}
use trieternal_x_os.Kheap.Chain.{Span, Spans, end_of, Mem, Ordered}
use trieternal_x_os.Kheap.Scan.{Among, IsBest, pick, ptr, pick-IsBest, scan-pick}
use trieternal_x_os.Kheap.Carve.{carve, take-Chain, carve-Ordered, Among-le}
use trieternal_x_os.Kheap.Grow.{IsHeap}

-- The request of `s` bytes has been served from the blocks `bs`: with a block that is free, large
-- enough and no larger than another such block, which is now carved out for it.
pub record Served {V : Type 0} (s : ℕ) (bs : Spans) (out : ℕ × Heap V) : Type 0 where
  pub block : Span
  pub best : IsBest s bs block
  pub address : out.0 ≡ block.addr + 16
  pub heap : IsHeap out.1 (carve block.addr s bs)

-- No free block of `bs` has `s` bytes.
abbrev pub HasNoFit : ℕ → Spans → Type 0
HasNoFit s bs = (b : Span) → Among b bs → b.is_free ≡ true → b.size < s

-- A size that leaves room for rounding and for a header below 2 ^ 32.
abbrev pub largest_size : ℕ
largest_size = 2 ^ 32 - 8192

pub round_up_bounds :
    (size : ℕ) → size ≤ largest_size → (size ≤ round_up size) × (round_up size < size + 4)
unfolding round_up
round_up_bounds size b = omega arith

pub round_up_twice : (size : ℕ) → size ≤ largest_size → round_up (round_up size) ≡ round_up size
unfolding round_up
round_up_twice size b = omega arith

pub round_up_wrap : (size : ℕ) → 2 ^ 32 - 3 ≤ size → size < 2 ^ 32 → round_up size ≡ 0
unfolding round_up
round_up_wrap size lo hi = omega arith

pub Among-snoc : (b : Span) (bs : Spans) → Among b (bs ++ b ∷ [])
Among-snoc b [] = inl refl
Among-snoc b (x ∷ bs) = inr (Among-snoc b bs)

pub length-snoc : (b : Span) (bs : Spans) → length (bs ++ b ∷ []) ≡ length bs + 1
length-snoc b [] = refl
length-snoc b (x ∷ bs) = omega (arith, length-snoc b bs)

pub Ordered-later : (lo hi hi' : ℕ) (bs : Spans) → hi ≤ hi' → Ordered lo hi bs → Ordered lo hi' bs
Ordered-later lo hi hi' [] le o = omega arith
Ordered-later lo hi hi' (b ∷ bs) le o = (o.0, Ordered-later (end_of b) hi hi' bs le o.1)

module _ {V : Type 0} (ops : Pages V) (walk : ℕ) where
  pub hit :
      (depth size : ℕ) (h : Heap V) (bs : Spans) {c : Span}
      → IsHeap h bs
      → size ≢ 0
      → length bs < walk
      → pick (round_up size) none bs ≡ some c
      → (out : ℕ × Heap V) × (kmalloc ops walk (suc depth) size h ≡ some out)
        × Served (round_up size) bs out
  unfolding kmalloc
  hit depth size h bs {c} i ne f e =
      let best = pick-IsBest (round_up size) bs {c = c} e in
      let found : scan walk h.mem (round_up size) h.heap_start_block null ≡ some c.addr =
        scan-pick walk h.mem (round_up size) null h.heap_start_block heap_start h.heap_current_end
          none bs (omega arith) i.ordered i.chain tt f
        ∙ ap (λ o. some (ptr o)) e in
      let inside = Among-le c heap_start h.heap_current_end bs i.ordered best.among in
      (
        (c.addr + 16, record h { mem = take_block h.mem c.addr (round_up size) }),
        rw (ne→== size 0 ne, kmalloc)
            (rw (found, kmalloc)
              (rw (ne→== c.addr null (omega arith), kmalloc)
                (same_pair c (take_block h.mem c.addr (round_up size)) inside.0 (omega arith)))),
        record {
          block = c;
          best = best;
          address = refl;
          heap = record {
            chain =
                take-Chain h.mem (round_up size) null h.heap_start_block heap_start
                  h.heap_current_end c bs (le_refl heap_start) i.top best.among best.enough
                  i.ordered i.chain;
            ordered =
                carve-Ordered c.addr (round_up size) heap_start h.heap_current_end bs i.ordered;
            top = i.top;
            aligned = i.aligned;
          };
        },
      )
    where
      same_pair :
          (c : Span) (mem : Mem)
          → heap_start ≤ c.addr
          → c.addr + 16 < 2 ^ 32
          → ◌≡◌ {A = Option (ℕ × Heap V)}
              (some (add32 c.addr 16, record h { mem = mem }))
              (some (c.addr + 16, record h { mem = mem }))
      same_pair c mem lo hi = ap (λ a. some (a, record h { mem = mem })) (omega arith)

  -- The heap after the growth that a request of `size` bytes asks for.
  abbrev grown : ℕ → Heap V → Bool × Heap V
  grown size h = heap_grow ops (round_up size) h

  pub miss :
      (depth size : ℕ) (h : Heap V) (bs : Spans)
      → IsHeap h bs
      → size ≢ 0
      → length bs < walk
      → pick (round_up size) none bs ≡ none
      → kmalloc ops walk (suc depth) size h ≡ (elim (grown size h).0 [
        | false ↦ some (null, (grown size h).1)
        | true ↦ elim (add_block walk h.heap_current_end (grown size h).1) [
          | none ↦ none
          | some h2 ↦ kmalloc ops walk depth (round_up size) h2
        ]
      ])
  unfolding kmalloc
  miss depth size h bs i ne f e =
      let found : scan walk h.mem (round_up size) h.heap_start_block null ≡ some null =
        scan-pick walk h.mem (round_up size) null h.heap_start_block heap_start h.heap_current_end
          none bs (omega arith) i.ordered i.chain tt f
        ∙ ap (λ o. some (ptr o)) e in
      rw (ne→== size 0 ne, kmalloc) (rw (found, kmalloc) refl)
