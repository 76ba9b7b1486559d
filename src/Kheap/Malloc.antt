-- ===== src/Kheap/Malloc.antt =====
-- `kmalloc` of src/kernel/kheap.cpp as a whole: the best fit, or growth and then a fit, or failure.
use mathlib.Core.Path.{subst}
use trieternal_x_os.Base.{
  ℕ, ◌+◌, ◌-◌, ◌*◌, ◌^◌, ◌≤◌, ◌<◌, ◌≡◌, ◌≢◌, ◌⊎◌, inl, inr, true, false, none, some, [], ◌∷◌, ◌++◌,
  arith, Option-cases, length,
}
use trieternal_x_os.Kheap.{Pages, Heap, null, round_up, heap_grow, kmalloc}
use trieternal_x_os.Kheap.Chain.{Span, Spans}
use trieternal_x_os.Kheap.Scan.{Among, pick, no_fit_of_pick}
use trieternal_x_os.Kheap.Grow.{IsHeap, pages_for}
use trieternal_x_os.Kheap.Extend.{fresh_span}
use trieternal_x_os.Kheap.Alloc.{Served, HasNoFit, largest_size, round_up_wrap, hit}

-- The end of the heap after growing for `s` bytes.
abbrev grown_end : {V : Type 0} → ℕ → Heap V → ℕ
grown_end s h = h.heap_current_end + 4096 * pages_for s

-- The blocks after growing for `s` bytes.
abbrev pub grown_spans : {V : Type 0} → ℕ → Heap V → Spans → Spans
grown_spans s h bs = bs ++ fresh_span h.heap_current_end (grown_end s h) ∷ []

module _ {V : Type 0} (ops : Pages V) where
  -- The heap could not grow for `s` bytes, and its blocks are as before.
  pub record IsExhausted (s : ℕ) (h : Heap V) (bs : Spans) (out : ℕ × Heap V) : Type 0 where
    pub address : out.0 ≡ null
    pub stuck : (heap_grow ops s h).0 ≡ false
    pub heap : IsHeap out.1 bs

  -- What a request of `s` bytes, a multiple of 4, can come to.
  abbrev pub Outcome : ℕ → Heap V → Spans → ℕ × Heap V → Type 0
  Outcome s h bs out =
      Served s bs out ⊎ HasNoFit s bs × (Served s (grown_spans s h bs) out ⊎ IsExhausted s h bs out)

  module _ (walk size : ℕ) (h : Heap V) (bs : Spans) (i : IsHeap h bs) (ne : size ≢ 0)
      (small : size ≤ largest_size) (f : length bs + 1 < walk) where
    abbrev s : ℕ
    s = round_up size

    abbrev h1 : Heap V
    h1 = (heap_grow ops s h).1

  -- A request of the last three sizes below 2 ^ 32 rounds to no bytes at all: where the list has a
  -- free block of whatever size, the request is served, with the smallest free block.
  pub kmalloc_wrap :
      (walk size : ℕ) (h : Heap V) (bs : Spans) (b : Span)
      → IsHeap h bs
      → 2 ^ 32 - 3 ≤ size
      → size < 2 ^ 32
      → length bs < walk
      → Among b bs
      → b.is_free ≡ true
      → (out : ℕ × Heap V) × (kmalloc ops walk 1 size h ≡ some out) × Served 0 bs out
  kmalloc_wrap walk size h bs b i lo hi f a free =
      let none_left : round_up size ≡ 0 = round_up_wrap size lo hi in
      elim (Option-cases (pick (round_up size) none bs)) [
        | inl e ↦ absurd (omega (arith, no_fit_of_pick (round_up size) bs e b a free, none_left))
        | inr (c, e) ↦
            subst
              (λ r. (out : ℕ × Heap V) × (kmalloc ops walk 1 size h ≡ some out) × Served r bs out)
              none_left (hit ops walk 0 size h bs {c = c} i (omega arith) f e)
      ]
