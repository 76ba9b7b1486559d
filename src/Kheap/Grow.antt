-- ===== src/Kheap/Grow.antt =====
-- `heap_grow`, src/kernel/kheap.cpp.
use trieternal_x_os.Base.{
  ℕ, zero, suc, ◌+◌, ◌*◌, ◌/◌, ◌%◌, ◌≤◌, ◌≡◌, inl, inr, refl, ◌∙◌, Bool, true, arith, ◌==◌, leb,
  Bool-cases,
}
use trieternal_x_os.Base.Words.{add32}
use trieternal_x_os.Kheap.{
  Pages, Heap, null, heap_start, heap_max, page_size, grow_pages, heap_grow,
}
use trieternal_x_os.Kheap.Chain.{Spans, Chain, Ordered}

-- The headers of `h` are the blocks `bs`, between the start of the heap and its current end.
pub record IsHeap {V : Type 0} (h : Heap V) (bs : Spans) : Type 0 where
  pub chain : Chain h.mem null h.heap_start_block bs
  pub ordered : Ordered heap_start h.heap_current_end bs
  pub top : h.heap_current_end ≤ heap_max
  pub aligned : h.heap_current_end % 4096 ≡ 0

abbrev pub pages_for : ℕ → ℕ
pages_for size = add32 (add32 size 16) 4095 / 4096

module _ {V : Type 0} (ops : Pages V) where
  -- What growing by `n` pages does to all but the page tables.
  pub record Grown (n : ℕ) (h : Heap V) (out : Bool × Heap V) : Type 0 where
    pub mem : out.1.mem ≡ h.mem
    pub start : out.1.heap_start_block ≡ h.heap_start_block
    pub later : h.heap_current_end ≤ out.1.heap_current_end
    pub top : out.1.heap_current_end ≤ heap_max
    pub aligned : out.1.heap_current_end % 4096 ≡ 0
    pub all : out.0 ≡ true → out.1.heap_current_end ≡ h.heap_current_end + 4096 * n

  -- One page more at the end of the heap.
  abbrev mapped : Heap V → Heap V
  mapped h = record h {
    pages =
        ops.map_page h.heap_current_end (ops.alloc_frame h.pages).0 3 (ops.alloc_frame h.pages).1;
    heap_current_end = add32 h.heap_current_end page_size;
  }

  Grown-step :
      {n : ℕ} {h h' : Heap V} {out : Bool × Heap V}
      → h'.mem ≡ h.mem
      → h'.heap_start_block ≡ h.heap_start_block
      → h'.heap_current_end ≡ h.heap_current_end + 4096
      → Grown n h' out
      → Grown (suc n) h out
  Grown-step m s e g = record {
    mem = g.mem ∙ m;
    start = g.start ∙ s;
    later = omega (arith, g.later);
    top = g.top;
    aligned = g.aligned;
    all = λ done. omega (arith, g.all done);
  }

  grow_pages-Grown :
      (n : ℕ) (h : Heap V)
      → h.heap_current_end ≤ heap_max
      → h.heap_current_end % 4096 ≡ 0
      → Grown n h (grow_pages ops n h)
  unfolding grow_pages
  grow_pages-Grown zero h t a = record {
    mem = refl;
    start = refl;
    later = omega arith;
    top = t;
    aligned = a;
    all = λ e. omega arith;
  }
  grow_pages-Grown (suc n) h t a = elim (Bool-cases (leb heap_max h.heap_current_end)) [
    | inl full ↦
        rw (full, grow_pages)
          (record {
            mem = refl;
            start = refl;
            later = omega arith;
            top = t;
            aligned = a;
            all = λ e. cc;
          })
    | inr room ↦ elim (Bool-cases ((ops.alloc_frame h.pages).0 == null)) [
      | inl out ↦
          rw (room, grow_pages)
            (rw (out, grow_pages)
              (record {
                mem = refl;
                start = refl;
                later = omega arith;
                top = t;
                aligned = a;
                all = λ e. cc;
              }))
      | inr got ↦
          rw (room, grow_pages)
            (rw (got, grow_pages)
              (Grown-step refl refl (omega arith)
                (grow_pages-Grown n (mapped h) (ground arith) (omega arith))))
    ]
  ]

  pub heap_grow-Grown :
      (size : ℕ) (h : Heap V)
      → h.heap_current_end ≤ heap_max
      → h.heap_current_end % 4096 ≡ 0
      → Grown (pages_for size) h (heap_grow ops size h)
  unfolding heap_grow
  heap_grow-Grown size h t a = grow_pages-Grown (pages_for size) h t a
