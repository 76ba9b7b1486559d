-- ===== src/Kheap/Extend.antt =====
-- The block that `kmalloc` of src/kernel/kheap.cpp makes of new pages, at the end of the list.
use native.Mathlib.Nat.{le_refl}
use trieternal_x_os.Base.{
  ℕ, zero, suc, ◌+◌, ◌-◌, ◌%◌, ◌≤◌, ◌<◌, ◌≡◌, ◌≢◌, refl, true, some, [], ◌∷◌, ◌++◌, arith, ne→==,
  update, length,
}
use trieternal_x_os.Base.Words.{sub32}
use trieternal_x_os.Kheap.{Heap, null, heap_start, heap_max, last_block, add_block}
use trieternal_x_os.Kheap.Chain.{Span, Spans, end_of, Mem, Chain, Ordered, Ordered-le}
use trieternal_x_os.Kheap.Grow.{IsHeap}

abbrev pub last_of : Span → Spans → Span
last_of b [] = b
last_of b (c ∷ bs) = last_of c bs

-- The walk of `kmalloc` to the end of the list.
pub last_block_lem :
    (fuel : ℕ) (mem : Mem) (prev p lo hi : ℕ) (b : Span) (bs : Spans)
    → 0 < lo
    → Ordered lo hi (b ∷ bs)
    → Chain mem prev p (b ∷ bs)
    → length bs < fuel
    → last_block fuel mem p ≡ some (last_of b bs).addr
unfolding last_block
last_block_lem zero mem prev p lo hi b bs pos o c f = absurd (omega arith)
last_block_lem (suc fuel) mem prev p lo hi b [] pos o c f = rw c.0 (rw (c.4, last_block) refl)
last_block_lem (suc fuel) mem prev p lo hi b (d ∷ bs) pos o c f = rw c.0 (
    rw (ne→== (mem b.addr).next null (omega (arith, c.4.0, o.1.0))) (
      last_block_lem fuel mem b.addr (mem b.addr).next (end_of b) hi d bs (omega arith) o.1 c.4
        (omega arith)))

pub last-le :
    (b : Span) (bs : Spans) (lo hi : ℕ)
    → Ordered lo hi (b ∷ bs)
    → (lo ≤ (last_of b bs).addr) × (end_of (last_of b bs) ≤ hi)
last-le b [] lo hi o = (o.0, o.1)
last-le b (d ∷ bs) lo hi o = let r = last-le d bs (end_of b) hi o.1 in (omega (arith, o.0), r.1)

-- Linking a new last block behind a chain.
pub Chain-snoc :
    (mem mem' : Mem) (prev p lo hi : ℕ) (b : Span) (bs : Spans) (new : Span)
    → 0 < lo
    → hi ≤ new.addr
    → ((x : ℕ) → x < hi → x ≢ (last_of b bs).addr → mem' x ≡ mem x)
    → mem' (last_of b bs).addr ≡ record (mem (last_of b bs).addr) { next = new.addr }
    → mem' new.addr
      ≡ record { size = new.size; is_free = new.is_free; next = null; prev = (last_of b bs).addr }
    → Ordered lo hi (b ∷ bs)
    → Chain mem prev p (b ∷ bs)
    → Chain mem' prev p (b ∷ bs ++ new ∷ [])
Chain-snoc mem mem' prev p lo hi b [] new pos le same l n o c =
    (c.0, rw l c.1, rw l c.2, rw l c.3, (rw l refl, rw n refl, rw n refl, rw n refl, rw n refl))
Chain-snoc mem mem' prev p lo hi b (d ∷ bs) new pos le same l n o c =
    let here : mem' b.addr ≡ mem b.addr =
      same b.addr (omega (arith, Ordered-le (end_of b) hi (d ∷ bs) o.1))
        (omega (arith, last-le d bs (end_of b) hi o.1)) in
    (
      c.0,
      rw here c.1,
      rw here c.2,
      rw here c.3,
      rw here (
          Chain-snoc mem mem' b.addr (mem b.addr).next (end_of b) hi d bs new (omega arith) le same
            l n o.1 c.4),
    )

Chain-below :
    (mem mem' : Mem) (prev p lo hi : ℕ) (bs : Spans)
    → ((x : ℕ) → x < hi → mem' x ≡ mem x)
    → Ordered lo hi bs
    → Chain mem prev p bs
    → Chain mem' prev p bs
Chain-below mem mem' prev p lo hi [] same o c = c
Chain-below mem mem' prev p lo hi (b ∷ bs) same o c =
    let here : mem' b.addr ≡ mem b.addr =
      same b.addr (omega (arith, Ordered-le (end_of b) hi bs o.1)) in
    (
      c.0,
      rw here c.1,
      rw here c.2,
      rw here c.3,
      rw here (Chain-below mem mem' b.addr (mem b.addr).next (end_of b) hi bs same o.1 c.4),
    )

Ordered-snoc :
    (lo hi hi' : ℕ) (bs : Spans) (new : Span)
    → Ordered lo hi bs
    → hi ≤ new.addr
    → end_of new ≤ hi'
    → Ordered lo hi' (bs ++ new ∷ [])
Ordered-snoc lo hi hi' [] new o le e = (omega arith, e)
Ordered-snoc lo hi hi' (b ∷ bs) new o le e = (o.0, Ordered-snoc (end_of b) hi hi' bs new o.1 le e)

-- The block made of the pages between two ends of the heap.
abbrev pub fresh_span : ℕ → ℕ → Span
fresh_span old now = record { addr = old; size = now - old - 16; is_free = true }

module _ {V : Type 0} (walk : ℕ) (h1 : Heap V) (old : ℕ) where
  abbrev fresh_mem : Mem
  fresh_mem = update h1.mem old (record {
    size = sub32 (sub32 h1.heap_current_end old) 16;
    is_free = true;
    next = null;
    prev = null;
  })

  abbrev linked_mem : ℕ → Mem
  linked_mem l =
      let mem2 = update fresh_mem l (record (fresh_mem l) { next = old }) in
      update mem2 old (record (mem2 old) { prev = l })

  module _ (lo : heap_start ≤ old) (room : old + 16 ≤ h1.heap_current_end)
      (top : h1.heap_current_end ≤ heap_max) (al : h1.heap_current_end % 4096 ≡ 0) where
    linked-old :
        (l : ℕ)
        → l < old
        → linked_mem l old
          ≡ record { size = h1.heap_current_end - old - 16; is_free = true; next = null; prev = l }
    linked-old l lt = ground arith

    linked-last : (l : ℕ) → l < old → linked_mem l l ≡ record (h1.mem l) { next = old }
    linked-last l lt = ground arith

    linked-other : (l x : ℕ) → x < old → x ≢ l → linked_mem l x ≡ h1.mem x
    linked-other l x lt ne = ground arith

    add_first :
        h1.heap_start_block ≡ null
        → IsHeap
            (record h1 { mem = fresh_mem; heap_start_block = old })
            (fresh_span old h1.heap_current_end ∷ [])
    add_first c = record {
      chain = (refl, ground arith, ground arith, ground arith, ground arith);
      ordered = (lo, omega arith);
      top = top;
      aligned = al;
    }

    add_last :
        (b : Span) (bs : Spans)
        → Chain h1.mem null h1.heap_start_block (b ∷ bs)
        → Ordered heap_start old (b ∷ bs)
        → IsHeap
            (record h1 { mem = linked_mem (last_of b bs).addr })
            (b ∷ bs ++ fresh_span old h1.heap_current_end ∷ [])
    add_last b bs c o =
        let l = last-le b bs heap_start old o in
        let lt : (last_of b bs).addr < old = omega (arith, l.1) in
        record {
          chain =
              Chain-snoc h1.mem (linked_mem (last_of b bs).addr) null h1.heap_start_block heap_start
                old b bs (fresh_span old h1.heap_current_end) (omega arith) (le_refl old)
                (linked-other (last_of b bs).addr) (linked-last (last_of b bs).addr lt)
                (linked-old (last_of b bs).addr lt) o c;
          ordered =
              Ordered-snoc heap_start old h1.heap_current_end (b ∷ bs)
                (fresh_span old h1.heap_current_end) o (le_refl old) (omega arith);
          top = top;
          aligned = al;
        }

    -- The new pages become a free block at the end of the list.
    pub add_block_lem :
        (bs : Spans)
        → Chain h1.mem null h1.heap_start_block bs
        → Ordered heap_start old bs
        → length bs < walk
        → (h2 : Heap V) × (add_block walk old h1 ≡ some h2)
          × IsHeap h2 (bs ++ fresh_span old h1.heap_current_end ∷ [])
    unfolding add_block
    add_block_lem [] c o f =
        (record h1 { mem = fresh_mem; heap_start_block = old }, rw (c, add_block) refl, add_first c)
    add_block_lem (b ∷ bs) c o f =
        let same =
          Chain-below h1.mem fresh_mem null h1.heap_start_block heap_start old (b ∷ bs)
            (λ x lt. ground arith) o c in
        let walked =
          last_block_lem walk fresh_mem null h1.heap_start_block heap_start old b bs (omega arith) o
            same (omega arith) in
        (
          record h1 { mem = linked_mem (last_of b bs).addr },
          rw (ne→== h1.heap_start_block null (omega (arith, c.0, o.0)), add_block)
              (rw (walked, add_block) refl),
          add_last b bs c o,
        )
