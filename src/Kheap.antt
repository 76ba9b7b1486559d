-- ===== src/Kheap.antt =====
-- The kernel heap, src/kernel/kheap.cpp: a doubly linked list of block headers, best fit, split and
-- merge. `mem a` is the header at address `a`; the null pointer is 0. The callers' data between the
-- headers is not part of the state: a caller that keeps to its block does not touch a header.
pub mod Chain
pub mod Scan
pub mod Carve
pub mod Grow
pub mod Extend
pub mod Alloc
pub mod Malloc
pub mod Merge
pub mod Free
pub mod Release
pub mod Kfree
pub mod RoundTrip
pub mod Apart
mod Examples
use trieternal_x_os.Base.{
  ℕ, zero, suc, ◌+◌, ◌-◌, ◌*◌, ◌/◌, ◌%◌, ◌^◌, Bool, true, false, not, ◌&&◌, ◌||◌, Option, none,
  some, ltb, leb, ◌==◌, if◌then◌else◌, update,
}
use trieternal_x_os.Base.Words.{add32, sub32}

-- `HeapBlock`
pub record Block : Type 0 where
  pub size : ℕ
  pub is_free : Bool
  pub next : ℕ
  pub prev : ℕ

-- What the heap asks of the frame allocator and of the page tables, over their state `V`:
-- `pmm_alloc_frame` and `vmm_map_page`.
pub record Pages (V : Type 0) : Type 0 where
  pub alloc_frame : V → ℕ × V
  pub map_page : ℕ → ℕ → ℕ → V → V

pub record Heap (V : Type 0) : Type 0 where
  pub mem : ℕ → Block
  pub heap_start_block : ℕ
  pub heap_current_end : ℕ
  pub pages : V

abbrev pub heap_start : ℕ
heap_start = 0xC0000000

abbrev pub heap_max : ℕ
heap_max = 0xD0000000

-- `sizeof(HeapBlock)`
abbrev pub header_size : ℕ
header_size = 16

abbrev pub page_size : ℕ
page_size = 4096

abbrev pub null : ℕ
null = 0

-- `size = (size + 3) & ~3;`
unfoldable pub round_up : ℕ → ℕ
round_up size = add32 size 3 / 4 * 4

-- The loop of `kmalloc` over the blocks; `none` means that the fuel ran out.
unfoldable pub scan : ℕ → (ℕ → Block) → ℕ → ℕ → ℕ → Option ℕ
scan zero mem size current best_fit = none
scan (suc fuel) mem size current best_fit =
    let block = mem current in
    let fits =
      (block.is_free && leb size block.size)
      && (best_fit == null || ltb block.size (mem best_fit).size) in
    let rest = scan fuel mem size block.next (if fits then current else best_fit) in
    if current == null then some best_fit else rest

-- Cuts the rest of a large block off as a free block behind it.
unfoldable pub split : (ℕ → Block) → ℕ → ℕ → ℕ → Block
split mem best_fit size =
    let block = mem best_fit in
    let new_block = add32 (add32 best_fit header_size) size in
    let mem1 = update mem new_block (record {
      size = sub32 (sub32 block.size size) header_size;
      is_free = true;
      next = block.next;
      prev = best_fit;
    }) in
    let mem2 =
      if block.next == null
      then mem1
      else update mem1 block.next (record (mem1 block.next) { prev = new_block }) in
    update mem2 best_fit (record (mem2 best_fit) { next = new_block; size = size })

-- Takes the block `best_fit` for a request of `size` bytes.
unfoldable pub take_block : (ℕ → Block) → ℕ → ℕ → ℕ → Block
unfolding split
take_block mem best_fit size =
    let mem1 =
      if leb (add32 (add32 size header_size) 4) (mem best_fit).size
      then split mem best_fit size
      else mem in
    update mem1 best_fit (record (mem1 best_fit) { is_free = false })

-- `while (last->next) last = last->next;`
unfoldable pub last_block : ℕ → (ℕ → Block) → ℕ → Option ℕ
last_block zero mem last = none
last_block (suc fuel) mem last =
    let rest = last_block fuel mem (mem last).next in
    if (mem last).next == null then some last else rest

module _ {V : Type 0} where
  unfoldable pub init : Heap V → Heap V
  init h = record h { heap_start_block = null; heap_current_end = heap_start }

  -- Puts the pages from `old_end` on at the end of the list, as one free block.
  unfoldable pub add_block : ℕ → ℕ → Heap V → Option (Heap V)
  unfolding last_block
  add_block walk old_end h =
      let mem1 = update h.mem old_end (record {
        size = sub32 (sub32 h.heap_current_end old_end) header_size;
        is_free = true;
        next = null;
        prev = null;
      }) in
      if h.heap_start_block == null
      then some (record h { mem = mem1; heap_start_block = old_end })
      else elim (last_block walk mem1 h.heap_start_block) [
        | none ↦ none
        | some last ↦
            let mem2 = update mem1 last (record (mem1 last) { next = old_end }) in
            some (record h { mem = update mem2 old_end (record (mem2 old_end) { prev = last }) })
      ]

  module _ (ops : Pages V) where
    -- The loop of `heap_grow`, by the pages left.
    unfoldable pub grow_pages : ℕ → Heap V → Bool × Heap V
    grow_pages zero h = (true, h)
    grow_pages (suc n) h = elim (leb heap_max h.heap_current_end) [
      | true ↦ (false, h)
      | false ↦
          let (phys, v) = ops.alloc_frame h.pages in
          elim (phys == null) [
            | true ↦ (false, record h { pages = v })
            | false ↦ grow_pages n (record h {
              pages = ops.map_page h.heap_current_end phys 3 v;
              heap_current_end = add32 h.heap_current_end page_size;
            })
          ]
    ]

    unfoldable pub heap_grow : ℕ → Heap V → Bool × Heap V
    unfolding grow_pages
    heap_grow size h = grow_pages (add32 (add32 size header_size) (page_size - 1) / page_size) h

    -- `kmalloc`: `walk` bounds the steps of a walk over the list, `depth` the calls that grow the
    -- heap; `none` means that one of them ran out.
    unfoldable pub kmalloc : ℕ → ℕ → ℕ → Heap V → Option (ℕ × Heap V)
    kmalloc walk zero size h = none
    kmalloc walk (suc depth) size h = elim (size == 0) [
      | true ↦ some (null, h)
      | false ↦ elim (scan walk h.mem (round_up size) h.heap_start_block null) [
        | none ↦ none
        | some best_fit ↦ elim (best_fit == null) [
          | false ↦ some (
            add32 best_fit header_size,
            record h { mem = take_block h.mem best_fit (round_up size) },
          )
          | true ↦
              let (grown, h1) = heap_grow (round_up size) h in
              elim grown [
                | false ↦ some (null, h1)
                | true ↦ elim (add_block walk h.heap_current_end h1) [
                  | none ↦ none
                  | some h2 ↦ kmalloc walk depth (round_up size) h2
                ]
              ]
        ]
      ]
    ]

-- `block` swallows the free block behind it.
unfoldable pub merge_next : (ℕ → Block) → ℕ → ℕ → Block
merge_next mem block =
    let b = mem block in
    let n = mem b.next in
    let mem1 =
      update mem block
        (record b { size = add32 b.size (add32 header_size n.size); next = n.next }) in
    if n.next == null then mem1 else update mem1 n.next (record (mem1 n.next) { prev = block })

-- The free block in front swallows `block`.
unfoldable pub merge_prev : (ℕ → Block) → ℕ → ℕ → Block
merge_prev mem block =
    let b = mem block in
    let p = mem b.prev in
    let mem1 =
      update mem b.prev
        (record p { size = add32 p.size (add32 header_size b.size); next = b.next }) in
    if b.next == null then mem1 else update mem1 b.next (record (mem1 b.next) { prev = b.prev })

-- Marks `block` free; it then swallows a free block behind it.
unfoldable pub free_forward : (ℕ → Block) → ℕ → ℕ → Block
free_forward mem block =
    let mem1 = update mem block (record (mem block) { is_free = true }) in
    let next = (mem1 block).next in
    if not (next == null) && (mem1 next).is_free then merge_next mem1 block else mem1

-- A free block in front swallows `block`.
unfoldable pub free_backward : (ℕ → Block) → ℕ → ℕ → Block
free_backward mem block =
    let prev = (mem block).prev in
    if not (prev == null) && (mem prev).is_free then merge_prev mem block else mem

unfoldable pub kfree : {V : Type 0} → Heap V → ℕ → Heap V
kfree h ptr =
    if ptr == null
    then h
    else let block = sub32 ptr header_size in
      record h { mem = free_backward (free_forward h.mem block) block }
