-- ===== src/Kheap/Examples.antt =====
-- The theorems about src/kernel/kheap.cpp at concrete heaps, and test runs.
use trieternal_x_os.Base.{
  ℕ, suc, ◌+◌, ◌*◌, ◌≤◌, ◌≡◌, inl, inr, refl, true, false, none, some, [], ◌∷◌, arith, ◌==◌,
  if◌then◌else◌,
}
use trieternal_x_os.Kheap.{
  Pages, Heap, heap_start, init, kmalloc, kfree, round_up, scan, heap_grow, add_block,
}
use trieternal_x_os.Kheap.Chain.{Spans}
use trieternal_x_os.Kheap.Grow.{IsHeap}
use trieternal_x_os.Kheap.Kfree.{Released, kfree_lem}
use trieternal_x_os.Kheap.Free.{release}
use trieternal_x_os.Kheap.RoundTrip.{IsMerged, kfree-kmalloc}
use trieternal_x_os.Kheap.Apart.{kfree-IsMerged}

-- Page frames from address 4096 on, up to the frame 100; the page tables are left out.
abbrev counter : Pages ℕ
counter = record {
  alloc_frame = λ n. if n == 100 then (0, n) else (4096 * n, suc n);
  map_page = λ virtual physical flags n. n;
}

abbrev blank : Heap ℕ
blank = record {
  mem = λ a. record { size = 0; is_free = false; next = 0; prev = 0 };
  heap_start_block = 7;
  heap_current_end = 7;
  pages = 1;
}

-- A used block of 32 bytes and the free rest of a page.
abbrev two_blocks : Heap ℕ
two_blocks = record {
  mem = λ a.
      if a == heap_start
      then record { size = 32; is_free = false; next = heap_start + 48; prev = 0 }
      else if a == heap_start + 48
      then record { size = 4032; is_free = true; next = 0; prev = heap_start }
      else record { size = 0; is_free = false; next = 0; prev = 0 };
  heap_start_block = heap_start;
  heap_current_end = heap_start + 4096;
  pages = 2;
}

abbrev two_spans : Spans
two_spans =
    record { addr = heap_start; size = 32; is_free = false }
    ∷ record { addr = heap_start + 48; size = 4032; is_free = true }
    ∷ []

two_blocks-IsHeap : IsHeap two_blocks two_spans
two_blocks-IsHeap = record {
  chain = (refl, refl, refl, refl, (refl, refl, refl, refl, refl));
  ordered = (omega arith, (omega arith, omega arith));
  top = omega arith;
  aligned = refl;
}

kfree_lem_example :
    Released []
      (record { addr = heap_start; size = 32; is_free = false })
      (record { addr = heap_start + 48; size = 4032; is_free = true } ∷ [])
      (kfree two_blocks (heap_start + 16))
kfree_lem_example =
    kfree_lem two_blocks [] (record { addr = heap_start; size = 32; is_free = false })
      (record { addr = heap_start + 48; size = 4032; is_free = true } ∷ []) two_blocks-IsHeap

kfree-IsMerged_example :
    IsHeap (kfree two_blocks (heap_start + 16)) (
      release []
        (record { addr = heap_start; size = 32; is_free = false })
        (record { addr = heap_start + 48; size = 4032; is_free = true } ∷ []))
    × IsMerged (
        release []
          (record { addr = heap_start; size = 32; is_free = false })
          (record { addr = heap_start + 48; size = 4032; is_free = true } ∷ []))
kfree-IsMerged_example =
    kfree-IsMerged two_blocks [] (record { addr = heap_start; size = 32; is_free = false })
      (record { addr = heap_start + 48; size = 4032; is_free = true } ∷ []) two_blocks-IsHeap
      (inl refl, (inr tt, tt))

hundred_fits : round_up 100 ≤ 4032
unfolding round_up
hundred_fits = omega arith

kfree-kmalloc_example :
    (out : ℕ × Heap ℕ) × (kmalloc counter 3 1 100 two_blocks ≡ some out)
    × IsHeap (kfree out.1 out.0) two_spans
kfree-kmalloc_example =
    kfree-kmalloc counter 3 100 two_blocks two_spans two_blocks-IsHeap (inl refl, (inr tt, tt))
      (omega arith) (omega arith)
      (
        record { addr = heap_start + 48; size = 4032; is_free = true },
        inr (inl refl),
        refl,
        hundred_fits,
      )

-- Where the first request of an empty heap is served.
abbrev first_address : ℕ → ℕ
first_address size = elim (kmalloc counter 4 2 size (init blank)) [ none ↦ 1 | some (p, h) ↦ p ]

first_address_lem : first_address 10 ≡ heap_start + 16
unfolding kmalloc init scan heap_grow round_up add_block
first_address_lem = refl
