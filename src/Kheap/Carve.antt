-- ===== src/Kheap/Carve.antt =====
-- Taking a block in src/kernel/kheap.cpp: in place, or with the rest cut off as a free block.
use mathlib.Core.Path.{subst}
use trieternal_x_os.Base.{
  ℕ, ◌+◌, ◌-◌, ◌≤◌, ◌<◌, ◌≡◌, ◌≢◌, ◌⊎◌, inl, inr, refl, sym, ◌∙◌, ap, true, false, [], ◌∷◌, arith,
  ◌==◌, leb, if◌then◌else◌, Bool-cases, eq→==, ne→==,
}
use trieternal_x_os.Kheap.{Block, null, heap_start, heap_max, take_block}
use native.Mathlib.Nat.{le_refl}
use trieternal_x_os.Kheap.Scan.{Among}
use trieternal_x_os.Kheap.Chain.{
  Span, Spans, end_of, Mem, Chain, Ordered, Ordered-le, Chain-frame, Chain-reprev, Chain-link,
}

-- The header of a block with room for `s` bytes, and no wrap-around behind it.
record HasRoom (mem : Mem) (a s : ℕ) : Type 0 where
  at : heap_start ≤ a
  room : s ≤ (mem a).size
  bound : a + 16 + (mem a).size ≤ heap_max
  link : ((mem a).next ≡ null) ⊎ (a + 16 + (mem a).size ≤ (mem a).next)

module _ {mem : Mem} {a s : ℕ} (h : HasRoom mem a s) where
  abbrev behind : ℕ
  behind = a + 16 + s

  module _ (large : s + 20 ≤ (mem a).size) where
    take-new :
        take_block mem a s behind
        ≡ record { size = (mem a).size - s - 16; is_free = true; next = (mem a).next; prev = a }
    unfolding take_block
    take-new = ground arith

    take-here :
        take_block mem a s a
        ≡ record { size = s; is_free = false; next = behind; prev = (mem a).prev }
    unfolding take_block
    take-here = ground arith

    take-next :
        (mem a).next ≢ null
        → take_block mem a s (mem a).next ≡ record (mem (mem a).next) { prev = behind }
    unfolding take_block
    take-next ne = ground arith

    take-other : (x : ℕ) → x ≢ a → x ≢ behind → x ≢ (mem a).next → take_block mem a s x ≡ mem x
    unfolding take_block
    take-other x p q r = ground arith

  module _ (small : (mem a).size < s + 20) where
    keep-here : take_block mem a s a ≡ record (mem a) { is_free = false }
    unfolding take_block
    keep-here = ground arith

    keep-other : (x : ℕ) → x ≢ a → take_block mem a s x ≡ mem x
    unfolding take_block
    keep-other x p = ground arith

  -- Headers in front of the block stay.
  take-below : (x : ℕ) → x ≢ null → x < a → take_block mem a s x ≡ mem x
  take-below x pos lt = elim (Bool-cases (leb (s + 20) (mem a).size)) [
    | inl t ↦ take-other (ground arith) x (omega arith) (omega arith) (omega (arith, h.link))
    | inr f ↦ keep-other (ground arith) x (omega arith)
  ]

-- Taking the block at `a` for `s` bytes, in the list.
unfoldable pub carve : ℕ → ℕ → Spans → Spans
carve a s [] = []
carve a s (b ∷ bs) =
    let rest = carve a s bs in
    if b.addr == a
    then (if leb (s + 20) b.size
        then record { addr = a; size = s; is_free = false }
          ∷ record { addr = a + 16 + s; size = b.size - s - 16; is_free = true }
          ∷ bs
        else record { addr = a; size = b.size; is_free = false } ∷ bs)
    else b ∷ rest

pub Among-le :
    (c : Span) (lo hi : ℕ) (bs : Spans)
    → Ordered lo hi bs
    → Among c bs
    → (lo ≤ c.addr) × (end_of c ≤ hi)
Among-le c lo hi [] o a = absurd a
Among-le c lo hi (b ∷ bs) o (inl e) = rw e (o.0, Ordered-le (end_of b) hi bs o.1)
Among-le c lo hi (b ∷ bs) o (inr a) =
    let r = Among-le c (end_of b) hi bs o.1 a in (omega (arith, o.0), r.1)

-- A listed block that is large enough has room.
Among-HasRoom :
    (mem : Mem) (s prev p lo hi : ℕ) (c : Span) (bs : Spans)
    → heap_start ≤ lo
    → hi ≤ heap_max
    → Among c bs
    → s ≤ c.size
    → Ordered lo hi bs
    → Chain mem prev p bs
    → HasRoom mem c.addr s
Among-HasRoom mem s prev p lo hi c [] pos top a room o ch = absurd a
Among-HasRoom mem s prev p lo hi c (b ∷ bs) pos top (inl e) room o ch =
    subst (λ (d : Span). s ≤ d.size → HasRoom mem d.addr s) (sym e)
      (λ r. record {
        at = omega (arith, o.0);
        room = omega (arith, ch.1);
        bound = omega (arith, ch.1, Ordered-le (end_of b) hi bs o.1);
        link =
            subst (λ z. ((mem b.addr).next ≡ null) ⊎ (b.addr + 16 + z ≤ (mem b.addr).next))
              (sym ch.1) (Chain-link mem b.addr (mem b.addr).next (end_of b) hi bs o.1 ch.4);
      })
      room
Among-HasRoom mem s prev p lo hi c (b ∷ bs) pos top (inr a) room o ch =
    Among-HasRoom mem s b.addr (mem b.addr).next (end_of b) hi c bs (omega (arith, o.0)) top a room
      o.1 ch.4

take-Chain_here :
    (mem : Mem) (s prev p hi : ℕ) (b : Span) (bs : Spans)
    → heap_start ≤ b.addr
    → hi ≤ heap_max
    → s ≤ b.size
    → Ordered (end_of b) hi bs
    → Chain mem prev p (b ∷ bs)
    → Chain (take_block mem b.addr s) prev p (carve b.addr s (b ∷ bs))
unfolding carve
take-Chain_here mem s prev p hi b bs lo top room o c = elim (Bool-cases (leb (s + 20) b.size)) [
  | inl t ↦ rw (eq→== b.addr b.addr refl, t) (large_chain (ground arith))
  | inr f ↦ rw (eq→== b.addr b.addr refl, f) (small_chain (ground arith))
]
  where
    fits : HasRoom mem b.addr s
    fits =
        Among-HasRoom mem s prev p b.addr hi b (b ∷ bs) lo top (inl refl) room (le_refl b.addr, o) c

    small_chain :
        b.size < s + 20
        → Chain
            (take_block mem b.addr s)
            prev
            p
            (record { addr = b.addr; size = b.size; is_free = false } ∷ bs)
    small_chain z =
        let e = keep-here fits (omega (arith, c.1)) in
        (
          c.0,
          ap (λ (r : Block). r.size) e ∙ c.1,
          ap (λ (r : Block). r.is_free) e,
          ap (λ (r : Block). r.prev) e ∙ c.3,
          rw e (
              Chain-frame mem (take_block mem b.addr s) b.addr (mem b.addr).next (end_of b) hi bs
                (λ x l. keep-other fits (omega (arith, c.1)) x (omega arith)) o c.4),
        )

    large_chain :
        s + 20 ≤ b.size
        → Chain (take_block mem b.addr s) prev p (
            record { addr = b.addr; size = s; is_free = false }
            ∷ record { addr = b.addr + 16 + s; size = b.size - s - 16; is_free = true }
            ∷ bs)
    large_chain z =
        let l : s + 20 ≤ (mem b.addr).size = omega (arith, c.1) in
        let e = take-here fits l in
        let n = take-new fits l in
        (
          c.0,
          ap (λ (r : Block). r.size) e,
          ap (λ (r : Block). r.is_free) e,
          ap (λ (r : Block). r.prev) e ∙ c.3,
          (
            ap (λ (r : Block). r.next) e,
            ap (λ (r : Block). r.size) n ∙ omega (arith, c.1),
            ap (λ (r : Block). r.is_free) n,
            ap (λ (r : Block). r.prev) n,
            rw n (
                Chain-reprev mem (take_block mem b.addr s) b.addr (b.addr + 16 + s)
                  (mem b.addr).next (end_of b) hi bs
                  (λ x le ne. take-other fits l x (omega arith) (omega arith) ne) (take-next fits l)
                  (omega arith) o c.4),
          ),
        )

-- Taking a block keeps the chain of headers, and carves the block out of the list.
pub take-Chain :
    (mem : Mem) (s prev p lo hi : ℕ) (c : Span) (bs : Spans)
    → heap_start ≤ lo
    → hi ≤ heap_max
    → Among c bs
    → s ≤ c.size
    → Ordered lo hi bs
    → Chain mem prev p bs
    → Chain (take_block mem c.addr s) prev p (carve c.addr s bs)
unfolding carve
take-Chain mem s prev p lo hi c [] pos top a room o ch = absurd a
take-Chain mem s prev p lo hi c (b ∷ bs) pos top (inl same) room o ch =
    subst
      (λ (d : Span). s ≤ d.size → Chain (take_block mem d.addr s) prev p (carve d.addr s (b ∷ bs)))
      (sym same) (λ r. take-Chain_here mem s prev p hi b bs (omega (arith, o.0)) top r o.1 ch) room
take-Chain mem s prev p lo hi c (b ∷ bs) pos top (inr a) room o ch =
    let far = Among-le c (end_of b) hi bs o.1 a in
    let here : take_block mem c.addr s b.addr ≡ mem b.addr =
      take-below
        (Among-HasRoom mem s b.addr (mem b.addr).next (end_of b) hi c bs (omega (arith, o.0)) top a
          room o.1 ch.4)
        b.addr (omega (arith, o.0)) (omega arith) in
    rw (ne→== b.addr c.addr (omega arith)) (
      ch.0,
      rw here ch.1,
      rw here ch.2,
      rw here ch.3,
      rw here (
          take-Chain mem s b.addr (mem b.addr).next (end_of b) hi c bs (omega (arith, o.0)) top a
            room o.1 ch.4),
    )

-- What carving leaves lies in order within the same bounds.
pub carve-Ordered : (a s lo hi : ℕ) (bs : Spans) → Ordered lo hi bs → Ordered lo hi (carve a s bs)
unfolding carve
carve-Ordered a s lo hi [] o = o
carve-Ordered a s lo hi (b ∷ bs) o = ground (arith, carve-Ordered a s (end_of b) hi bs o.1)
