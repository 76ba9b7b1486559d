-- ===== src/Kheap/Chain.antt =====
-- The block list of src/kernel/kheap.cpp as a list of blocks in address order.
use trieternal_x_os.Base.{
  ℕ, ◌+◌, ◌≤◌, ◌<◌, ◌≡◌, ◌≢◌, ◌⊎◌, inl, inr, refl, Bool, List, [], ◌∷◌, arith,
}
use trieternal_x_os.Kheap.{Block, null}

-- A block as the list shows it: header address, payload size, free or not.
pub record Span : Type 0 where
  pub addr : ℕ
  pub size : ℕ
  pub is_free : Bool

abbrev pub Spans : Type 0
Spans = List Span

-- The end of the payload.
abbrev pub end_of : Span → ℕ
end_of b = b.addr + 16 + b.size

abbrev pub Mem : Type 0
Mem = ℕ → Block

-- From `p` the links of the headers lead through the blocks `bs`, forwards and backwards.
abbrev pub Chain : Mem → ℕ → ℕ → Spans → Type 0
Chain mem prev p [] = p ≡ null
Chain mem prev p (b ∷ bs) =
    (p ≡ b.addr)
    × ((mem b.addr).size ≡ b.size)
    × ((mem b.addr).is_free ≡ b.is_free)
    × ((mem b.addr).prev ≡ prev)
    × Chain mem b.addr (mem b.addr).next bs

-- The blocks lie between `lo` and `hi` in address order and do not overlap.
abbrev pub Ordered : ℕ → ℕ → Spans → Type 0
Ordered lo hi [] = lo ≤ hi
Ordered lo hi (b ∷ bs) = (lo ≤ b.addr) × Ordered (end_of b) hi bs

pub Ordered-le : (lo hi : ℕ) (bs : Spans) → Ordered lo hi bs → lo ≤ hi
Ordered-le lo hi [] o = o
Ordered-le lo hi (b ∷ bs) o = omega (arith, Ordered-le (end_of b) hi bs o.1)

-- The chain depends on the headers from its lower bound on only.
pub Chain-frame :
    (mem mem' : Mem) (prev p lo hi : ℕ) (bs : Spans)
    → ((a : ℕ) → lo ≤ a → mem' a ≡ mem a)
    → Ordered lo hi bs
    → Chain mem prev p bs
    → Chain mem' prev p bs
Chain-frame mem mem' prev p lo hi [] same o c = c
Chain-frame mem mem' prev p lo hi (b ∷ bs) same o c =
    let here : mem' b.addr ≡ mem b.addr = same b.addr o.0 in
    (
      c.0,
      rw here c.1,
      rw here c.2,
      rw here c.3,
      rw here (
          Chain-frame mem mem' b.addr (mem b.addr).next (end_of b) hi bs
            (λ a l. same a (omega arith)) o.1 c.4),
    )

-- Writing the back link of its first block moves a chain behind another block.
pub Chain-reprev :
    (mem mem' : Mem) (prev prev' p lo hi : ℕ) (bs : Spans)
    → ((a : ℕ) → lo ≤ a → a ≢ p → mem' a ≡ mem a)
    → (p ≢ null → mem' p ≡ record (mem p) { prev = prev' })
    → 0 < lo
    → Ordered lo hi bs
    → Chain mem prev p bs
    → Chain mem' prev' p bs
Chain-reprev mem mem' prev prev' p lo hi [] same first pos o c = c
Chain-reprev mem mem' prev prev' p lo hi (b ∷ bs) same first pos o c =
    let here : mem' b.addr ≡ record (mem b.addr) { prev = prev' } =
      rw c.0 at (first (omega (arith, c.0, o.0))) in
    (
      c.0,
      rw here c.1,
      rw here c.2,
      rw here refl,
      rw here (
          Chain-frame mem mem' b.addr (mem b.addr).next (end_of b) hi bs
            (λ a l. same a (omega arith) (omega (arith, c.0))) o.1 c.4),
    )

-- The first link of a chain is null or the address of a block behind `lo`.
pub Chain-link :
    (mem : Mem) (prev p lo hi : ℕ) (bs : Spans)
    → Ordered lo hi bs
    → Chain mem prev p bs
    → (p ≡ null) ⊎ (lo ≤ p)
Chain-link mem prev p lo hi [] o c = inl c
Chain-link mem prev p lo hi (b ∷ bs) o c = inr (omega (arith, c.0))
