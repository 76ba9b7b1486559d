-- ===== src/Kheap/Merge.antt =====
-- The merging of free neighbours in `kfree` of src/kernel/kheap.cpp.
use mathlib.Core.Path.{subst}
use trieternal_x_os.Base.{
  ℕ, ◌+◌, ◌≤◌, ◌<◌, ◌≡◌, ◌≢◌, ◌⊎◌, inl, inr, refl, sym, ◌∙◌, ap, true, false, ◌&&◌, [], ◌∷◌, arith,
  ◌==◌, if◌then◌else◌, Bool-cases, ne→==, update,
}
use trieternal_x_os.Base.Words.{add32}
use trieternal_x_os.Kheap.{Block, null, heap_max, merge_next, merge_prev, free_forward}
use trieternal_x_os.Kheap.Chain.{
  Span, Spans, end_of, Mem, Chain, Ordered, Ordered-le, Chain-frame, Chain-reprev, Chain-link,
}

-- The block `b` with a block of `n` bytes joined to it.
abbrev pub wider : Span → ℕ → Span
wider b n = record b { size = b.size + 16 + n }

-- A free block takes a free block behind it in.
unfoldable pub join : Span → Spans → Spans
join b [] = b ∷ []
join b (c ∷ cs) = if b.is_free && c.is_free then wider b c.size ∷ cs else b ∷ c ∷ cs

abbrev pub freed : Span → Span
freed b = record b { is_free = true }

module _ (mem : Mem) (a : ℕ) where
  abbrev second : ℕ
  second = (mem a).next

  abbrev third : ℕ
  third = (mem second).next

  merge-here :
      third ≢ a
      → merge_next mem a a
        ≡ record (mem a) { size = add32 (mem a).size (add32 16 (mem second).size); next = third }
  unfolding merge_next
  merge-here ne = ground arith

  merge-third : third ≢ a → third ≢ null → merge_next mem a third ≡ record (mem third) { prev = a }
  unfolding merge_next
  merge-third ne pos = ground arith

  pub merge-other : (x : ℕ) → x ≢ a → (third ≡ null) ⊎ (x ≢ third) → merge_next mem a x ≡ mem x
  unfolding merge_next
  merge-other x ne other = ground arith

-- The source writes the merge with the block in front once more; it is the same merge.
pub merge_prev-merge_next :
    (mem : Mem) (a x : ℕ)
    → (mem a).prev ≡ x
    → (mem x).next ≡ a
    → merge_prev mem a ≡ merge_next mem x
unfolding merge_prev merge_next
merge_prev-merge_next mem a x e f = rw (e, f) refl

pub merge_next-Chain :
    (mem : Mem) (prev p lo hi : ℕ) (b c : Span) (cs : Spans)
    → 0 < lo
    → hi ≤ heap_max
    → Ordered lo hi (b ∷ c ∷ cs)
    → Chain mem prev p (b ∷ c ∷ cs)
    → Chain (merge_next mem b.addr) prev p (wider b c.size ∷ cs)
merge_next-Chain mem prev p lo hi b c cs pos top o ch =
    let link = Chain-link mem c.addr (mem c.addr).next (end_of c) hi cs o.1.1 ch.4.4 in
    let third_is : third mem b.addr ≡ (mem c.addr).next = ap (λ z. (mem z).next) ch.4.0 in
    let far : third mem b.addr ≢ b.addr = omega (arith, link, third_is, o.1.0, o.0) in
    let e = merge-here mem b.addr far in
    let size_is : (mem (mem b.addr).next).size ≡ c.size = ap (λ z. (mem z).size) ch.4.0 ∙ ch.4.1 in
    let bound = Ordered-le (end_of c) hi cs o.1.1 in
    (
      ch.0,
      ap (λ (r : Block). r.size) e ∙ omega (arith, size_is, ch.1, bound, o.1.0),
      ap (λ (r : Block). r.is_free) e ∙ ch.2,
      ap (λ (r : Block). r.prev) e ∙ ch.3,
      rw e (
          rw third_is (
            Chain-reprev mem (merge_next mem b.addr) c.addr b.addr (mem c.addr).next (end_of c) hi
              cs (λ x le ne. merge-other mem b.addr x (omega (arith, o.1.0)) (inr (rw third_is ne)))
              (λ ne. rw third_is at (merge-third mem b.addr far (rw third_is ne))) (omega arith)
              o.1.1 ch.4.4)),
    )

abbrev mark : Mem → ℕ → Mem
mark mem a = update mem a (record (mem a) { is_free = true })

mark-Chain :
    (mem : Mem) (prev p lo hi : ℕ) (b : Span) (bs : Spans)
    → Ordered lo hi (b ∷ bs)
    → Chain mem prev p (b ∷ bs)
    → Chain (mark mem b.addr) prev p (freed b ∷ bs)
mark-Chain mem prev p lo hi b bs o ch =
    let e : mark mem b.addr b.addr ≡ record (mem b.addr) { is_free = true } = ground arith in
    (
      ch.0,
      ap (λ (r : Block). r.size) e ∙ ch.1,
      ap (λ (r : Block). r.is_free) e,
      ap (λ (r : Block). r.prev) e ∙ ch.3,
      rw e (
          Chain-frame mem (mark mem b.addr) b.addr (mem b.addr).next (end_of b) hi bs
            (λ x le. unmarked x (omega arith)) o.1 ch.4),
    )
  where
    unmarked : (x : ℕ) → x ≢ b.addr → mark mem b.addr x ≡ mem x
    unmarked x ne = ground arith

forward_takes :
    (mem : Mem) (a : ℕ)
    → (mark mem a a).next ≢ null
    → (mark mem a (mark mem a a).next).is_free ≡ true
    → free_forward mem a ≡ merge_next (mark mem a) a
unfolding free_forward
forward_takes mem a ne t = rw (ne→== (mark mem a a).next null ne) (rw t refl)

forward_leaves :
    (mem : Mem) (a : ℕ)
    → (mark mem a (mark mem a a).next).is_free ≡ false
    → free_forward mem a ≡ mark mem a
unfolding free_forward
forward_leaves mem a f = elim (Bool-cases ((mark mem a a).next == null)) [
  | inl z ↦ rw z refl
  | inr z ↦ rw z (rw f refl)
]

forward_ends : (mem : Mem) (a : ℕ) → (mark mem a a).next ≡ null → free_forward mem a ≡ mark mem a
unfolding free_forward
forward_ends mem a z = rw (z, free_forward) refl

module _ (mem : Mem) (prev p lo hi : ℕ) (b : Span) (pos : 0 < lo) where
  -- What `free_forward` does to the headers, and that it stays behind the block.
  pub record Forward (bs : Spans) : Type 0 where
    pub chain : Chain (free_forward mem b.addr) prev p (join (freed b) bs)
    pub below : (x : ℕ) → x < b.addr → free_forward mem b.addr x ≡ mem x

  unmarked : (x : ℕ) → x < b.addr → mark mem b.addr x ≡ mem x
  unmarked x lt = ground arith

  pub forward_lem :
      (bs : Spans) → hi ≤ heap_max → Ordered lo hi (b ∷ bs) → Chain mem prev p (b ∷ bs) → Forward bs
  unfolding join
  forward_lem [] top o ch =
      let m = mark-Chain mem prev p lo hi b [] o ch in
      let e = forward_ends mem b.addr m.4 in
      record { chain = rw e m; below = λ x lt. rw e (unmarked x lt) }
  forward_lem (c ∷ cs) top o ch =
      let m = mark-Chain mem prev p lo hi b (c ∷ cs) o ch in
      let free_is : (mark mem b.addr (mark mem b.addr b.addr).next).is_free ≡ c.is_free =
        ap (λ z. (mark mem b.addr z).is_free) m.4.0 ∙ m.4.2 in
      elim (Bool-cases c.is_free) [
        | inl t ↦
            let e = forward_takes mem b.addr (omega (arith, m.4.0, o.1.0)) (free_is ∙ t) in
            let link =
              Chain-link (mark mem b.addr) c.addr (mark mem b.addr c.addr).next (end_of c) hi cs
                o.1.1 m.4.4 in
            let third_is : third (mark mem b.addr) b.addr ≡ (mark mem b.addr c.addr).next =
              ap (λ z. (mark mem b.addr z).next) m.4.0 in
            record {
              chain =
                  rw (e, t)
                    (merge_next-Chain (mark mem b.addr) prev p lo hi (freed b) c cs pos top o m);
              below = λ x lt. rw e (
                  merge-other (mark mem b.addr) b.addr x (omega arith) (inside x lt link third_is)
                  ∙ unmarked x lt);
            }
        | inr f ↦
            let e = forward_leaves mem b.addr (free_is ∙ f) in
            record {
              chain =
                  subst
                    (λ q.
                      Chain (free_forward mem b.addr) prev p
                        (if q then wider (freed b) c.size ∷ cs else freed b ∷ c ∷ cs))
                    (sym f) (subst (λ μ. Chain μ prev p (freed b ∷ c ∷ cs)) (sym e) m);
              below = λ x lt. rw e (unmarked x lt);
            }
      ]
    where
      inside :
          (x : ℕ) {t u : ℕ}
          → x < b.addr
          → (u ≡ null) ⊎ (end_of c ≤ u)
          → t ≡ u
          → (t ≡ null) ⊎ (x ≢ t)
      inside x lt (inl z) e = inl (e ∙ z)
      inside x lt (inr le) e = inr (omega (arith, o.1.0))
