-- ===== src/Elf/Range.antt =====
-- The first pass of `elf_load_from_memory` in src/kernel/elf.cpp.
use mathlib.Core.Path.{subst}
use trieternal_x_os.Base.{
  ℕ, zero, suc, ◌+◌, ◌≤◌, ◌<◌, ◌≡◌, ◌⊎◌, inl, inr, refl, sym, ◌∙◌, Bool, true, false, not, ◌||◌,
  none, some, arith, ltb, ◌==◌, ==→eq, if◌then◌else◌, Bool-cases,
}
use trieternal_x_os.Base.Words.{add32}
use trieternal_x_os.Elf.{
  Machine, failed, ehdr_size, phdr_size, half_at, p_vaddr, p_memsz, is_load, validate,
  header_offset, scan, load_from_memory,
}

module _ {V : Type 0} (ops : Machine V) (v : V) (file size : ℕ) where
  -- The test of the code, whose sum wraps around.
  abbrev pub is_outside : ℕ → Bool
  is_outside i = ltb size (add32 (header_offset ops v file i) phdr_size)

  abbrev pub header : ℕ → ℕ
  header i = add32 file (header_offset ops v file i)

  -- `n` headers from `i` on pass the test, and the range holds `lowest`, `highest` and the ends that they give.
  pub record IsRange (n i lowest highest : ℕ) (range : ℕ × ℕ) : Type 0 where
    pub lower : range.0 ≤ lowest
    pub upper : highest ≤ range.1
    pub inside : (k : ℕ) → i ≤ k → k < i + n → is_outside k ≡ false
    pub starts :
        (k : ℕ)
        → i ≤ k
        → k < i + n
        → is_load ops v (header k) ≡ true
        → range.0 ≤ p_vaddr ops v (header k)
    pub ends :
        (k : ℕ)
        → i ≤ k
        → k < i + n
        → is_load ops v (header k) ≡ true
        → add32 (p_vaddr ops v (header k)) (p_memsz ops v (header k)) ≤ range.1

  -- What a pass over `n` headers from `i` on comes to.
  abbrev pub Scanned : ℕ → ℕ → ℕ → ℕ → Type 0
  Scanned n i lowest highest =
      ((scan ops n i v file size lowest highest ≡ none)
        × (k : ℕ) × (i ≤ k)
        × (k < i + n)
        × (is_outside k ≡ true))
      ⊎ ((range : ℕ × ℕ) × (scan ops n i v file size lowest highest ≡ some range)
          × IsRange n i lowest highest range)

  -- One header more in front.
  extend :
      (n i lowest highest lowest' highest' : ℕ) (range : ℕ × ℕ)
      → is_outside i ≡ false
      → lowest' ≤ lowest
      → highest ≤ highest'
      → (is_load ops v (header i) ≡ true
          → (lowest' ≤ p_vaddr ops v (header i))
            × (add32 (p_vaddr ops v (header i)) (p_memsz ops v (header i)) ≤ highest'))
      → IsRange n (i + 1) lowest' highest' range
      → IsRange (suc n) i lowest highest range
  extend n i lowest highest lowest' highest' range inside low high own r =
      let lower = r.lower in
      let upper = r.upper in
      record {
        lower = omega arith;
        upper = omega arith;
        inside = λ k from below. elim (Bool-cases (k == i)) [
          | inl first ↦ subst (λ z. is_outside z ≡ false) (sym (==→eq k i first)) inside
          | inr later ↦ r.inside k (ground (arith, later)) (omega arith)
        ];
        starts = λ k from below l. elim (Bool-cases (k == i)) [
          | inl first ↦
              let e = ==→eq k i first in
              let here = (own (subst (λ z. is_load ops v (header z) ≡ true) e l)).0 in
              subst (λ z. range.0 ≤ p_vaddr ops v (header z)) (sym e) (omega (arith, here, lower))
          | inr later ↦ r.starts k (ground (arith, later)) (omega arith) l
        ];
        ends = λ k from below l. elim (Bool-cases (k == i)) [
          | inl first ↦
              let e = ==→eq k i first in
              let here = (own (subst (λ z. is_load ops v (header z) ≡ true) e l)).1 in
              subst (λ z. add32 (p_vaddr ops v (header z)) (p_memsz ops v (header z)) ≤ range.1)
                (sym e) (omega (arith, here, upper))
          | inr later ↦ r.ends k (ground (arith, later)) (omega arith) l
        ];
      }

  -- A pass over the headers behind the first one, as a pass from the first one on.
  step :
      (n i lowest highest lowest' highest' : ℕ)
      → scan ops (suc n) i v file size lowest highest
        ≡ scan ops n (i + 1) v file size lowest' highest'
      → is_outside i ≡ false
      → lowest' ≤ lowest
      → highest ≤ highest'
      → (is_load ops v (header i) ≡ true
          → (lowest' ≤ p_vaddr ops v (header i))
            × (add32 (p_vaddr ops v (header i)) (p_memsz ops v (header i)) ≤ highest'))
      → Scanned n (i + 1) lowest' highest'
      → Scanned (suc n) i lowest highest
  step n i lowest highest lowest' highest' e inside low high own (inl (stop, k, from, below, out)) =
      inl (e ∙ stop, k, omega arith, omega arith, out)
  step n i lowest highest lowest' highest' e inside low high own (inr (range, done, r)) =
      inr (range, e ∙ done, extend n i lowest highest lowest' highest' range inside low high own r)

  scan_skip :
      (n i lowest highest : ℕ)
      → is_outside i ≡ false
      → is_load ops v (header i) ≡ false
      → scan ops (suc n) i v file size lowest highest
        ≡ scan ops n (i + 1) v file size lowest highest
  unfolding scan
  scan_skip n i lowest highest inside l = rw (inside, scan) (rw (l, scan) refl)

  scan_take :
      (n i lowest highest : ℕ)
      → is_outside i ≡ false
      → is_load ops v (header i) ≡ true
      → scan ops (suc n) i v file size lowest highest
        ≡ scan ops n
            (i + 1)
            v
            file
            size
            (if ltb (p_vaddr ops v (header i)) lowest then p_vaddr ops v (header i) else lowest)
            (if ltb highest (add32 (p_vaddr ops v (header i)) (p_memsz ops v (header i)))
              then add32 (p_vaddr ops v (header i)) (p_memsz ops v (header i))
              else highest)
  unfolding scan
  scan_take n i lowest highest inside l = rw (inside, scan) (rw (l, scan) refl)

  scan_stop :
      (n i lowest highest : ℕ)
      → is_outside i ≡ true
      → scan ops (suc n) i v file size lowest highest ≡ none
  unfolding scan
  scan_stop n i lowest highest out = rw (out, scan) refl

  lower_of : (a b : ℕ) → ((if ltb a b then a else b) ≤ b) × ((if ltb a b then a else b) ≤ a)
  lower_of a b = (ground arith, ground arith)

  upper_of : (a b : ℕ) → (b ≤ (if ltb b a then a else b)) × (a ≤ (if ltb b a then a else b))
  upper_of a b = (ground arith, ground arith)

  pub scan-Scanned : (n i lowest highest : ℕ) → Scanned n i lowest highest
  unfolding scan
  scan-Scanned zero i lowest highest = inr (
    (lowest, highest),
    refl,
    record {
      lower = omega arith;
      upper = omega arith;
      inside = λ k from below. absurd (omega arith);
      starts = λ k from below l. absurd (omega arith);
      ends = λ k from below l. absurd (omega arith);
    },
  )
  scan-Scanned (suc n) i lowest highest = elim (Bool-cases (is_outside i)) [
    | inl out ↦ inl (scan_stop n i lowest highest out, i, omega arith, omega arith, out)
    | inr inside ↦ elim (Bool-cases (is_load ops v (header i))) [
      | inl l ↦
          let start = p_vaddr ops v (header i) in
          let end = add32 start (p_memsz ops v (header i)) in
          let lowest' = if ltb start lowest then start else lowest in
          let highest' = if ltb highest end then end else highest in
          step n i lowest highest lowest' highest' (scan_take n i lowest highest inside l) inside
            (lower_of start lowest).0 (upper_of end highest).0
            (λ own. ((lower_of start lowest).1, (upper_of end highest).1))
            (scan-Scanned n (i + 1) lowest' highest')
      | inr l ↦
          step n i lowest highest lowest highest (scan_skip n i lowest highest inside l) inside
            (omega arith) (omega arith)
            (λ own. let clash : true ≡ false = sym own ∙ l in absurd (cc clash))
            (scan-Scanned n (i + 1) lowest highest)
    ]
  ]

  pub load_from_memory-outside :
      (fuel k : ℕ)
      → ((size < ehdr_size)
          ⊎ ((validate ops v file ≡ false)
              ⊎ ((k < half_at ops v (add32 file 44)) × (is_outside k ≡ true))))
      → load_from_memory ops fuel file size v ≡ some (failed, v)
  unfolding load_from_memory
  load_from_memory-outside fuel k (inl short) = ground arith
  load_from_memory-outside fuel k (inr (inl bad)) = ground arith
  load_from_memory-outside fuel k (inr (inr (below, out))) =
      let count = half_at ops v (add32 file 44) in
      elim (scan-Scanned count 0 0xFFFFFFFF 0) [
        | inl (stop, first, from, low, outside) ↦
            rw (stop, load_from_memory)
              (either (ltb size ehdr_size || not (validate ops v file)) (some (failed, v)))
        | inr (range, done, r) ↦
            let clash : true ≡ false = sym out ∙ r.inside k (omega arith) (omega arith) in
            absurd (cc clash)
      ]
    where
      either : {A : Type 0} (b : Bool) (x : A) → (if b then x else x) ≡ x
      either true x = refl
      either false x = refl
