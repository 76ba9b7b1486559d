-- ===== src/Elf/Headers.antt =====
-- The program headers that `elf_load_from_memory` of src/kernel/elf.cpp accepts, by sums that do not wrap around.
use trieternal_x_os.Base.{
  ℕ, ◌+◌, ◌*◌, ◌%◌, ◌^◌, ◌≤◌, ◌<◌, ◌≡◌, ◌⊎◌, inl, inr, sym, ◌∙◌, ap, true, false, none, some, arith,
  ltb, Bool-cases,
}
use trieternal_x_os.Base.Words.{add32}
use trieternal_x_os.Elf.{
  Machine, failed, half_at, word_at, p_vaddr, p_memsz, is_load, validate, scan, load_from_memory,
}
use trieternal_x_os.Elf.Range.{is_outside, header, scan-Scanned, load_from_memory-outside}

offset_lem :
    (offset product : ℕ)
    → offset + product + 32 < 2 ^ 32
    → add32 (add32 offset (product % 2 ^ 32)) 32 ≡ offset + product + 32
offset_lem offset product lt = omega arith

address_lem :
    (file size offset product : ℕ)
    → file + size ≤ 2 ^ 32
    → offset + product + 32 ≤ size
    → add32 file (add32 offset (product % 2 ^ 32)) ≡ file + (offset + product)
address_lem file size offset product fits le = omega arith

module _ {V : Type 0} (ops : Machine V) (v : V) (file size : ℕ) where
  -- The end of the program header `k` in the file, and its address in memory.
  abbrev pub end_of : ℕ → ℕ
  end_of k = word_at ops v (add32 file 28) + k * half_at ops v (add32 file 42) + 32

  abbrev pub address_of : ℕ → ℕ
  address_of k = file + (word_at ops v (add32 file 28) + k * half_at ops v (add32 file 42))

  -- The file, the ends of the `n` headers from `i` on and those of the segments that they describe are below 2 ^ 32.
  pub record IsAddressed (n i : ℕ) : Type 0 where
    pub fits : file + size ≤ 2 ^ 32
    pub ends : (k : ℕ) → i ≤ k → k < i + n → end_of k < 2 ^ 32
    pub segments :
        (k : ℕ)
        → i ≤ k
        → k < i + n
        → is_load ops v (address_of k) ≡ true
        → p_vaddr ops v (address_of k) + p_memsz ops v (address_of k) < 2 ^ 32

  -- The headers lie in the file, and the range holds `lowest`, `highest` and every byte of the segments to be
  -- loaded.
  pub record IsCovering (n i lowest highest : ℕ) (range : ℕ × ℕ) : Type 0 where
    pub lower : range.0 ≤ lowest
    pub upper : highest ≤ range.1
    pub inside : (k : ℕ) → i ≤ k → k < i + n → end_of k ≤ size
    pub bytes :
        (k j : ℕ)
        → i ≤ k
        → k < i + n
        → is_load ops v (address_of k) ≡ true
        → j < p_memsz ops v (address_of k)
        → (range.0 ≤ p_vaddr ops v (address_of k) + j)
          × (p_vaddr ops v (address_of k) + j < range.1)

  is_outside-end_of :
      (k : ℕ) → end_of k < 2 ^ 32 → is_outside ops v file size k ≡ ltb size (end_of k)
  is_outside-end_of k lt =
      ap (λ e. ltb size e)
        (offset_lem (word_at ops v (add32 file 28)) (k * half_at ops v (add32 file 42)) lt)

  header-address_of :
      (k : ℕ) → file + size ≤ 2 ^ 32 → end_of k ≤ size → header ops v file size k ≡ address_of k
  header-address_of k fits le =
      address_lem file size (word_at ops v (add32 file 28)) (k * half_at ops v (add32 file 42)) fits
        le

  -- Where the file, the headers and the segments end below 2 ^ 32, the pass ends without a range just where
  -- one of the headers does not lie in the file; else its range holds what it began with and every byte of
  -- every segment to be loaded.
  pub scan_lem :
      (n i lowest highest : ℕ)
      → IsAddressed n i
      → ((scan ops n i v file size lowest highest ≡ none)
          × (k : ℕ) × (i ≤ k)
          × (k < i + n)
          × (size < end_of k))
        ⊎ ((range : ℕ × ℕ) × (scan ops n i v file size lowest highest ≡ some range)
            × IsCovering n i lowest highest range)
  scan_lem n i lowest highest a = elim (scan-Scanned ops v file size n i lowest highest) [
    | inl (stop, k, from, below, out) ↦
        let plain = is_outside-end_of k (a.ends k from below) in
        inl (stop, k, from, below, ground (arith, plain, out))
    | inr (range, done, r) ↦
        let within : (k : ℕ) → i ≤ k → k < i + n → end_of k ≤ size = λ k from below.
          let plain = is_outside-end_of k (a.ends k from below) in
          let pass = r.inside k from below in not_below size (end_of k) (sym plain ∙ pass) in
        inr (
          range,
          done,
          record {
            lower = r.lower;
            upper = r.upper;
            inside = within;
            bytes = λ k j from below l lt.
                let at = header-address_of k a.fits (within k from below) in
                let l' = ap (is_load ops v) at ∙ l in
                let starts = r.starts k from below l' in
                let ends = r.ends k from below l' in
                let room = a.segments k from below l in
                let start = ap (p_vaddr ops v) at in
                let long = ap (p_memsz ops v) at in
                covered (p_vaddr ops v (header ops v file size k))
                  (p_memsz ops v (header ops v file size k)) (p_vaddr ops v (address_of k))
                  (p_memsz ops v (address_of k)) range.0 range.1 j start long starts ends room lt;
          },
        )
  ]
    where
      not_below : (a b : ℕ) → ltb a b ≡ false → b ≤ a
      not_below a b e = ground arith

      covered :
          (start' long' start long low high j : ℕ)
          → start' ≡ start
          → long' ≡ long
          → low ≤ start'
          → add32 start' long' ≤ high
          → start + long < 2 ^ 32
          → j < long
          → (low ≤ start + j) × (start + j < high)
      covered start' long' start long low high j e e' lo hi room lt = (omega arith, omega arith)

  -- The header of an executable for this machine: the magic number, 32 bits with the low byte first, and the
  -- type and the machine.
  pub record IsExecutable : Type 0 where
    pub magic_0 : ops.load v file ≡ 0x7F
    pub magic_1 : ops.load v (add32 file 1) ≡ 69
    pub magic_2 : ops.load v (add32 file 2) ≡ 76
    pub magic_3 : ops.load v (add32 file 3) ≡ 70
    pub class_32 : ops.load v (add32 file 4) ≡ 1
    pub low_first : ops.load v (add32 file 5) ≡ 1
    pub kind : half_at ops v (add32 file 16) ≡ 2
    pub machine : half_at ops v (add32 file 18) ≡ 3

  validate-IsExecutable : validate ops v file ≡ true → IsExecutable
  unfolding validate
  validate-IsExecutable e = record {
    magic_0 = ground arith;
    magic_1 = ground arith;
    magic_2 = ground arith;
    magic_3 = ground arith;
    class_32 = ground arith;
    low_first = ground arith;
    kind = ground arith;
    machine = ground arith;
  }

  -- A file shorter than its header of 52 bytes, or one that is no executable for this machine, or one of whose
  -- program headers does not lie in it, ending below 2 ^ 32 but behind the end of the file, is not loaded:
  -- memory stays, whatever the fuel.
  pub load_from_memory-rejects :
      (fuel k : ℕ)
      → ((size < 52)
          ⊎ (¬ IsExecutable
              ⊎ ((k < half_at ops v (add32 file 44)) × (end_of k < 2 ^ 32) × (size < end_of k))))
      → load_from_memory ops fuel file size v ≡ some (failed, v)
  load_from_memory-rejects fuel k (inl short) =
      load_from_memory-outside ops v file size fuel k (inl short)
  load_from_memory-rejects fuel k (inr (inl not_elf)) = elim (Bool-cases (validate ops v file)) [
    | inl good ↦ absurd (not_elf (validate-IsExecutable good))
    | inr bad ↦ load_from_memory-outside ops v file size fuel k (inr (inl bad))
  ]
  load_from_memory-rejects fuel k (inr (inr (below, lt, out))) =
      load_from_memory-outside ops v file size fuel k
        (inr (inr (below, is_outside-end_of k lt ∙ is_below size (end_of k) out)))
    where
      is_below : (a b : ℕ) → a < b → ltb a b ≡ true
      is_below a b lt = ground arith
