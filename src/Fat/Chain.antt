-- ===== src/Fat/Chain.antt =====
-- What `fat_read_file` of src/kernel/fat.cpp copies: the bytes of the sectors along the chain of clusters.
use trieternal_x_os.Base.{
  ℕ, zero, suc, ◌+◌, ◌-◌, ◌*◌, ◌≤◌, ◌<◌, ◌≡◌, inl, inr, refl, sym, ◌∙◌, ap, Bool, true, false, some,
  List, [], ◌∷◌, ◌++◌, arith, ltb, leb, if◌then◌else◌, Bool-cases, append_from, length,
  length-append,
}
use trieternal_x_os.Base.Words.{add32}
use trieternal_x_os.Fat.{
  Disk, Fat, get_cluster_sector, get_next_cluster, find_entry, read_sectors, is_last, read_clusters,
  read_file, to_fat_name, first_cluster, file_size,
}
use trieternal_x_os.Fat.Content.{append_from_lem, read_file-found}

-- The sectors that follow one another from a sector on.
unfoldable pub run : ℕ → ℕ → List ℕ
run zero sector = []
run (suc n) sector = sector ∷ run n (add32 sector 1)

-- The sectors of a list of clusters.
unfoldable pub sectors_of : Fat → List ℕ → List ℕ
sectors_of s [] = []
sectors_of s (c ∷ cs) = run s.sectors_per_cluster (get_cluster_sector s c) ++ sectors_of s cs

-- The list of clusters that the table gives from a cluster on, up to its end or a part of it.
abbrev pub IsChain : Disk → Fat → ℕ → List ℕ → Type 0
IsChain disk s cluster [] = Unit {0}
IsChain disk s cluster (c ∷ cs) =
    (cluster ≡ c) × (is_last disk s c ≡ false) × IsChain disk s (get_next_cluster disk s c) cs

-- The byte at an offset of the sectors one after the other.
unfoldable pub byte_of : (ℕ → ℕ → ℕ) → List ℕ → ℕ → ℕ
byte_of f [] j = 0
byte_of f (x ∷ xs) j = if ltb j 512 then f x j else byte_of f xs (j - 512)

byte_of-first :
    (f : ℕ → ℕ → ℕ) (xs ys : List ℕ) (j : ℕ)
    → j < 512 * length xs
    → byte_of f (xs ++ ys) j ≡ byte_of f xs j
unfolding byte_of
byte_of-first f [] ys j lt = absurd (omega arith)
byte_of-first f (x ∷ xs) ys j lt = elim (Bool-cases (ltb j 512)) [
  | inl near ↦ rw near refl
  | inr far ↦ rw far (byte_of-first f xs ys (j - 512) (ground arith))
]

byte_of-rest :
    (f : ℕ → ℕ → ℕ) (xs ys : List ℕ) (j : ℕ)
    → byte_of f (xs ++ ys) (512 * length xs + j) ≡ byte_of f ys j
unfolding byte_of
byte_of-rest f [] ys j = ap (byte_of f ys) (omega arith)
byte_of-rest f (x ∷ xs) ys j =
    let e : 512 * suc (length xs) + j - 512 ≡ 512 * length xs + j = omega arith in
    let far : ltb (512 * suc (length xs) + j) 512 ≡ false = ground arith in
    rw far (rw e (byte_of-rest f xs ys j))

length-run : (n sector : ℕ) → length (run n sector) ≡ n
unfolding run
length-run zero sector = refl
length-run (suc n) sector = ap suc (length-run n (add32 sector 1))

module _ (disk : Disk) (s : Fat) (f : ℕ → ℕ → ℕ) (size : ℕ) where
  -- What the rounds on `n` sectors come to where each sector can be read.
  record IsCopied (n sector from : ℕ) (out : ℕ → ℕ) (result : Bool × ℕ × (ℕ → ℕ)) : Type 0 where
    ok : result.0 ≡ true
    count : result.1 ≡ (if leb size (from + 512 * n) then size else from + 512 * n)
    before : (j : ℕ) → j < from → result.2 j ≡ out j
    bytes : (j : ℕ) → from ≤ j → j < result.1 → result.2 j ≡ byte_of f (run n sector) (j - from)

  read_sectors-IsCopied :
      ((x : ℕ) → disk.read_sector x ≡ some (f x))
      → (n sector from : ℕ) (out : ℕ → ℕ) → from ≤ size
      → IsCopied n sector from out (read_sectors disk s n sector from size out)
  unfolding read_sectors run byte_of
  read_sectors-IsCopied reads zero sector from out le = record {
    ok = refl;
    count = ground arith;
    before = λ j lt. refl;
    bytes = λ j low high. absurd (omega arith);
  }
  read_sectors-IsCopied reads (suc n) sector from out le = elim (Bool-cases (leb size from)) [
    | inl full ↦
        rw (full, read_sectors)
          (record {
            ok = refl;
            count = ground arith;
            before = λ j lt. refl;
            bytes = λ j low high. absurd (ground arith);
          })
    | inr more ↦
        let count = if ltb (size - from) 512 then size - from else 512 in
        let r =
          read_sectors-IsCopied reads n (add32 sector 1) (from + count)
            (append_from count 0 from (f sector) out) (ground arith) in
        rw (more, read_sectors)
          (rw (reads sector, read_sectors)
            (record {
              ok = r.ok;
              count = r.count ∙ ground arith;
              before = λ j lt.
                  r.before j (omega arith)
                  ∙ append_from_lem count 0 from (f sector) out j
                  ∙ ground arith;
              bytes = λ j low high. elim (Bool-cases (ltb j (from + count))) [
                | inl near ↦
                    r.before j (ground arith)
                    ∙ append_from_lem count 0 from (f sector) out j
                    ∙ ground arith
                | inr far ↦
                    let e : j - (from + count) ≡ j - from - 512 = ground (arith, r.count) in
                    r.bytes j (ground arith) high
                    ∙ ap (byte_of f (run n (add32 sector 1))) e
                    ∙ ground (arith, r.count)
              ];
            }))
  ]

  read_clusters-bytes :
      ((x : ℕ) → disk.read_sector x ≡ some (f x))
      → 0 < s.sectors_per_cluster
      → (cs : List ℕ) (fuel cluster from : ℕ) (out : ℕ → ℕ) → IsChain disk s cluster cs
      → from ≤ size
      → size ≤ from + 512 * length (sectors_of s cs)
      → size < from + fuel
      → (copy : ℕ → ℕ) × (read_clusters disk s fuel cluster from size out ≡ some (true, copy))
        × ((j : ℕ) → j < from → copy j ≡ out j)
        × ((j : ℕ) → from ≤ j → j < size → copy j ≡ byte_of f (sectors_of s cs) (j - from))
  unfolding read_clusters sectors_of
  read_clusters-bytes reads pos cs zero cluster from out chain le enough fu = absurd (omega arith)
  read_clusters-bytes reads pos [] (suc fuel) cluster from out chain le enough fu =
      let full : leb size from ≡ true = ground arith in
      (out, rw (full, read_clusters) refl, λ j lt. refl, λ j low high. absurd (omega arith))
  read_clusters-bytes reads pos (c ∷ cs) (suc fuel) cluster from out (same, goes, chain) le enough
        fu =
      elim (Bool-cases (leb size from)) [
        | inl full ↦
            (out, rw (full, read_clusters) refl, λ j lt. refl, λ j low high. absurd (ground arith))
        | inr more ↦
            let per = s.sectors_per_cluster in
            let first = get_cluster_sector s c in
            let (good, count, out1) = read_sectors disk s per first from size out in
            let r = read_sectors-IsCopied reads per first from out le in
            let len = length-run per first in
            let whole = length-append (run per first) (sectors_of s cs) in
            let ok : good ≡ true = r.ok in
            let c1 : count ≡ (if leb size (from + 512 * per) then size else from + 512 * per) =
              r.count in
            let (copy, e, before, bytes) =
              read_clusters-bytes reads pos cs fuel (get_next_cluster disk s c) count out1 chain
                (ground arith) (ground arith) (ground arith) in
            (
              copy,
              rw same
                  (rw (more, read_clusters) (rw (goes, read_clusters) (rw (ok, read_clusters) e))),
              λ j lt. before j (ground arith) ∙ r.before j lt,
              λ j low high. elim (Bool-cases (ltb j count)) [
                | inl near ↦
                    before j (ground arith)
                    ∙ r.bytes j low (ground arith)
                    ∙ sym (
                        byte_of-first f (run per first) (sectors_of s cs) (j - from) (ground arith))
                | inr far ↦
                    let at : 512 * length (run per first) + (j - count) ≡ j - from = ground arith in
                    bytes j (ground arith) high
                    ∙ sym (byte_of-rest f (run per first) (sectors_of s cs) (j - count))
                    ∙ ap (byte_of f (run per first ++ sectors_of s cs)) at
              ],
            )
      ]

-- `fat_read_file` by the addresses that the code computes.
pub read_file-sectors :
    (disk : Disk) (s : Fat) (f : ℕ → ℕ → ℕ) (fuel : ℕ) (filename : List ℕ) (buffer : ℕ → ℕ)
    (max_size : ℕ) (entry : ℕ → ℕ) (cs : List ℕ)
    → ((x : ℕ) → disk.read_sector x ≡ some (f x))
    → s.fat_active ≡ true
    → 0 < s.sectors_per_cluster
    → find_entry disk s fuel (to_fat_name filename) ≡ some (some entry)
    → IsChain disk s (first_cluster entry) cs
    → file_size entry ≤ 512 * length (sectors_of s cs)
    → file_size entry < fuel
    → (copy : ℕ → ℕ) × (read_file disk s fuel filename buffer max_size ≡ some (true, copy))
      × ((j : ℕ) → j < file_size entry → j < max_size → copy j ≡ byte_of f (sectors_of s cs) j)
read_file-sectors disk s f fuel filename buffer max_size entry cs reads on pos found chain holds
      fu =
    let size = if ltb max_size (file_size entry) then max_size else file_size entry in
    let small : size ≤ file_size entry = ground arith in
    let (copy, e, before, bytes) =
      read_clusters-bytes disk s f size reads pos cs fuel (first_cluster entry) 0 buffer chain
        (omega arith) (omega arith) (omega arith) in
    (
      copy,
      read_file-found disk s fuel filename buffer max_size entry on found ∙ e,
      λ j lt room.
          bytes j (omega arith) (ground arith) ∙ ap (byte_of f (sectors_of s cs)) (omega arith),
    )
