-- ===== src/Fat/Volume.antt =====
-- What `fat_read_file` of src/kernel/fat.cpp reads, by the layout of a FAT volume with sectors of 512 bytes.
use mathlib.Core.Path.{ap₂, subst}
use trieternal_x_os.Base.{
  ℕ, zero, suc, ◌+◌, ◌-◌, ◌*◌, ◌/◌, ◌%◌, ◌^◌, ◌≤◌, ◌<◌, ◌≡◌, refl, sym, ◌∙◌, ap, true, false, some,
  List, [], ◌∷◌, ◌++◌, arith, if◌then◌else◌, length,
}
use trieternal_x_os.Base.Words.{add32, sub32, mul32}
use trieternal_x_os.Fat.{
  Disk, Fat, find_entry, get_cluster_sector, get_next_cluster, is_last, read_file, to_fat_name,
  first_cluster, file_size, table_sector, table_offset,
}
use trieternal_x_os.Fat.Chain.{IsChain, byte_of, read_file-sectors, run, sectors_of}

-- The byte of the first table at an offset, the entry of a cluster, and its successor.
abbrev pub table_byte : (ℕ → ℕ → ℕ) → Fat → ℕ → ℕ
table_byte f s j = f (s.reserved_sectors + j / 512) (j % 512)

abbrev pub entry_16 : (ℕ → ℕ → ℕ) → Fat → ℕ → ℕ
entry_16 f s c = table_byte f s (2 * c) + 256 * table_byte f s (2 * c + 1)

abbrev pub entry_32 : (ℕ → ℕ → ℕ) → Fat → ℕ → ℕ
entry_32 f s c =
    (table_byte f s (4 * c)
      + 256 * table_byte f s (4 * c + 1)
      + 65536 * (table_byte f s (4 * c + 2) + 256 * table_byte f s (4 * c + 3)))
    % 2 ^ 28

abbrev pub successor : (ℕ → ℕ → ℕ) → Fat → ℕ → ℕ
successor f s c = if s.is_fat32 then entry_32 f s c else entry_16 f s c

-- The clusters are numbered from 2 on, below the end marks, and lie on a disk of fewer than 2 ^ 32 sectors.
pub record IsPlaced (s : Fat) (c : ℕ) : Type 0 where
  pub first : 2 ≤ c
  pub unmarked : c < (if s.is_fat32 then 0x0FFFFFF8 else 0xFFF8)
  pub on_disk : s.data_sector + (c - 2) * s.sectors_per_cluster + s.sectors_per_cluster < 2 ^ 32

-- The list is a part of the chain of clusters from one on.
abbrev pub IsFile : (ℕ → ℕ → ℕ) → Fat → ℕ → List ℕ → Type 0
IsFile f s cluster [] = Unit {0}
IsFile f s cluster (c ∷ cs) = (cluster ≡ c) × IsPlaced s c × IsFile f s (successor f s c) cs

-- `n` sectors one after the other, and the sectors of clusters.
abbrev pub consecutive : ℕ → ℕ → List ℕ
consecutive zero x = []
consecutive (suc n) x = x ∷ consecutive n (x + 1)

unfoldable pub file_sectors : Fat → List ℕ → List ℕ
file_sectors s [] = []
file_sectors s (c ∷ cs) =
    consecutive s.sectors_per_cluster (s.data_sector + (c - 2) * s.sectors_per_cluster)
    ++ file_sectors s cs

run-consecutive : (n x : ℕ) → x + n < 2 ^ 32 → run n x ≡ consecutive n x
unfolding run
run-consecutive zero x lt = refl
run-consecutive (suc n) x lt =
    let e : add32 x 1 ≡ x + 1 = omega arith in
    ap (λ r. x ∷ r) (ap (run n) e ∙ run-consecutive n (x + 1) (omega arith))

sector_lem :
    (start per product c : ℕ)
    → 2 ≤ c
    → c < 2 ^ 32
    → start + product < 2 ^ 32
    → add32 start (product % 2 ^ 32) ≡ start + product
sector_lem start per product c le lt room = omega arith

module _ (f : ℕ → ℕ → ℕ) (per reserved c : ℕ) where
  table_byte_2 :
      (k : ℕ)
      → per ≡ 512
      → reserved < 2 ^ 16
      → c < 0x0FFFFFF8
      → k < 2
      → f (add32 reserved (mul32 c 2 / per)) (mul32 c 2 % per + k)
        ≡ f (reserved + (2 * c + k) / 512) ((2 * c + k) % 512)
  table_byte_2 k e few lt kk = rw e (ap₂ f (omega arith) (omega arith))

  byte_2 :
      (k o j : ℕ)
      → per ≡ 512
      → reserved < 2 ^ 16
      → c < 0x0FFFFFF8
      → k < 2
      → o ≡ mul32 c 2 % per + k
      → j ≡ 2 * c + k
      → f (add32 reserved (mul32 c 2 / per)) o ≡ f (reserved + j / 512) (j % 512)
  byte_2 k o j e few lt kk at_o at_j =
      ap (f (add32 reserved (mul32 c 2 / per))) at_o
      ∙ table_byte_2 k e few lt kk
      ∙ ap (λ i. f (reserved + i / 512) (i % 512)) (sym at_j)

  table_byte_4 :
      (k : ℕ)
      → per ≡ 512
      → reserved < 2 ^ 16
      → c < 0x0FFFFFF8
      → k < 4
      → f (add32 reserved (mul32 c 4 / per)) (mul32 c 4 % per + k)
        ≡ f (reserved + (4 * c + k) / 512) ((4 * c + k) % 512)
  table_byte_4 k e few lt kk = rw e (ap₂ f (omega arith) (omega arith))

  byte_4 :
      (k o j : ℕ)
      → per ≡ 512
      → reserved < 2 ^ 16
      → c < 0x0FFFFFF8
      → k < 4
      → o ≡ mul32 c 4 % per + k
      → j ≡ 4 * c + k
      → f (add32 reserved (mul32 c 4 / per)) o ≡ f (reserved + j / 512) (j % 512)
  byte_4 k o j e few lt kk at_o at_j =
      ap (f (add32 reserved (mul32 c 4 / per))) at_o
      ∙ table_byte_4 k e few lt kk
      ∙ ap (λ i. f (reserved + i / 512) (i % 512)) (sym at_j)

module _ (s : Fat) (c : ℕ) (placed : IsPlaced s c) where
  c-lt : c < 0x0FFFFFF8
  c-lt = ground (arith, placed.unmarked)

  get_cluster_sector_lem : get_cluster_sector s c ≡ s.data_sector + (c - 2) * s.sectors_per_cluster
  unfolding get_cluster_sector
  get_cluster_sector_lem =
      let e : sub32 c 2 ≡ c - 2 = omega (arith, placed.first, c-lt) in
      ap (λ k. add32 s.data_sector (mul32 k s.sectors_per_cluster)) e
      ∙ sector_lem s.data_sector s.sectors_per_cluster ((c - 2) * s.sectors_per_cluster) c
          placed.first (omega (arith, c-lt)) (omega (arith, placed.on_disk))

  cluster-consecutive :
      run s.sectors_per_cluster (get_cluster_sector s c)
      ≡ consecutive s.sectors_per_cluster (s.data_sector + (c - 2) * s.sectors_per_cluster)
  cluster-consecutive =
      ap (run s.sectors_per_cluster) get_cluster_sector_lem
      ∙ run-consecutive s.sectors_per_cluster (s.data_sector + (c - 2) * s.sectors_per_cluster)
          (omega (arith, placed.on_disk))

  module _ (disk : Disk) (f : ℕ → ℕ → ℕ) (reads : (x : ℕ) → disk.read_sector x ≡ some (f x))
      (bytes : s.bytes_per_sector ≡ 512) (few : s.reserved_sectors < 2 ^ 16) where
    is_last-false : is_last disk s c ≡ false
    is_last-false = ground (arith, placed.first, placed.unmarked)

    get_next_cluster-successor : get_next_cluster disk s c ≡ successor f s c
    unfolding get_next_cluster
    get_next_cluster-successor =
        let o2 = table_offset s 2 c in
        let o4 = table_offset s 4 c in
        let at_2 =
          λ (k o j : ℕ). byte_2 f s.bytes_per_sector s.reserved_sectors c k o j bytes few c-lt in
        let at_4 =
          λ (k o j : ℕ). byte_4 f s.bytes_per_sector s.reserved_sectors c k o j bytes few c-lt in
        let half = λ (a b : ℕ). a + 256 * b in
        rw (reads (table_sector s 4 c), get_next_cluster)
          (rw (reads (table_sector s 2 c), get_next_cluster)
            (ap₂ (λ a b. if s.is_fat32 then a else b)
              (ap₂ (λ a b. (a + 65536 * b) % 2 ^ 28)
                (ap₂ half (at_4 0 o4 (4 * c) (omega arith) (omega arith) (omega arith))
                  (at_4 1 (o4 + 1) (4 * c + 1) (omega arith) (omega arith) (omega arith)))
                (ap₂ half (at_4 2 (o4 + 2) (4 * c + 2) (omega arith) (omega arith) (omega arith))
                  (at_4 3 (o4 + 2 + 1) (4 * c + 3) (omega arith) (omega arith) (omega arith))))
              (ap₂ half (at_2 0 o2 (2 * c) (omega arith) (omega arith) (omega arith))
                (at_2 1 (o2 + 1) (2 * c + 1) (omega arith) (omega arith) (omega arith)))))

module _ (s : Fat) (disk : Disk) (f : ℕ → ℕ → ℕ) (reads : (x : ℕ) → disk.read_sector x ≡ some (f x))
    (bytes : s.bytes_per_sector ≡ 512) (few : s.reserved_sectors < 2 ^ 16) where
  IsFile-IsChain : (cs : List ℕ) (cluster : ℕ) → IsFile f s cluster cs → IsChain disk s cluster cs
  IsFile-IsChain [] cluster chain = tt
  IsFile-IsChain (c ∷ cs) cluster (same, placed, chain) = (
    same,
    is_last-false s c placed disk f reads bytes few,
    subst (λ k. IsChain disk s k cs)
        (sym (get_next_cluster-successor s c placed disk f reads bytes few))
        (IsFile-IsChain cs (successor f s c) chain),
  )

  sectors_of-file_sectors :
      (cs : List ℕ) (cluster : ℕ) → IsFile f s cluster cs → sectors_of s cs ≡ file_sectors s cs
  unfolding sectors_of file_sectors
  sectors_of-file_sectors [] cluster chain = refl
  sectors_of-file_sectors (c ∷ cs) cluster (same, placed, chain) =
      ap₂ ◌++◌ (cluster-consecutive s c placed) (sectors_of-file_sectors cs (successor f s c) chain)

-- The first cluster and the size that a directory entry holds.
abbrev pub cluster_in : (ℕ → ℕ) → ℕ
cluster_in entry = entry 26 + 256 * entry 27 + 65536 * (entry 20 + 256 * entry 21)

abbrev pub size_in : (ℕ → ℕ) → ℕ
size_in entry = entry 28 + 256 * entry 29 + 65536 * (entry 30 + 256 * entry 31)

-- On a volume with sectors of 512 bytes, each of which can be read, where the search finds an entry whose chain in
-- the table goes on for clusters below the end marks that hold the file and lie below 2 ^ 32 sectors, each of
-- at least one sector: `fat_read_file` succeeds with fuel above the size, and the buffer holds the bytes of the
-- data sectors of these clusters one after the other, up to the size of the file or of the buffer.
pub read_file-bytes :
    (disk : Disk) (s : Fat) (f : ℕ → ℕ → ℕ) (fuel : ℕ) (filename : List ℕ) (buffer : ℕ → ℕ)
    (max_size : ℕ) (entry : ℕ → ℕ) (cs : List ℕ)
    → ((x : ℕ) → disk.read_sector x ≡ some (f x))
    → s.fat_active ≡ true
    → s.bytes_per_sector ≡ 512
    → s.reserved_sectors < 2 ^ 16
    → 0 < s.sectors_per_cluster
    → find_entry disk s fuel (to_fat_name filename) ≡ some (some entry)
    → IsFile f s (cluster_in entry) cs
    → size_in entry ≤ 512 * length (file_sectors s cs)
    → size_in entry < fuel
    → (copy : ℕ → ℕ) × (read_file disk s fuel filename buffer max_size ≡ some (true, copy))
      × ((j : ℕ) → j < size_in entry → j < max_size → copy j ≡ byte_of f (file_sectors s cs) j)
read_file-bytes disk s f fuel filename buffer max_size entry cs reads on bytes few pos found chain
      holds fu =
    let cluster : first_cluster entry ≡ cluster_in entry = omega arith in
    let size : file_size entry ≡ size_in entry = omega arith in
    let sectors = sectors_of-file_sectors s disk f reads bytes few cs (cluster_in entry) chain in
    let links = IsFile-IsChain s disk f reads bytes few cs (cluster_in entry) chain in
    let many : length (sectors_of s cs) ≡ length (file_sectors s cs) = ap length sectors in
    let (copy, e, same) =
      read_file-sectors disk s f fuel filename buffer max_size entry cs reads on pos found
        (subst (λ k. IsChain disk s k cs) (sym cluster) links) (omega (arith, size, many, holds))
        (omega (arith, size, fu)) in
    (copy, e, λ j lt room. same j (omega (arith, size, lt)) room ∙ ap (λ l. byte_of f l j) sectors)
