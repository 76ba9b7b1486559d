-- ===== src/Fat/Content.antt =====
-- `fat_read_file` of src/kernel/fat.cpp ends, stays in its buffer and reads the chain of clusters.
use trieternal_x_os.Base.{
  ℕ, zero, suc, ◌+◌, ◌-◌, ◌≤◌, ◌<◌, ◌≡◌, ◌⊎◌, inl, inr, refl, ◌∙◌, Bool, true, false, ◌&&◌, ◌||◌,
  Option, none, some, List, [], ◌∷◌, arith, ltb, leb, ◌==◌, if◌then◌else◌, Bool-cases, Option-cases,
  update, append_from, length, ==→eq,
}
use trieternal_x_os.Base.Words.{add32}
use trieternal_x_os.Fat.{
  Disk, Fat, get_cluster_sector, get_next_cluster, find_in_sectors, find_in_clusters, find_entry,
  read_sectors, is_last, read_clusters, read_file, to_fat_name, first_cluster, file_size,
}

pub append_from_lem :
    (n i off : ℕ) (src dst : ℕ → ℕ) (j : ℕ)
    → append_from n i off src dst j
      ≡ (if leb (off + i) j && ltb j (off + i + n) then src (j - off) else dst j)
unfolding append_from
append_from_lem zero i off src dst j = ground arith
append_from_lem (suc n) i off src dst j =
    append_from_lem n (i + 1) off src (update dst (off + i) (src i)) j
    ∙ elim (Bool-cases (j == off + i)) [
      | inl here ↦ let e = ==→eq j (off + i) here in rw e (ground arith)
      | inr there ↦ ground arith
    ]

module _ (disk : Disk) (s : Fat) (size : ℕ) where
  -- What the rounds on `n` sectors come to: they do not go back or beyond the size, go on unless the file is at its
  -- end or a sector cannot be read, and leave the buffer outside the bytes that they read.
  pub record IsRead (n from : ℕ) (out : ℕ → ℕ) (result : Bool × ℕ × (ℕ → ℕ)) : Type 0 where
    pub lower : from ≤ result.1
    pub upper : result.1 ≤ size
    pub progress : result.0 ≡ true → 0 < n → from < size → from < result.1
    pub outside : (j : ℕ) → ((j < from) ⊎ (size ≤ j)) → result.2 j ≡ out j

  read_sectors-IsRead :
      (n sector from : ℕ) (out : ℕ → ℕ)
      → from ≤ size
      → IsRead n from out (read_sectors disk s n sector from size out)
  unfolding read_sectors
  read_sectors-IsRead zero sector from out le = record {
    lower = omega arith;
    upper = le;
    progress = λ e pos lt. absurd (omega arith);
    outside = λ j o. refl;
  }
  read_sectors-IsRead (suc n) sector from out le = elim (Bool-cases (leb size from)) [
    | inl full ↦
        rw (full, read_sectors)
          (record {
            lower = omega arith;
            upper = le;
            progress = λ e pos lt. absurd (ground arith);
            outside = λ j o. refl;
          })
    | inr more ↦
        rw (more, read_sectors)
          (elim (Option-cases (disk.read_sector sector)) [
            | inl e ↦
                rw (e, read_sectors)
                  (record {
                    lower = omega arith;
                    upper = le;
                    progress = λ e pos lt. cc e;
                    outside = λ j o. refl;
                  })
            | inr (b, e) ↦
                let count = if ltb (size - from) 512 then size - from else 512 in
                let room : from < size = ground arith in
                let fits : from + count ≤ size = ground arith in
                let moves : 0 < count = ground arith in
                let r =
                  read_sectors-IsRead n (add32 sector 1) (from + count)
                    (append_from count 0 from b out) fits in
                rw (e, read_sectors)
                  (record {
                    lower = omega (arith, r.lower);
                    upper = r.upper;
                    progress = λ t pos lt. omega (arith, r.lower);
                    outside = λ j o.
                        r.outside j (further j count o)
                        ∙ append_from_lem count 0 from b out j
                        ∙ ground (arith, o);
                  })
          ])
  ]
    where
      further : (j count : ℕ) → ((j < from) ⊎ (size ≤ j)) → ((j < from + count) ⊎ (size ≤ j))
      further j count (inl l) = inl (omega arith)
      further j count (inr r) = inr r

  -- With fuel for every byte that is left, the loop over the clusters ends, and leaves the buffer outside the
  -- bytes from `from` to the size.
  read_clusters_lem :
      (fuel cluster from : ℕ) (out : ℕ → ℕ)
      → 0 < s.sectors_per_cluster
      → from ≤ size
      → size < from + fuel
      → (result : Bool × (ℕ → ℕ)) × (read_clusters disk s fuel cluster from size out ≡ some result)
        × ((j : ℕ) → ((j < from) ⊎ (size ≤ j)) → result.1 j ≡ out j)
  unfolding read_clusters
  read_clusters_lem zero cluster from out pos le f = absurd (omega arith)
  read_clusters_lem (suc fuel) cluster from out pos le f =
      let (ok, count, out1) =
        read_sectors disk s s.sectors_per_cluster (get_cluster_sector s cluster) from size out in
      let r =
        read_sectors-IsRead s.sectors_per_cluster (get_cluster_sector s cluster) from out le in
      elim (Bool-cases (leb size from || is_last disk s cluster)) [
        | inl done ↦ ((true, out), rw (done, read_clusters) refl, λ j o. refl)
        | inr more ↦ elim (Bool-cases ok) [
          | inl good ↦
              let lower = r.lower in
              let upper = r.upper in
              let forward = r.progress good pos (ground arith) in
              let (result, e, rest) =
                read_clusters_lem fuel (get_next_cluster disk s cluster) count out1 pos upper
                  (omega arith) in
              (
                result,
                rw (more, read_clusters) (rw (good, read_clusters) e),
                λ j o. rest j (further j count lower o) ∙ r.outside j o,
              )
          | inr bad ↦
              ((false, out1), rw (more, read_clusters) (rw (bad, read_clusters) refl), r.outside)
        ]
      ]
    where
      further :
          (j count : ℕ) → from ≤ count → ((j < from) ⊎ (size ≤ j)) → ((j < count) ⊎ (size ≤ j))
      further j count le (inl l) = inl (omega arith)
      further j count le (inr r) = inr r

-- The clusters of a directory from one on, up to the mark behind the last one.
abbrev pub IsDirectory : Disk → Fat → ℕ → List ℕ → Type 0
IsDirectory disk s cluster [] = ltb cluster 0x0FFFFFF8 ≡ false
IsDirectory disk s cluster (c ∷ cs) =
    (cluster ≡ c) × (ltb c 0x0FFFFFF8 ≡ true) × IsDirectory disk s (get_next_cluster disk s c) cs

find_in_clusters-ends :
    (disk : Disk) (s : Fat) (cs : List ℕ) (fuel cluster : ℕ) (name : ℕ → ℕ)
    → IsDirectory disk s cluster cs
    → length cs < fuel
    → (found : Option (ℕ → ℕ)) × (find_in_clusters disk s fuel cluster name ≡ some found)
unfolding find_in_clusters
find_in_clusters-ends disk s cs zero cluster name dir f = absurd (omega arith)
find_in_clusters-ends disk s [] (suc fuel) cluster name dir f =
    (none, rw (dir, find_in_clusters) refl)
find_in_clusters-ends disk s (c ∷ cs) (suc fuel) cluster name (same, goes, dir) f =
    let here = find_in_sectors disk s s.sectors_per_cluster (get_cluster_sector s c) name in
    let (found, e) =
      find_in_clusters-ends disk s cs fuel (get_next_cluster disk s c) name dir (omega arith) in
    elim (Option-cases here) [
      | inl later ↦ (found, rw same (rw (goes, find_in_clusters) (rw (later, find_in_clusters) e)))
      | inr (entry, now) ↦
          (some entry, rw same (rw (goes, find_in_clusters) (rw (now, find_in_clusters) refl)))
    ]

-- The root directory has a fixed size, or ends after fewer clusters than the fuel.
abbrev pub Ends : Disk → Fat → ℕ → Type 0
Ends disk s fuel =
    (s.is_fat32 ≡ false)
    ⊎ ((cs : List ℕ) × IsDirectory disk s s.root_cluster cs × (length cs < fuel))

find_entry-clusters :
    (disk : Disk) (s : Fat) (fuel : ℕ) (name : ℕ → ℕ)
    → s.is_fat32 ≡ true
    → find_entry disk s fuel name ≡ find_in_clusters disk s fuel s.root_cluster name
unfolding find_entry
find_entry-clusters disk s fuel name big = rw (big, find_entry) refl

-- What the entry that was found makes `fat_read_file` do.
pub read_file-found :
    (disk : Disk) (s : Fat) (fuel : ℕ) (filename : List ℕ) (buffer : ℕ → ℕ) (max_size : ℕ)
    (entry : ℕ → ℕ)
    → s.fat_active ≡ true
    → find_entry disk s fuel (to_fat_name filename) ≡ some (some entry)
    → read_file disk s fuel filename buffer max_size
      ≡ read_clusters disk s fuel
          (first_cluster entry)
          0
          (if ltb max_size (file_size entry) then max_size else file_size entry)
          buffer
unfolding read_file read_clusters get_cluster_sector get_next_cluster read_sectors
read_file-found disk s fuel filename buffer max_size entry on e =
    rw (on, read_file) (rw (e, read_file) refl)

find_entry-Ends :
    (disk : Disk) (s : Fat) (fuel : ℕ) (name : ℕ → ℕ)
    → Ends disk s fuel
    → (found : Option (ℕ → ℕ)) × (find_entry disk s fuel name ≡ some found)
unfolding find_entry
find_entry-Ends disk s fuel name (inl fat16) =
    (find_in_sectors disk s s.root_dir_sectors s.root_dir_sector name, rw (fat16, find_entry) refl)
find_entry-Ends disk s fuel name (inr (cs, dir, f)) = elim (Bool-cases s.is_fat32) [
  | inl big ↦
      let (found, e) = find_in_clusters-ends disk s cs fuel s.root_cluster name dir f in
      (found, find_entry-clusters disk s fuel name big ∙ e)
  | inr small ↦ (
    find_in_sectors disk s s.root_dir_sectors s.root_dir_sector name,
    rw (small, find_entry) refl,
  )
]

-- `fat_read_file` ends whatever is on the disk, also for a chain of clusters that goes in a circle: where a cluster
-- has a sector and the root directory ends, fuel above the size of the buffer and the clusters of the
-- root directory is enough. It writes nothing behind the first `max_size` bytes of the buffer.
pub read_file_lem :
    (disk : Disk) (s : Fat) (fuel : ℕ) (filename : List ℕ) (buffer : ℕ → ℕ) (max_size : ℕ)
    → 0 < s.sectors_per_cluster
    → Ends disk s fuel
    → max_size < fuel
    → (result : Bool × (ℕ → ℕ)) × (read_file disk s fuel filename buffer max_size ≡ some result)
      × ((j : ℕ) → max_size ≤ j → result.1 j ≡ buffer j)
unfolding read_file
read_file_lem disk s fuel filename buffer max_size pos ends f = elim (Bool-cases s.fat_active) [
  | inr off ↦ ((false, buffer), rw (off, read_file) refl, λ j le. refl)
  | inl on ↦
      let (found, e) = find_entry-Ends disk s fuel (to_fat_name filename) ends in opened on found e
]
  where
    opened :
        s.fat_active ≡ true
        → (found : Option (ℕ → ℕ)) → find_entry disk s fuel (to_fat_name filename) ≡ some found
        → (result : Bool × (ℕ → ℕ)) × (read_file disk s fuel filename buffer max_size ≡ some result)
          × ((j : ℕ) → max_size ≤ j → result.1 j ≡ buffer j)
    opened on none e = ((false, buffer), rw (on, read_file) (rw (e, read_file) refl), λ j le. refl)
    opened on (some entry) e =
        let size = if ltb max_size (file_size entry) then max_size else file_size entry in
        let small : size ≤ max_size = ground arith in
        let (result, done, rest) =
          read_clusters_lem disk s size fuel (first_cluster entry) 0 buffer pos (omega arith)
            (omega arith) in
        (
          result,
          read_file-found disk s fuel filename buffer max_size entry on e ∙ done,
          λ j le. rest j (inr (omega arith)),
        )
