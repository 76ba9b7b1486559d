-- ===== src/Fat.antt =====
-- The FAT reader, src/kernel/fat.cpp, over a disk. A sector is a function of the offset; from the
-- offset 512 on it stands for what is behind the buffer. The functions that only find an entry of the
-- root directory share their text, which is `find_entry`.
pub mod Content
pub mod Chain
pub mod Volume
pub mod Listing
mod Listed
pub mod Name
pub mod Directory
mod Examples
use trieternal_x_os.Base.{
  ℕ, zero, suc, ◌+◌, ◌-◌, ◌*◌, ◌/◌, ◌%◌, ◌^◌, Bool, true, false, not, ◌&&◌, ◌||◌, Option, none,
  some, List, [], ◌∷◌, ◌++◌, ltb, leb, ◌==◌, if◌then◌else◌, update, append_from,
}
use trieternal_x_os.Base.Words.{add32, sub32, mul32}

-- `ata_disk_exists`, and what `ata_read_sectors` gives for one sector, if it succeeds.
pub record Disk : Type 0 where
  pub disk_exists : Bool
  pub read_sector : ℕ → Option (ℕ → ℕ)

pub record Fat : Type 0 where
  pub fat_active : Bool
  pub is_fat32 : Bool
  pub bytes_per_sector : ℕ
  pub sectors_per_cluster : ℕ
  pub reserved_sectors : ℕ
  pub fat_count : ℕ
  pub sectors_per_fat : ℕ
  pub root_dir_sector : ℕ
  pub root_dir_sectors : ℕ
  pub data_sector : ℕ
  pub root_cluster : ℕ

-- A field of two bytes, and one of four.
abbrev pub half_at : (ℕ → ℕ) → ℕ → ℕ
half_at b a = b a + 256 * b (a + 1)

abbrev pub word_at : (ℕ → ℕ) → ℕ → ℕ
word_at b a = half_at b a + 2 ^ 16 * half_at b (a + 2)

abbrev pub upper : ℕ → ℕ
upper c = if leb b'a' c && leb c b'z' then c - 32 else c

-- The two loops of `to_fat_name`; the first one leaves what it has not read.
unfoldable pub name_loop : List ℕ → ℕ → (ℕ → ℕ) → List ℕ × (ℕ → ℕ)
name_loop [] dest_idx dest = ([], dest)
name_loop (c ∷ src) dest_idx dest =
    let rest = name_loop src (dest_idx + 1) (update dest dest_idx (upper c)) in
    if c == b'.' || leb 8 dest_idx then (c ∷ src, dest) else rest

unfoldable pub ext_loop : List ℕ → ℕ → (ℕ → ℕ) → ℕ → ℕ
ext_loop [] dest_idx dest = dest
ext_loop (c ∷ src) dest_idx dest =
    let rest = ext_loop src (dest_idx + 1) (update dest dest_idx (upper c)) in
    if ltb dest_idx 11 then rest else dest

abbrev pub add_ext : List ℕ → (ℕ → ℕ) → ℕ → ℕ
add_ext [] dest = dest
add_ext (c ∷ src) dest = if c == b'.' then ext_loop src 8 dest else dest

-- The 11 bytes of `dest`.
unfoldable pub to_fat_name : List ℕ → ℕ → ℕ
unfolding name_loop ext_loop
to_fat_name src = let (rest, dest) = name_loop src 0 (λ i. b' ') in add_ext rest dest

unfoldable pub match_from : ℕ → ℕ → (ℕ → ℕ) → (ℕ → ℕ) → Bool
match_from zero i name1 name2 = true
match_from (suc n) i name1 name2 =
    let rest = match_from n (i + 1) name1 name2 in if name1 i == name2 i then rest else false

unfoldable pub fat_name_match : (ℕ → ℕ) → (ℕ → ℕ) → Bool
unfolding match_from
fat_name_match name1 name2 = match_from 11 0 name1 name2

-- `entries[i]`
abbrev pub entry_at : (ℕ → ℕ) → ℕ → ℕ → ℕ
entry_at sector i j = sector (32 * i + j)

abbrev pub is_end : (ℕ → ℕ) → Bool
is_end entry = entry 0 == 0

abbrev pub is_deleted : (ℕ → ℕ) → Bool
is_deleted entry = entry 0 == 0xE5

abbrev pub attr : (ℕ → ℕ) → ℕ
attr entry = entry 11

abbrev pub first_cluster : (ℕ → ℕ) → ℕ
first_cluster entry = half_at entry 20 * 2 ^ 16 + half_at entry 26

abbrev pub file_size : (ℕ → ℕ) → ℕ
file_size entry = word_at entry 28

-- The loop over the entries of a sector, for `n` entries from `i` on.
unfoldable pub scan_entries : ℕ → ℕ → (ℕ → ℕ) → (ℕ → ℕ) → Option (ℕ → ℕ)
unfolding fat_name_match
scan_entries zero i sector name = none
scan_entries (suc n) i sector name =
    let rest = scan_entries n (i + 1) sector name in
    if is_end (entry_at sector i)
    then none
    else if is_deleted (entry_at sector i)
    then rest
    else if fat_name_match (entry_at sector i) name
    then some (entry_at sector i)
    else rest

-- `fat_init`: `none` where it divides by zero.
unfoldable pub init : Disk → Fat → Option Fat
init disk s =
    let off = record s { fat_active = false } in
    elim disk.disk_exists [
      | false ↦ some off
      | true ↦ elim (disk.read_sector 0) [
        | none ↦ some off
        | some b ↦
            let bytes = half_at b 11 in
            let per_cluster = b 13 in
            let reserved = half_at b 14 in
            let count = b 16 in
            let total = if half_at b 19 == 0 then word_at b 32 else half_at b 19 in
            let per_fat = if half_at b 22 == 0 then word_at b 36 else half_at b 22 in
            let root_sectors = (half_at b 17 * 32 + (bytes - 1)) / bytes in
            let tables = add32 reserved (mul32 count per_fat) in
            let data_sectors = sub32 total (add32 tables root_sectors) in
            let found = record s {
              bytes_per_sector = bytes;
              sectors_per_cluster = per_cluster;
              reserved_sectors = reserved;
              fat_count = count;
              sectors_per_fat = per_fat;
              root_dir_sectors = root_sectors;
              fat_active = true;
            } in
            if not (b 510 == 0x55) || not (b 511 == 0xAA)
            then some off
            else if bytes == 0 || per_cluster == 0
            then none
            else if leb 65525 (data_sectors / per_cluster)
            then some (record found {
              is_fat32 = true;
              root_cluster = word_at b 44;
              data_sector = tables;
            })
            else some (record found {
              is_fat32 = false;
              root_dir_sector = tables;
              data_sector = add32 tables root_sectors;
            })
      ]
    ]

unfoldable pub is_active : Fat → Bool
is_active s = s.fat_active

unfoldable pub get_cluster_sector : Fat → ℕ → ℕ
get_cluster_sector s cluster = add32 s.data_sector (mul32 (sub32 cluster 2) s.sectors_per_cluster)

-- The entry of the table for a cluster, of `width` bytes.
abbrev pub table_sector : Fat → ℕ → ℕ → ℕ
table_sector s width cluster = add32 s.reserved_sectors (mul32 cluster width / s.bytes_per_sector)

abbrev pub table_offset : Fat → ℕ → ℕ → ℕ
table_offset s width cluster = mul32 cluster width % s.bytes_per_sector

module _ (disk : Disk) (s : Fat) where
  unfoldable pub get_next_cluster : ℕ → ℕ
  get_next_cluster cluster =
      if s.is_fat32
      then elim (disk.read_sector (table_sector s 4 cluster)) [
        | none ↦ 0x0FFFFFFF
        | some b ↦ word_at b (table_offset s 4 cluster) % 2 ^ 28
      ]
      else elim (disk.read_sector (table_sector s 2 cluster)) [
        | none ↦ 0xFFFF
        | some b ↦ half_at b (table_offset s 2 cluster)
      ]

  -- The search in `n` sectors from `sector` on.
  unfoldable pub find_in_sectors : ℕ → ℕ → (ℕ → ℕ) → Option (ℕ → ℕ)
  unfolding scan_entries
  find_in_sectors zero sector name = none
  find_in_sectors (suc n) sector name =
      let rest = find_in_sectors n (add32 sector 1) name in
      elim (disk.read_sector sector) [
        | none ↦ none
        | some b ↦ elim (scan_entries 16 0 b name) [ none ↦ rest | some entry ↦ some entry ]
      ]

  -- The search along the clusters of the root directory; the fuel bounds its rounds.
  unfoldable pub find_in_clusters : ℕ → ℕ → (ℕ → ℕ) → Option (Option (ℕ → ℕ))
  unfolding find_in_sectors
  find_in_clusters zero cluster name = none
  find_in_clusters (suc fuel) cluster name = elim (ltb cluster 0x0FFFFFF8) [
    | false ↦ some none
    | true ↦ elim (find_in_sectors s.sectors_per_cluster (get_cluster_sector s cluster) name) [
      | some entry ↦ some (some entry)
      | none ↦ find_in_clusters fuel (get_next_cluster cluster) name
    ]
  ]

  unfoldable pub find_entry : ℕ → (ℕ → ℕ) → Option (Option (ℕ → ℕ))
  find_entry fuel name =
      if s.is_fat32
      then find_in_clusters fuel s.root_cluster name
      else some (find_in_sectors s.root_dir_sectors s.root_dir_sector name)

  -- The inner loop of `fat_read_file`: `n` sectors, with the bytes read so far and the caller's buffer;
  -- `none` where a sector cannot be read, with the buffer.
  unfoldable pub read_sectors : ℕ → ℕ → ℕ → ℕ → (ℕ → ℕ) → Bool × ℕ × (ℕ → ℕ)
  read_sectors zero sector bytes_read size out = (true, bytes_read, out)
  read_sectors (suc n) sector bytes_read size out =
      let count = if ltb (size - bytes_read) 512 then size - bytes_read else 512 in
      elim (leb size bytes_read) [
        | true ↦ (true, bytes_read, out)
        | false ↦ elim (disk.read_sector sector) [
          | none ↦ (false, bytes_read, out)
          | some b ↦
              read_sectors n (add32 sector 1) (bytes_read + count) size
                (append_from count 0 bytes_read b out)
        ]
      ]

  abbrev pub is_last : ℕ → Bool
  is_last cluster =
      (if s.is_fat32 then leb 0x0FFFFFF8 cluster else leb 0xFFF8 cluster) || cluster == 0

  -- The outer loop: the result, and the caller's buffer.
  unfoldable pub read_clusters : ℕ → ℕ → ℕ → ℕ → (ℕ → ℕ) → Option (Bool × (ℕ → ℕ))
  read_clusters zero cluster bytes_read size out = none
  read_clusters (suc fuel) cluster bytes_read size out =
      let (ok, count, out1) =
        read_sectors s.sectors_per_cluster (get_cluster_sector s cluster) bytes_read size out in
      elim (leb size bytes_read || is_last cluster) [
        | true ↦ some (true, out)
        | false ↦ elim ok [
          | false ↦ some (false, out1)
          | true ↦ read_clusters fuel (get_next_cluster cluster) count size out1
        ]
      ]

  unfoldable pub read_file : ℕ → List ℕ → (ℕ → ℕ) → ℕ → Option (Bool × (ℕ → ℕ))
  read_file fuel filename buffer max_size = elim s.fat_active [
    | false ↦ some (false, buffer)
    | true ↦ elim (find_entry fuel (to_fat_name filename)) [
      | none ↦ none
      | some none ↦ some (false, buffer)
      | some (some entry) ↦
          read_clusters fuel (first_cluster entry) 0
            (if ltb max_size (file_size entry) then max_size else file_size entry) buffer
    ]
  ]

  unfoldable pub get_file_size : ℕ → List ℕ → Option ℕ
  get_file_size fuel filename = elim s.fat_active [
    | false ↦ some 0
    | true ↦ elim (find_entry fuel (to_fat_name filename)) [
      | none ↦ none
      | some none ↦ some 0
      | some (some entry) ↦ some (file_size entry)
    ]
  ]
