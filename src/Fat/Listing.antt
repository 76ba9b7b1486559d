-- ===== src/Fat/Listing.antt =====
-- `fat_list_root` of src/kernel/fat.cpp: the text that it writes to the terminal.
use trieternal_x_os.Base.{
  ℕ, zero, suc, ◌+◌, Bool, true, false, not, ◌&&◌, Option, none, some, List, [], ◌∷◌, ◌++◌, ltb,
  ◌==◌, if◌then◌else◌, bit_and,
}
use trieternal_x_os.Base.Text.{codes}
use trieternal_x_os.Base.Decimal.{write_dec}
use trieternal_x_os.Base.Words.{add32}
use trieternal_x_os.Fat.{
  Disk, Fat, attr, entry_at, file_size, get_cluster_sector, get_next_cluster, is_deleted, is_end,
}

abbrev pub is_dir : (ℕ → ℕ) → Bool
is_dir entry = not (bit_and (attr entry) 0x10 == 0)

abbrev pub is_long_name : (ℕ → ℕ) → Bool
is_long_name entry = bit_and (attr entry) 0x0F == 0x0F

-- The loop over the characters of a name, for `n` of them from `c` on.
unfoldable pub name_chars : ℕ → ℕ → (ℕ → ℕ) → List ℕ
name_chars zero c entry = []
name_chars (suc n) c entry =
    let rest = name_chars n (c + 1) entry in
    (if c == 8 && not (is_dir entry) then b'.' ∷ [] else [])
    ++ ((if entry c == b' ' then [] else entry c ∷ []) ++ rest)

unfoldable pub entry_line : (ℕ → ℕ) → List ℕ
unfolding name_chars
entry_line entry =
    name_chars 11 0 entry
    ++ codes "     "
    ++ (if is_dir entry then codes "<DIR>       " else codes "<FILE>      ")
    ++ write_dec (file_size entry)
    ++ codes "\n"

-- The loop over the entries of a sector: if the end of the directory was met, and the text.
unfoldable pub list_entries : ℕ → ℕ → (ℕ → ℕ) → Bool × List ℕ
unfolding entry_line
list_entries zero i sector = (false, [])
list_entries (suc n) i sector =
    let (ended, rest) = list_entries n (i + 1) sector in
    if is_end (entry_at sector i)
    then (true, [])
    else if is_deleted (entry_at sector i)
    then (ended, rest)
    else if is_long_name (entry_at sector i)
    then (ended, rest)
    else (ended, entry_line (entry_at sector i) ++ rest)

abbrev pub heading : List ℕ
heading =
    codes "Daftar berkas di partisi disk (FAT):\n"
    ++ codes "Nama Berkas     Atribut     Ukuran (Bytes)\n"
    ++ codes "-------------------------------------------\n"

module _ (disk : Disk) (s : Fat) where
  -- The loop over `n` sectors.
  unfoldable pub list_sectors : ℕ → ℕ → Bool × List ℕ
  unfolding list_entries
  list_sectors zero sector = (false, [])
  list_sectors (suc n) sector =
      let (over, more) = list_sectors n (add32 sector 1) in
      elim (disk.read_sector sector) [
        | none ↦ (false, [])
        | some b ↦
            let (ended, lines) = list_entries 16 0 b in
            if ended then (true, lines) else (over, lines ++ more)
      ]

  -- The loop over the clusters; the fuel bounds its rounds.
  unfoldable pub list_clusters : ℕ → ℕ → Option (List ℕ)
  unfolding list_sectors
  list_clusters zero cluster = none
  list_clusters (suc fuel) cluster = elim (ltb cluster 0x0FFFFFF8) [
    | false ↦ some []
    | true ↦
        let (ended, lines) = list_sectors s.sectors_per_cluster (get_cluster_sector s cluster) in
        elim ended [
          | true ↦ some lines
          | false ↦ elim (list_clusters fuel (get_next_cluster disk s cluster)) [
            | none ↦ none
            | some more ↦ some (lines ++ more)
          ]
        ]
  ]

  unfoldable pub list_root : ℕ → Option (List ℕ)
  unfolding list_clusters
  list_root fuel =
      if not s.fat_active
      then some (codes "FAT Filesystem tidak aktif / tidak terdeteksi.\n")
      else if not s.is_fat32
      then some (heading ++ (list_sectors s.root_dir_sectors s.root_dir_sector).1)
      else elim (list_clusters fuel s.root_cluster) [
        | none ↦ none
        | some more ↦ some (heading ++ more)
      ]
