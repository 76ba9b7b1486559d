-- ===== src/Fat/Examples.antt =====
-- A small FAT16 disk with one file, for src/kernel/fat.cpp.
use trieternal_x_os.Base.{
  ℕ, ◌+◌, ◌-◌, ◌≤◌, ◌<◌, ◌≡◌, ◌⊎◌, inl, refl, Bool, true, false, none, some, List, [], ◌∷◌, ◌++◌,
  arith, ltb, ◌||◌, ◌==◌, if◌then◌else◌,
}
use trieternal_x_os.Base.Text.{codes}
use trieternal_x_os.Fat.{
  Disk, Fat, init, is_end, entry_at, fat_name_match, find_entry, find_in_sectors, match_from,
  read_file, scan_entries, to_fat_name, name_loop, ext_loop,
}
use trieternal_x_os.Fat.Chain.{byte_of}
use trieternal_x_os.Fat.Volume.{file_sectors, read_file-bytes, size_in}
use trieternal_x_os.Fat.Content.{read_file_lem}
use trieternal_x_os.Fat.Directory.{IsNamed, Passes, scan_entries_lem}
use trieternal_x_os.Fat.Listed.{entries_of, lines_of, list_root_lem, root_sectors}
use trieternal_x_os.Fat.Listing.{heading, list_root}
use trieternal_x_os.Fat.Name.{char_at, to_fat_name_lem}

abbrev byte_at : List ℕ → ℕ → ℕ
byte_at [] i = 0
byte_at (c ∷ l) i = if i == 0 then c else byte_at l (i - 1)

-- One FAT of one sector, one sector of root entries, clusters of one sector: the file is the cluster 2.
abbrev boot : ℕ → ℕ
boot j =
    if j == 12
    then 2
    else if j == 13 || j == 14 || j == 16 || j == 22
    then 1
    else if j == 17
    then 16
    else if j == 19
    then 20
    else if j == 510
    then 0x55
    else if j == 511
    then 0xAA
    else 0

abbrev table : ℕ → ℕ
table j = if j == 4 || j == 5 then 0xFF else 0

abbrev root : ℕ → ℕ
root j =
    if ltb j 11
    then byte_at (codes "A       TXT") j
    else if j == 11
    then 0x20
    else if j == 26
    then 2
    else if j == 28
    then 3
    else 0

abbrev sector : ℕ → ℕ → ℕ
sector x j =
    if x == 0
    then boot j
    else if x == 1
    then table j
    else if x == 2
    then root j
    else byte_at (codes "Hi\n") j

abbrev disk : Disk
disk = record { disk_exists = true; read_sector = λ x. some (sector x) }

abbrev blank : Fat
blank = record {
  fat_active = false;
  is_fat32 = false;
  bytes_per_sector = 0;
  sectors_per_cluster = 0;
  reserved_sectors = 0;
  fat_count = 0;
  sectors_per_fat = 0;
  root_dir_sector = 0;
  root_dir_sectors = 0;
  data_sector = 0;
  root_cluster = 0;
}

abbrev mounted : Fat
mounted = record blank {
  fat_active = true;
  bytes_per_sector = 512;
  sectors_per_cluster = 1;
  reserved_sectors = 1;
  fat_count = 1;
  sectors_per_fat = 1;
  root_dir_sector = 2;
  root_dir_sectors = 1;
  data_sector = 3;
}

mounts : init disk blank ≡ some mounted
unfolding init
mounts = refl

abbrev file : ℕ → ℕ
file = entry_at root 0

finds : find_entry disk mounted 5 (to_fat_name (codes "a.txt")) ≡ some (some file)
unfolding find_entry find_in_sectors scan_entries fat_name_match match_from to_fat_name name_loop
    ext_loop
finds = refl

read_file_lem_example :
    (result : Bool × (ℕ → ℕ)) × (read_file disk mounted 5 (codes "a.txt") (λ i. 7) 4 ≡ some result)
    × ((j : ℕ) → 4 ≤ j → result.1 j ≡ 7)
read_file_lem_example =
    read_file_lem disk mounted 5 (codes "a.txt") (λ i. 7) 4 (omega arith) (inl refl) (omega arith)

read_file-bytes_example :
    (copy : ℕ → ℕ) × (read_file disk mounted 5 (codes "a.txt") (λ i. 7) 4 ≡ some (true, copy))
    × ((j : ℕ)
        → j < size_in file
        → j < 4
        → copy j ≡ byte_of sector (file_sectors mounted (2 ∷ [])) j)
unfolding file_sectors
read_file-bytes_example =
    read_file-bytes disk mounted sector 5 (codes "a.txt") (λ i. 7) 4 file (2 ∷ []) (λ x. refl) refl
      refl (omega arith) (omega arith) finds
      (refl, record { first = omega arith; unmarked = omega arith; on_disk = omega arith }, tt)
      (omega arith) (omega arith)

to_fat_name_lem_example :
    (to_fat_name (codes "a.txt") 9 ≡ char_at (codes "txt") 1) × (to_fat_name (codes "a") 9 ≡ b' ')
to_fat_name_lem_example =
    to_fat_name_lem (codes "a") (codes "txt") 9 (refl, tt) (omega arith) (omega arith)

list_root_lem_example :
    list_root disk mounted 1
    ≡ some (heading ++ lines_of (entries_of sector (root_sectors mounted [])))
list_root_lem_example =
    list_root_lem disk mounted sector [] 1 (λ x. refl) refl (inl (refl, refl)) (omega arith)

scan_entries_lem_example :
    ((k : ℕ) × (k < 16)
      × Passes root (to_fat_name (codes "a.txt")) 0 k
      × IsNamed (entry_at root (0 + k)) (to_fat_name (codes "a.txt"))
      × (scan_entries 16 0 root (to_fat_name (codes "a.txt")) ≡ some (entry_at root (0 + k))))
    ⊎ ((k : ℕ) × (k ≤ 16)
        × Passes root (to_fat_name (codes "a.txt")) 0 k
        × ((k ≡ 16) ⊎ (is_end (entry_at root (0 + k)) ≡ true))
        × (scan_entries 16 0 root (to_fat_name (codes "a.txt")) ≡ none))
scan_entries_lem_example = scan_entries_lem 16 0 root (to_fat_name (codes "a.txt"))
