-- ===== src/Fat/Listed.antt =====
-- `fat_list_root` of src/kernel/fat.cpp writes the lines of the entries of the root directory.
use mathlib.Core.Path.{ap₂}
use mathlib.Core.List.{append_assoc}
use trieternal_x_os.Base.{
  ℕ, zero, suc, ◌+◌, ◌<◌, ◌≡◌, ◌⊎◌, inl, inr, refl, sym, ◌∙◌, ap, Bool, true, false, ◌||◌, Option,
  some, List, [], ◌∷◌, ◌++◌, arith, if◌then◌else◌, Bool-cases, length,
}
use trieternal_x_os.Base.Words.{add32}
use trieternal_x_os.Fat.{
  Disk, Fat, entry_at, get_cluster_sector, get_next_cluster, is_deleted, is_end,
}
use trieternal_x_os.Fat.Content.{IsDirectory}
use trieternal_x_os.Fat.Chain.{run, sectors_of}
use trieternal_x_os.Fat.Listing.{
  entry_line, heading, is_long_name, list_clusters, list_entries, list_root, list_sectors,
}

-- `n` entries of a sector from one on, and the entries of a list of sectors.
unfoldable pub entries : ℕ → ℕ → (ℕ → ℕ) → List (ℕ → ℕ)
entries zero i sector = []
entries (suc n) i sector = entry_at sector i ∷ entries n (i + 1) sector

unfoldable pub entries_of : (ℕ → ℕ → ℕ) → List ℕ → List (ℕ → ℕ)
entries_of f [] = []
entries_of f (x ∷ xs) = entries 16 0 (f x) ++ entries_of f xs

unfoldable has_end : List (ℕ → ℕ) → Bool
has_end [] = false
has_end (e ∷ es) = is_end e || has_end es

-- The lines of the entries before the end marker that are neither deleted nor part of a long name.
unfoldable pub lines_of : List (ℕ → ℕ) → List ℕ
lines_of [] = []
lines_of (e ∷ es) =
    let rest = lines_of es in
    if is_end e then [] else if is_deleted e || is_long_name e then rest else entry_line e ++ rest

-- What is known of some entries: if they hold the end marker, and their lines.
abbrev summary : List (ℕ → ℕ) → Bool × List ℕ
summary es = (has_end es, lines_of es)

abbrev join : Bool × List ℕ → Bool × List ℕ → Bool × List ℕ
join (true, lines) later = (true, lines)
join (false, lines) (over, more) = (over, lines ++ more)

lines_of-append :
    (xs ys : List (ℕ → ℕ))
    → lines_of (xs ++ ys) ≡ (if has_end xs then lines_of xs else lines_of xs ++ lines_of ys)
unfolding lines_of has_end
lines_of-append [] ys = refl
lines_of-append (e ∷ es) ys =
    ground (arith, lines_of-append es ys, append_assoc (entry_line e) (lines_of es) (lines_of ys))

has_end-append : (xs ys : List (ℕ → ℕ)) → has_end (xs ++ ys) ≡ (has_end xs || has_end ys)
unfolding has_end
has_end-append [] ys = refl
has_end-append (e ∷ es) ys = ground (arith, has_end-append es ys)

list_entries-ended :
    (n i : ℕ) (sector : ℕ → ℕ) → (list_entries n i sector).0 ≡ has_end (entries n i sector)
unfolding list_entries has_end entries
list_entries-ended zero i sector = refl
list_entries-ended (suc n) i sector = ground (arith, list_entries-ended n (i + 1) sector)

list_entries-lines :
    (n i : ℕ) (sector : ℕ → ℕ) → (list_entries n i sector).1 ≡ lines_of (entries n i sector)
unfolding list_entries lines_of entries
list_entries-lines zero i sector = refl
list_entries-lines (suc n) i sector = ground (arith, list_entries-lines n (i + 1) sector)

-- The root directory: of a fixed size, or along a chain of clusters that ends; its sectors.
abbrev pub IsRoot : Disk → Fat → List ℕ → Type 0
IsRoot disk s cs =
    ((s.is_fat32 ≡ false) × (cs ≡ []))
    ⊎ ((s.is_fat32 ≡ true) × IsDirectory disk s s.root_cluster cs)

unfoldable pub root_sectors : Fat → List ℕ → List ℕ
root_sectors s cs = if s.is_fat32 then sectors_of s cs else run s.root_dir_sectors s.root_dir_sector

entries_of-append :
    (f : ℕ → ℕ → ℕ) (xs ys : List ℕ) → entries_of f (xs ++ ys) ≡ entries_of f xs ++ entries_of f ys
unfolding entries_of
entries_of-append f [] ys = refl
entries_of-append f (x ∷ xs) ys =
    ap (λ r. entries 16 0 (f x) ++ r) (entries_of-append f xs ys)
    ∙ sym (append_assoc (entries 16 0 (f x)) (entries_of f xs) (entries_of f ys))

summary-append : (xs ys : List (ℕ → ℕ)) → summary (xs ++ ys) ≡ join (summary xs) (summary ys)
summary-append xs ys = elim (Bool-cases (has_end xs)) [
  | inl e ↦
      let ends = has_end-append xs ys in
      let joins = lines_of-append xs ys in
      ap₂ (λ a b. (a, b)) (ground (arith, ends, e)) (ground (arith, joins, e))
      ∙ ap (λ b. join (b, lines_of xs) (summary ys)) (sym e)
  | inr e ↦
      let ends = has_end-append xs ys in
      let joins = lines_of-append xs ys in
      ap₂ (λ a b. (a, b)) (ground (arith, ends, e)) (ground (arith, joins, e))
      ∙ ap (λ b. join (b, lines_of xs) (summary ys)) (sym e)
]

module _ (disk : Disk) (s : Fat) (f : ℕ → ℕ → ℕ)
    (reads : (x : ℕ) → disk.read_sector x ≡ some (f x)) where
  list_sectors-join :
      (n sector : ℕ)
      → list_sectors disk s (suc n) sector
        ≡ join (list_entries 16 0 (f sector)) (list_sectors disk s n (add32 sector 1))
  unfolding list_sectors
  list_sectors-join n sector =
      rw (reads sector, list_sectors)
        (cases (list_entries 16 0 (f sector)) (list_sectors disk s n (add32 sector 1)))
    where
      cases :
          (here later : Bool × List ℕ)
          → (if here.0 then (true, here.1) else (later.0, here.1 ++ later.1)) ≡ join here later
      cases (true, lines) later = refl
      cases (false, lines) (over, more) = refl

  list_sectors_lem :
      (n sector : ℕ) → list_sectors disk s n sector ≡ summary (entries_of f (run n sector))
  unfolding run entries_of list_sectors has_end lines_of
  list_sectors_lem zero sector = refl
  list_sectors_lem (suc n) sector =
      let here = entries 16 0 (f sector) in
      list_sectors-join n sector
      ∙ ap₂ join
          (ap₂ (λ a b. (a, b)) (list_entries-ended 16 0 (f sector))
            (list_entries-lines 16 0 (f sector)))
          (list_sectors_lem n (add32 sector 1))
      ∙ sym (summary-append here (entries_of f (run n (add32 sector 1))))

  none_left : ◌≡◌ {A = Option (List ℕ)} (some []) (some (lines_of (entries_of f (sectors_of s []))))
  unfolding lines_of entries_of sectors_of
  none_left = refl

  sectors_of-lines :
      (c : ℕ) (cs : List ℕ)
      → lines_of (entries_of f (sectors_of s (c ∷ cs))) ≡ (
          if has_end (entries_of f (run s.sectors_per_cluster (get_cluster_sector s c)))
          then lines_of (entries_of f (run s.sectors_per_cluster (get_cluster_sector s c)))
          else lines_of (entries_of f (run s.sectors_per_cluster (get_cluster_sector s c)))
            ++ lines_of (entries_of f (sectors_of s cs)))
  unfolding sectors_of
  sectors_of-lines c cs =
      ap lines_of
        (entries_of-append f (run s.sectors_per_cluster (get_cluster_sector s c)) (sectors_of s cs))
      ∙ lines_of-append (entries_of f (run s.sectors_per_cluster (get_cluster_sector s c)))
          (entries_of f (sectors_of s cs))

  list_clusters_lem :
      (cs : List ℕ) (fuel cluster : ℕ)
      → IsDirectory disk s cluster cs
      → length cs < fuel
      → list_clusters disk s fuel cluster ≡ some (lines_of (entries_of f (sectors_of s cs)))
  unfolding list_clusters
  list_clusters_lem cs zero cluster dir fu = absurd (omega arith)
  list_clusters_lem [] (suc fuel) cluster dir fu = rw (dir, list_clusters) (none_left)
  list_clusters_lem (c ∷ cs) (suc fuel) cluster (same, goes, dir) fu =
      let here = entries_of f (run s.sectors_per_cluster (get_cluster_sector s c)) in
      let later = entries_of f (sectors_of s cs) in
      let r = list_sectors_lem s.sectors_per_cluster (get_cluster_sector s c) in
      let rest = list_clusters_lem cs fuel (get_next_cluster disk s c) dir (omega arith) in
      let all = sectors_of-lines c cs in
      rw same (
        rw (goes, list_clusters)
          (elim (Bool-cases (has_end here)) [
            | inl e ↦
                let ended = ap (λ r. r.0) r ∙ e in
                rw (ended, list_clusters)
                  (ap some (ap (λ r. r.1) r ∙ sym (all ∙ ground (arith, e))))
            | inr e ↦
                let ended = ap (λ r. r.0) r ∙ e in
                rw (ended, list_clusters)
                  (rw (rest, list_clusters)
                    (ap (λ r. some (r.1 ++ lines_of later)) r
                      ∙ ap some (sym (all ∙ ground (arith, e)))))
          ]))

-- Where each sector can be read and the root directory is of a fixed size, or ends after fewer clusters than the
-- fuel, `fat_list_root` ends, and writes behind its heading the lines of the entries of the whole root
-- directory up to its end marker, but those that are deleted or part of a long name.
pub list_root_lem :
    (disk : Disk) (s : Fat) (f : ℕ → ℕ → ℕ) (cs : List ℕ) (fuel : ℕ)
    → ((x : ℕ) → disk.read_sector x ≡ some (f x))
    → s.fat_active ≡ true
    → IsRoot disk s cs
    → length cs < fuel
    → list_root disk s fuel ≡ some (heading ++ lines_of (entries_of f (root_sectors s cs)))
unfolding list_root root_sectors sectors_of get_cluster_sector
list_root_lem disk s f cs fuel reads on (inl (small, none_more)) fu =
    rw (on, list_root)
      (rw (small, list_root)
        (ap (λ r. some (heading ++ r.1))
          (list_sectors_lem disk s f reads s.root_dir_sectors s.root_dir_sector)))
list_root_lem disk s f cs fuel reads on (inr (big, dir)) fu =
    rw (on, list_root)
      (rw (big, list_root)
        (rw (list_clusters_lem disk s f reads cs fuel s.root_cluster dir fu, list_root) refl))
