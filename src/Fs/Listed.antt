-- ===== src/Fs/Listed.antt =====
-- What `vfs_list` of src/kernel/fs.cpp and `api_list_files` of src/kernel/api.cpp list.
use trieternal_x_os.Base.{
  ℕ, zero, suc, ◌≤◌, ◌<◌, ◌≡◌, refl, ◌∙◌, true, Option, some, List, [], ◌∷◌, map, take, length,
  arith,
}
use trieternal_x_os.Base.Int.{pos}
use trieternal_x_os.Base.Text.{codes}
use trieternal_x_os.Fs.{Fs, is_used, max_nodes, find_node, get_node, stat}
use trieternal_x_os.Fs.Tree.{find_node-lt}
use trieternal_x_os.Fs.Siblings.{Siblings, IsLinked, children, Below, children-Below}
use trieternal_x_os.Fs.Listing.{
  text, color, list_line, virtual_file, list_loop, list, files_loop, list_files,
}

length-children : {V : Type 0} (fs : Fs V) (d n : ℕ) → length (children fs d n) ≤ n
unfolding children
length-children fs d zero = omega arith
length-children fs d (suc n) = ground (arith, length-children fs d n)

module _ {V : Type 0} (fs : Fs V) where
  list_loop_lem :
      (fuel : ℕ) (o : Option ℕ) (cs : List ℕ)
      → Siblings fs o cs
      → length cs < fuel
      → list_loop fs fuel o ≡ some (map (λ c. text (list_line (fs.nodes c))) cs)
  unfolding list_loop
  list_loop_lem zero o cs s f = absurd (omega arith)
  list_loop_lem (suc fuel) o [] s f = rw s refl
  list_loop_lem (suc fuel) o (c ∷ cs) s f =
      rw (s.0, list_loop)
        (rw (list_loop_lem fuel (fs.nodes c).next_sibling cs s.1 (omega arith), list_loop) refl)

  files_loop_lem :
      (fuel room : ℕ) (o : Option ℕ) (cs : List ℕ)
      → ((i : ℕ) → i < fs.vfs_count → get_node fs (pos i) ≡ some (fs.nodes i))
      → Below fs.vfs_count cs
      → Siblings fs o cs
      → length cs < fuel
      → files_loop fs fuel room o ≡ some (take room (map (λ c. virtual_file (fs.nodes c)) cs))
  unfolding files_loop
  files_loop_lem zero room o cs got b s f = absurd (omega arith)
  files_loop_lem (suc fuel) zero o [] got b s f = rw s refl
  files_loop_lem (suc fuel) (suc room) o [] got b s f = rw s refl
  files_loop_lem (suc fuel) zero o (c ∷ cs) got b s f = rw (s.0, files_loop) refl
  files_loop_lem (suc fuel) (suc room) o (c ∷ cs) got b s f =
      rw (s.0, files_loop)
        (rw (got c b.0, files_loop)
          (rw
            (
              files_loop_lem fuel room (fs.nodes c).next_sibling cs got b.1 s.1 (omega arith),
              files_loop,
            )
            refl))

  module _ (l : IsLinked fs) (fuel : ℕ) (enough : fs.vfs_count < fuel) where
    got_node : (i : ℕ) → i < fs.vfs_count → get_node fs (pos i) ≡ some (fs.nodes i)
    unfolding get_node
    got_node i lt =
        let small : i < max_nodes = omega (arith, l.tree.fits) in
        let in_use : is_used (fs.nodes i) ≡ true = l.tree.used i small ∙ ground arith in
        rw in_use (ground arith)

    -- With fuel for each node of the table `vfs_list` ends, and prints a line for each node whose
    -- parent has the path, the newest first.
    pub list_lem :
        (path : List ℕ) {d : ℕ}
        → find_node fs path ≡ some d
        → list fs fuel path
          ≡ some (
              color 11 0
              ∷ text (codes "  TYPE  NAME\n")
              ∷ color 15 0
              ∷ map (λ c. text (list_line (fs.nodes c))) (children fs d fs.vfs_count))
    unfolding list
    list_lem path {d} e =
        let lt = find_node-lt fs l.tree path {k = d} e in
        rw (e, list)
          (rw
            (
              list_loop_lem fuel (fs.nodes d).first_child (children fs d fs.vfs_count)
                  (l.listed d lt) (omega (arith, length-children fs d fs.vfs_count)),
              list,
            )
            refl)

    -- With fuel for each node of the table `api_list_files` ends, and hands out the first `max_files`
    -- of the nodes whose parent has the path, the newest first.
    pub list_files_lem :
        (path : List ℕ) (max_files : ℕ) {d : ℕ}
        → find_node fs path ≡ some d
        → list_files fs fuel path max_files
          ≡ some
              (take max_files (map (λ c. virtual_file (fs.nodes c)) (children fs d fs.vfs_count)))
    unfolding list_files stat
    list_files_lem path max_files {d} e =
        let lt = find_node-lt fs l.tree path {k = d} e in
        rw (e, list_files)
          (rw (got_node d lt, list_files)
            (files_loop_lem fuel max_files (fs.nodes d).first_child (children fs d fs.vfs_count)
              got_node (children-Below fs d fs.vfs_count fs.vfs_count (omega arith)) (l.listed d lt)
              (omega (arith, length-children fs d fs.vfs_count))))
