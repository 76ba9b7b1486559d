-- ===== src/Fs/Lookup.antt =====
-- Looking a path up in src/kernel/fs.cpp after a node has been added.
use trieternal_x_os.Base.{
  ℕ, ◌+◌, ◌<◌, ◌≡◌, inl, inr, refl, ◌∙◌, ap, bit_or, true, ◌&&◌, Option, none, some, List, arith,
  if◌then◌else◌, length, find_from, find_from-congr, find_from-longer,
}
use trieternal_x_os.Base.Bytes.{has_bit}
use trieternal_x_os.Base.Text.{same_text}
use trieternal_x_os.Fs.{
  Fs, is_used, max_nodes, flag_used, has_path, find_node, add_node, stat, index_result,
}
use trieternal_x_os.Fs.Tree.{IsTree, Added}
use trieternal_x_os.Fs.Grown.{kept, fresh, add_node-Added}

-- The node that `path` names, in a table where `path'` has been added as the node `new`.
abbrev pub or_new : List ℕ → List ℕ → ℕ → Option ℕ → Option ℕ
or_new path' path new none = if same_text path' path then some new else none
or_new path' path new (some k) = some k

module _ {V : Type 0} {fs out : Fs V} {flag : ℕ} {path : List ℕ} (a : Added flag path fs out)
    (t : IsTree fs) (used : has_bit (bit_or flag flag_used) 2 ≡ true) where
  pub find_node-Added : (q : List ℕ) → find_node out q ≡ or_new path q fs.vfs_count (find_node fs q)
  unfolding find_node
  find_node-Added q =
      ap (λ n. find_from (has_path out q) n 0) a.count
      ∙ find_from-longer (has_path out q) fs.vfs_count 0
      ∙ ap (λ o. extended o) old
      ∙ merged (find_from (has_path fs q) fs.vfs_count 0)
    where
      extended : Option ℕ → Option ℕ
      extended o = elim o [
        | none ↦ if has_path out q (0 + fs.vfs_count) then some (0 + fs.vfs_count) else none
        | some k ↦ some k
      ]

      old : find_from (has_path out q) fs.vfs_count 0 ≡ find_from (has_path fs q) fs.vfs_count 0
      old =
          find_from-congr (has_path out q) (has_path fs q) fs.vfs_count 0
            (λ j lo hi. kept a (λ n. is_used n && same_text n.path q) (λ b c. refl) j (omega arith))

      new : has_path out q (0 + fs.vfs_count) ≡ same_text path q
      new =
          fresh a (λ n. is_used n && same_text n.path q) (0 + fs.vfs_count) (omega arith)
          ∙ ap (λ b. b && same_text path q) used

      merged : (o : Option ℕ) → extended o ≡ or_new path q fs.vfs_count o
      merged none = rw new (ap (λ n. if same_text path q then some n else none) (omega arith))
      merged (some k) = refl

-- Where the paths of the nodes and of a new one fit their fields, and the table has room: after the node has been
-- added for `path`, `vfs_stat` finds for every path what it found before, and the new node only for `path`
-- and only where that path was not there already.
pub stat-add_node :
    {V : Type 0} (flag : ℕ) (path q : List ℕ) (fs : Fs V)
    → IsTree fs
    → has_bit (bit_or flag flag_used) 2 ≡ true
    → fs.vfs_count < max_nodes
    → length path < 128
    → ((i : ℕ) → i < fs.vfs_count → length (fs.nodes i).path < 128)
    → stat (add_node flag path fs).1 q ≡ index_result (or_new path q fs.vfs_count (find_node fs q))
unfolding stat
stat-add_node flag path q fs t used room short fit = elim (add_node-Added flag path fs t used) [
  | inl (_, _, a, _) ↦ ap index_result (find_node-Added a t used q)
  | inr (full, _) ↦ absurd (omega arith)
]
