-- ===== src/Api/Files.antt =====
-- `api_write_file_legacy` and `api_read_file` of src/kernel/api.cpp together.
use trieternal_x_os.Base.{
  ℕ, ◌<◌, ◌≡◌, ◌≢◌, inl, inr, refl, ◌∙◌, ap, true, Option, some, List, arith, length, find_from,
  find_from-congr,
}
use trieternal_x_os.Base.Int.{pos}
use trieternal_x_os.Fs.{
  Node, Allocator, Fs, byte_at, max_nodes, flag_file, create, has_path, find_node, write, stat,
  get_node,
}
use trieternal_x_os.Fs.Tree.{IsTree, Added, find_node-lt}
use trieternal_x_os.Fs.Grown.{kept, add_node-Added}
use trieternal_x_os.Fs.Lookup.{find_node-Added, or_new}
use trieternal_x_os.Api.{read_file, write_file_legacy, write_to}

module _ {V : Type 0} (ops : Allocator V) (fd count : ℕ) (src : ℕ → ℕ) (fs : Fs V) where
  -- A write leaves all paths and flags.
  write-path :
      (q : List ℕ) (i : ℕ) → has_path (write ops (pos fd) src count fs).1 q i ≡ has_path fs q i
  unfolding write
  write-path q i = ground arith

  write-other : (i : ℕ) → i ≢ fd → (write ops (pos fd) src count fs).1.nodes i ≡ fs.nodes i
  unfolding write
  write-other i ne = ground arith

  write-count : (write ops (pos fd) src count fs).1.vfs_count ≡ fs.vfs_count
  unfolding write
  write-count = ground arith

  write-find_node : (q : List ℕ) → find_node (write ops (pos fd) src count fs).1 q ≡ find_node fs q
  unfolding find_node
  write-find_node q =
      ap (λ n. find_from (has_path (write ops (pos fd) src count fs).1 q) n 0) write-count
      ∙ find_from-congr (has_path (write ops (pos fd) src count fs).1 q) (has_path fs q)
          fs.vfs_count 0 (λ i lo hi. write-path q i)

-- `api_read_file` reads the flags and the block of the node that the path names.
read_file-congr :
    {V : Type 0} (fs out : Fs V) (path : List ℕ) {k : ℕ}
    → find_node fs path ≡ some k
    → find_node out path ≡ some k
    → (out.nodes k).flags ≡ (fs.nodes k).flags
    → (out.nodes k).block ≡ (fs.nodes k).block
    → read_file out path ≡ read_file fs path
unfolding read_file stat get_node
read_file-congr fs out path {k} e e' flags block =
    rw (e, read_file) (rw (e', read_file) (rw flags (ground arith)))

-- Where a path is there already and the table has room, `api_write_file_legacy` reports success, and
-- `api_read_file` gives for that path what it gave before: the content went to a second node.
pub read_file-write_file_legacy :
    {V : Type 0} (ops : Allocator V) (path content : List ℕ) (fs : Fs V) {k : ℕ}
    → IsTree fs
    → fs.vfs_count < max_nodes
    → find_node fs path ≡ some k
    → ((write_file_legacy ops path content fs).0 ≡ true)
      × (read_file (write_file_legacy ops path content fs).1 path ≡ read_file fs path)
unfolding write_file_legacy create write_to
read_file-write_file_legacy ops path content fs {k} t room e =
    elim (add_node-Added flag_file path fs t refl) [
      | inr (full, _) ↦ absurd (omega arith)
      | inl (_, result, a, t') ↦
          rw (result, write_to)
            (
              refl,
              read_file-congr fs
                  (write ops (pos fs.vfs_count) (byte_at content) (length content)
                    (create path fs).1).1
                  path {k = k} e
                  (write-find_node ops fs.vfs_count (length content) (byte_at content)
                      (create path fs).1 path
                    ∙ find_node-Added a t refl path
                    ∙ ap (or_new path path fs.vfs_count) e)
                  (old (λ n. n.flags) (λ b c. refl) a) (old (λ n. n.block) (λ b c. refl) a),
            )
    ]
  where
    old :
        {A : Type 0} (f : Node → A)
        → ((b : Node) (c : Option ℕ) → f (record b { first_child = c }) ≡ f b)
        → Added flag_file path fs (create path fs).1
        → f (
            (write ops
                (pos fs.vfs_count)
                (byte_at content)
                (length content)
                (create path fs).1).1.nodes
              k)
          ≡ f (fs.nodes k)
    old f free a =
        let ne : k ≢ fs.vfs_count = omega (arith, find_node-lt fs t path {k = k} e) in
        ap f
          (write-other ops fs.vfs_count (length content) (byte_at content) (create path fs).1 k ne)
        ∙ kept a f free k ne
