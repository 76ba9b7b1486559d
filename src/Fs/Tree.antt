-- ===== src/Fs/Tree.antt =====
-- The order of the nodes of src/kernel/fs.cpp, and a new node behind all others.
use trieternal_x_os.Base.{
  ℕ, ◌+◌, ◌≤◌, ◌<◌, ◌≡◌, ◌≢◌, inl, inr, bit_or, Bool, false, not, Option, none, some, List, arith,
  ltb, ◌==◌, if◌then◌else◌, Bool-cases, Option-cases, find_from-some, find_from-hit,
}
use trieternal_x_os.Fs.{
  Node, Fs, is_used, max_nodes, flag_used, null, stored_name, base_name, last_slash, parent_path,
  node_init, find_node, has_path, alloc_node, find_parent, link_child, count_node,
}

-- The used nodes are those below `vfs_count`; a parent has a smaller index than its children, and
-- each child a smaller one than the sibling in front of it. A node need not have a parent: one whose directory
-- is missing has none.
pub record IsTree {V : Type 0} (fs : Fs V) : Type 0 where
  pub some_node : 0 < fs.vfs_count
  pub fits : fs.vfs_count ≤ max_nodes
  pub used : (i : ℕ) → i < max_nodes → is_used (fs.nodes i) ≡ ltb i fs.vfs_count
  pub parent : (i p : ℕ) → i < fs.vfs_count → (fs.nodes i).parent_idx ≡ some p → p < i
  pub child :
      (i c : ℕ)
      → i < fs.vfs_count
      → (fs.nodes i).first_child ≡ some c
      → (i < c) × (c < fs.vfs_count)
  pub sibling : (i s : ℕ) → i < fs.vfs_count → (fs.nodes i).next_sibling ≡ some s → s < i

abbrev pub first_child_of : {V : Type 0} → Fs V → Option ℕ → Option ℕ
first_child_of fs none = none
first_child_of fs (some p) = (fs.nodes p).first_child

-- Whether the node `i` is the parent that `parent` names.
abbrev pub is_parent : Option ℕ → ℕ → Bool
is_parent none i = false
is_parent (some p) i = i == p

-- The node that is made for `path`.
abbrev pub new_node : {V : Type 0} → ℕ → List ℕ → Fs V → Node
new_node flag path fs = record {
  name = stored_name (base_name path) path;
  path = path;
  flags = bit_or flag flag_used;
  size = 0;
  block = null;
  parent_idx = find_parent fs path;
  first_child = none;
  next_sibling = first_child_of fs (find_parent fs path);
}

-- A node of kind `flag` for `path` has been added behind all others.
pub record Added {V : Type 0} (flag : ℕ) (path : List ℕ) (fs out : Fs V) : Type 0 where
  pub count : out.vfs_count ≡ fs.vfs_count + 1
  pub new : out.nodes fs.vfs_count ≡ new_node flag path fs
  pub old :
      (i : ℕ)
      → i ≢ fs.vfs_count
      → out.nodes i ≡ (
          if is_parent (find_parent fs path) i
          then record (fs.nodes i) { first_child = some fs.vfs_count }
          else fs.nodes i)

module _ {V : Type 0} (fs : Fs V) (t : IsTree fs) where
  pub alloc_node-some : fs.vfs_count < max_nodes → alloc_node fs ≡ some fs.vfs_count
  unfolding alloc_node
  alloc_node-some room =
      find_from-hit (λ i. not (is_used (fs.nodes i))) max_nodes 0 fs.vfs_count
        (record {
          from = omega arith;
          below = omega arith;
          hit = rw (t.used fs.vfs_count room) (ground arith);
          first = λ j a b. rw (t.used j (omega arith)) (ground arith);
        })

  pub alloc_node-none : fs.vfs_count ≡ max_nodes → alloc_node fs ≡ none
  unfolding alloc_node
  alloc_node-none full = elim (Option-cases (alloc_node fs)) [
    | inl e ↦ e
    | inr (k, e) ↦
        let first = find_from-some (λ i. not (is_used (fs.nodes i))) max_nodes 0 {k = k} e in
        absurd (ground (arith, first.hit, first.below, t.used k))
  ]

  pub find_node-lt : (path : List ℕ) {k : ℕ} → find_node fs path ≡ some k → k < fs.vfs_count
  unfolding find_node
  find_node-lt path {k} e =
      omega (arith, (find_from-some (has_path fs path) fs.vfs_count 0 {k = k} e).below)

  -- The parent is a node that is there already.
  pub find_parent-lt : (path : List ℕ) {p : ℕ} → find_parent fs path ≡ some p → p < fs.vfs_count
  unfolding find_parent
  find_parent-lt path {p} e = elim (Option-cases (last_slash path)) [
    | inl no_slash ↦ root (rw (no_slash, find_parent) at e)
    | inr (i, slash_at) ↦ elim (Bool-cases (ltb 0 i)) [
      | inl inner ↦
          find_node-lt (parent_path path i) {k = p} (rw inner at (rw (slash_at, find_parent) at e))
      | inr outer ↦ root (rw outer at (rw (slash_at, find_parent) at e))
    ]
  ]
    where
      root : some 0 ≡ some p → p < fs.vfs_count
      root e = ground (arith, t.some_node)

  -- The table after `add_node`, in a table with room.
  abbrev pub added : ℕ → List ℕ → Fs V
  added flag path = count_node fs.vfs_count (
      link_child fs.vfs_count (find_parent fs path)
        (node_init fs.vfs_count (base_name path) path flag (find_parent fs path) fs))

  pub added-Added : (flag : ℕ) (path : List ℕ) → Added flag path fs (added flag path)
  unfolding node_init link_child count_node
  added-Added flag path = elim (Option-cases (find_parent fs path)) [
    | inl e ↦ rw e (record { count = ground arith; new = ground arith; old = λ i ne. ground arith })
    | inr (p, e) ↦
        let lt = find_parent-lt path {p = p} e in
        rw e (record { count = ground arith; new = ground arith; old = λ i ne. ground arith })
  ]
