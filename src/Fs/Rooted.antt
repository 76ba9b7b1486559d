-- ===== src/Fs/Rooted.antt =====
-- The nodes of src/kernel/fs.cpp hang together: all but the root have a parent.
use mathlib.Core.Path.{subst}
use trieternal_x_os.Base.{
  ℕ, ◌<◌, ◌≡◌, ◌≢◌, inl, inr, refl, sym, ◌∙◌, ap, bit_or, true, Option, some, List, [], ◌∷◌, ◌++◌,
  arith, ◌==◌, Bool-cases, length, ==→eq,
}
use trieternal_x_os.Base.Bytes.{has_bit}
use trieternal_x_os.Fs.{Node, Fs, flag_used, slash, add_node}
use trieternal_x_os.Fs.Tree.{is_parent}
use trieternal_x_os.Fs.Siblings.{IsLinked, add_node-IsLinked}
use trieternal_x_os.Fs.Parents.{IsAdded, IsDirectoryOf, NoSlash, add_node_lem}

-- Every node lists its children, and every node but the root is a child of an earlier one, so that all of them are
-- reached from the root.
pub record IsRooted {V : Type 0} (fs : Fs V) : Type 0 where
  pub linked : IsLinked fs
  pub hangs :
      (i : ℕ) → 0 < i → i < fs.vfs_count → (p : ℕ) × (p < i) × ((fs.nodes i).parent_idx ≡ some p)

-- A node has the path of the directory; the root needs none.
abbrev pub IsThere : {V : Type 0} → Fs V → List ℕ → Type 0
IsThere fs [] = Unit {0}
IsThere fs (c ∷ dir) = (j : ℕ) × (j < fs.vfs_count) × ((fs.nodes j).path ≡ c ∷ dir)

module _ {V : Type 0} where
  parent_there :
      (fs : Fs V) (dir : List ℕ) (o : Option ℕ)
      → IsThere fs dir
      → IsDirectoryOf fs dir o
      → (p : ℕ) × (o ≡ some p)
  parent_there fs [] o there d = (0, d)
  parent_there fs (c ∷ dir) o (j, lt, e) (inl (missing, other)) = absurd (other j lt e)
  parent_there fs (c ∷ dir) o there (inr (p, e, lt, found, first)) = (p, e)

  module _ {fs out : Fs V} {flag : ℕ} {dir name : List ℕ} {parent : Option ℕ}
      (a : IsAdded flag dir name parent fs out) where
    -- The link to the first child apart, old nodes are as before.
    old_field :
        {A : Type 0} (f : Node → A)
        → ((b : Node) (c : Option ℕ) → f (record b { first_child = c }) ≡ f b)
        → (i : ℕ) → i ≢ fs.vfs_count
        → f (out.nodes i) ≡ f (fs.nodes i)
    old_field f free i ne = elim (Bool-cases (is_parent parent i)) [
      | inl e ↦ ap f (rw e at (a.old i ne)) ∙ free (fs.nodes i) (some fs.vfs_count)
      | inr e ↦ ap f (rw e at (a.old i ne))
    ]

    pub old-IsThere : (q : List ℕ) → IsThere fs q → IsThere out q
    old-IsThere [] there = tt
    old-IsThere (c ∷ q) (j, lt, e) = (
      j,
      omega (arith, a.count),
      old_field (λ (n : Node). n.path) (λ b k. refl) j (λ same. omega arith) ∙ e,
    )

    pub new-IsThere : IsThere out (dir ++ slash ∷ name)
    new-IsThere = named (dir ++ slash ∷ name) (ap (λ (n : Node). n.path) a.new)
      where
        named : (q : List ℕ) → (out.nodes fs.vfs_count).path ≡ q → IsThere out q
        named [] e = tt
        named (c ∷ q) e = (fs.vfs_count, omega (arith, a.count), e)

    added_hangs :
        (p : ℕ)
        → parent ≡ some p
        → IsLinked out
        → IsRooted fs
        → (i : ℕ) → 0 < i
        → i < out.vfs_count
        → (q : ℕ) × (q < i) × ((out.nodes i).parent_idx ≡ some q)
    added_hangs p e linked r i pos lt = elim (Bool-cases (i == fs.vfs_count)) [
      | inl new ↦
          let at = ==→eq i fs.vfs_count new in
          let named : (out.nodes i).parent_idx ≡ some p =
            ap (λ k. (out.nodes k).parent_idx) at ∙ ap (λ (n : Node). n.parent_idx) a.new ∙ e in
          (p, linked.tree.parent i p lt named, named)
      | inr old ↦
          let (q, below, hung) = r.hangs i pos (ground (arith, a.count)) in
          (q, below, old_field (λ (n : Node). n.parent_idx) (λ b k. refl) i (ground arith) ∙ hung)
    ]

  -- `vfs_mkdir` and `vfs_create` of a path that fits, with a directory that is there, keep every node listed by its
  -- parent and all nodes but the root children of earlier ones: the new node is reached from the root too.
  pub add_node-IsRooted :
      (flag : ℕ) (dir name : List ℕ) (fs : Fs V)
      → has_bit (bit_or flag flag_used) 2 ≡ true
      → NoSlash name
      → length name < 32
      → length (dir ++ slash ∷ name) < 128
      → IsThere fs dir
      → IsRooted fs
      → IsRooted (add_node flag (dir ++ slash ∷ name) fs).1
  add_node-IsRooted flag dir name fs used none_in short fits there r =
      let linked = add_node-IsLinked flag (dir ++ slash ∷ name) fs used r.linked in
      elim (add_node_lem flag dir name fs r.linked.tree used none_in short fits) [
        | inl (room, parent, is_dir, result, a, tree) ↦
            let (p, e) = parent_there fs dir parent there is_dir in
            record { linked = linked; hangs = added_hangs a p e linked r }
        | inr (full, e) ↦ subst (λ k. IsRooted k.1) (sym e) r
      ]
