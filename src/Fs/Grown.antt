-- ===== src/Fs/Grown.antt =====
-- What `vfs_mkdir` and `vfs_create` of src/kernel/fs.cpp do to the table of nodes.
use trieternal_x_os.Base.{
  ℕ, ◌+◌, ◌<◌, ◌≡◌, ◌≢◌, ◌⊎◌, inl, inr, refl, sym, ◌∙◌, ap, bit_or, true, Option, none, some, List,
  arith, ltb, ◌==◌, Bool-cases, ==→eq,
}
use trieternal_x_os.Base.Bytes.{has_bit}
use trieternal_x_os.Base.Int.{pos, minus_one}
use trieternal_x_os.Fs.{Node, Fs, is_used, max_nodes, flag_used, find_parent, add_node}
use trieternal_x_os.Fs.Tree.{
  IsTree, Added, new_node, is_parent, first_child_of, alloc_node-some, alloc_node-none,
  find_parent-lt, added-Added,
}

module _ {V : Type 0} {fs out : Fs V} {flag : ℕ} {path : List ℕ} (a : Added flag path fs out) where
  -- The link to the first child apart, old nodes are as before.
  pub kept :
      {A : Type 0} (f : Node → A)
      → ((b : Node) (c : Option ℕ) → f (record b { first_child = c }) ≡ f b)
      → (i : ℕ) → i ≢ fs.vfs_count
      → f (out.nodes i) ≡ f (fs.nodes i)
  kept f free i ne = elim (Bool-cases (is_parent (find_parent fs path) i)) [
    | inl e ↦ ap f (rw e at (a.old i ne)) ∙ free (fs.nodes i) (some fs.vfs_count)
    | inr e ↦ ap f (rw e at (a.old i ne))
  ]

  pub fresh :
      {A : Type 0} (f : Node → A) (i : ℕ)
      → i ≡ fs.vfs_count
      → f (out.nodes i) ≡ f (new_node flag path fs)
  fresh f i e = ap (λ z. f (out.nodes z)) e ∙ ap f a.new

  new_or_old : (i : ℕ) → (i ≡ fs.vfs_count) ⊎ (i ≢ fs.vfs_count)
  new_or_old i = elim (Bool-cases (i == fs.vfs_count)) [
    | inl e ↦ inl (==→eq i fs.vfs_count e)
    | inr e ↦ inr (ground arith)
  ]

  module _ (t : IsTree fs) where
    pub parent_lt : (i p : ℕ) → i < fs.vfs_count + 1 → (out.nodes i).parent_idx ≡ some p → p < i
    parent_lt i p lt e = elim (new_or_old i) [
      | inl new ↦
          let named : find_parent fs path ≡ some p =
            sym (fresh (λ (n : Node). n.parent_idx) i new) ∙ e in
          omega (arith, find_parent-lt fs t path {p = p} named)
      | inr ne ↦
          t.parent i p (omega arith)
            (sym (kept (λ (n : Node). n.parent_idx) (λ b c. refl) i ne) ∙ e)
    ]

    child_lt :
        (i c : ℕ)
        → i < fs.vfs_count + 1
        → (out.nodes i).first_child ≡ some c
        → (i < c) × (c < fs.vfs_count + 1)
    child_lt i c lt e = elim (new_or_old i) [
      | inl new ↦
          let childless = fresh (λ (n : Node). n.first_child) i new in absurd (cc (childless, e))
      | inr ne ↦ elim (Bool-cases (is_parent (find_parent fs path) i)) [
        | inl named ↦
            let linked = ap (λ (n : Node). n.first_child) (rw named at (a.old i ne)) in
            let c_is : fs.vfs_count ≡ c = cc (linked, e) in (omega arith, omega arith)
        | inr other ↦
            let same = ap (λ (n : Node). n.first_child) (rw other at (a.old i ne)) in
            let old = t.child i c (omega arith) (sym same ∙ e) in (old.0, omega (arith, old.1))
      ]
    ]

    sibling_lt : (i s : ℕ) → i < fs.vfs_count + 1 → (out.nodes i).next_sibling ≡ some s → s < i
    sibling_lt i s lt e = elim (new_or_old i) [
      | inl new ↦
          first_lt new s (find_parent fs path) (λ p q. find_parent-lt fs t path {p = p} q)
            (sym (fresh (λ (n : Node). n.next_sibling) i new) ∙ e)
      | inr ne ↦
          t.sibling i s (omega arith)
            (sym (kept (λ (n : Node). n.next_sibling) (λ b c. refl) i ne) ∙ e)
    ]
      where
        first_lt :
            i ≡ fs.vfs_count
            → (s : ℕ) (o : Option ℕ) → ((p : ℕ) → o ≡ some p → p < fs.vfs_count)
            → first_child_of fs o ≡ some s
            → s < i
        first_lt new s none there e = absurd (cc e)
        first_lt new s (some p) there e = let c = t.child p s (there p refl) e in omega (arith, c.1)

    pub Added-IsTree :
        fs.vfs_count < max_nodes → has_bit (bit_or flag flag_used) 2 ≡ true → IsTree out
    Added-IsTree room used = record {
      some_node = omega (arith, a.count);
      fits = omega (arith, a.count);
      used = λ i lt. used_lem i lt;
      parent = λ i p lt e. parent_lt i p (omega (arith, a.count)) e;
      child = λ i c lt e.
          let r = child_lt i c (omega (arith, a.count)) e in (r.0, omega (arith, a.count, r.1));
      sibling = λ i s lt e. sibling_lt i s (omega (arith, a.count)) e;
    }
      where
        used_lem : (i : ℕ) → i < max_nodes → is_used (out.nodes i) ≡ ltb i out.vfs_count
        used_lem i lt = elim (new_or_old i) [
          | inl new ↦ fresh is_used i new ∙ used ∙ ground (arith, a.count)
          | inr ne ↦ kept is_used (λ b c. refl) i ne ∙ t.used i lt ∙ ground (arith, a.count)
        ]

-- In a table with room `vfs_mkdir` and `vfs_create` return the next index, for a node that is linked
-- as the first child of the parent that its path names; in a full table they fail and change nothing.
pub add_node-Added :
    {V : Type 0} (flag : ℕ) (path : List ℕ) (fs : Fs V)
    → IsTree fs
    → has_bit (bit_or flag flag_used) 2 ≡ true
    → (fs.vfs_count < max_nodes)
        × ((add_node flag path fs).0 ≡ pos fs.vfs_count)
        × Added flag path fs (add_node flag path fs).1
        × IsTree (add_node flag path fs).1
      ⊎ (fs.vfs_count ≡ max_nodes) × (add_node flag path fs ≡ (minus_one, fs))
unfolding add_node
add_node-Added flag path fs t used = elim (Bool-cases (ltb fs.vfs_count max_nodes)) [
  | inl room ↦
      let lt : fs.vfs_count < max_nodes = ground arith in
      rw (alloc_node-some fs t lt, add_node)
        (inl (
          lt,
          refl,
          added-Added fs t flag path,
          Added-IsTree (added-Added fs t flag path) t lt used,
        ))
  | inr full ↦
      let e : fs.vfs_count ≡ max_nodes = ground (arith, t.fits) in
      inr (e, rw (alloc_node-none fs t e, add_node) refl)
]
