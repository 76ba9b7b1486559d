-- ===== src/Fs/Siblings.antt =====
-- The sibling links of src/kernel/fs.cpp lead through the children of a node, the newest first.
use mathlib.Core.Path.{subst}
use native.Mathlib.Numerals.{add-one}
use trieternal_x_os.Base.{
  ℕ, zero, suc, ◌+◌, ◌≤◌, ◌<◌, ◌≡◌, inl, inr, refl, sym, ◌∙◌, ap, bit_or, Bool, true, false, Option,
  none, some, List, [], ◌∷◌, arith, ◌==◌, if◌then◌else◌, Bool-cases, ==→eq,
}
use trieternal_x_os.Base.Bytes.{has_bit}
use trieternal_x_os.Fs.{Node, Fs, max_nodes, flag_used, find_parent, add_node}
use trieternal_x_os.Fs.Tree.{IsTree, Added, is_parent, first_child_of}
use trieternal_x_os.Fs.Grown.{kept, fresh, parent_lt, Added-IsTree, add_node-Added}

-- From `o` on the sibling links lead through the nodes of the list and end.
abbrev pub Siblings : {V : Type 0} → Fs V → Option ℕ → List ℕ → Type 0
Siblings fs o [] = o ≡ none
Siblings fs o (c ∷ cs) = (o ≡ some c) × Siblings fs (fs.nodes c).next_sibling cs

-- The nodes below `n` whose parent is `d`, from the last to the first.
unfoldable pub children : {V : Type 0} → Fs V → ℕ → ℕ → List ℕ
children fs d zero = []
children fs d (suc n) =
    let rest = children fs d n in if is_parent (fs.nodes n).parent_idx d then n ∷ rest else rest

-- Every node lists its children.
pub record IsLinked {V : Type 0} (fs : Fs V) : Type 0 where
  pub tree : IsTree fs
  pub listed :
      (d : ℕ) → d < fs.vfs_count → Siblings fs (fs.nodes d).first_child (children fs d fs.vfs_count)

abbrev pub Below : ℕ → List ℕ → Type 0
Below n [] = Unit {0}
Below n (c ∷ cs) = (c < n) × Below n cs

pub children-Below : {V : Type 0} (fs : Fs V) (d m n : ℕ) → m ≤ n → Below n (children fs d m)
unfolding children
children-Below fs d zero n le = tt
children-Below fs d (suc m) n le = elim (Bool-cases (is_parent (fs.nodes m).parent_idx d)) [
  | inl t ↦ rw t (omega arith, children-Below fs d m n (omega arith))
  | inr f ↦ rw f (children-Below fs d m n (omega arith))
]

pub Siblings-congr :
    {V : Type 0} (fs out : Fs V) (n : ℕ) (o : Option ℕ) (cs : List ℕ)
    → ((i : ℕ) → i < n → (out.nodes i).next_sibling ≡ (fs.nodes i).next_sibling)
    → Below n cs
    → Siblings fs o cs
    → Siblings out o cs
Siblings-congr fs out n o [] same b s = s
Siblings-congr fs out n o (c ∷ cs) same b s =
    (s.0, rw (same c b.0) (Siblings-congr fs out n (fs.nodes c).next_sibling cs same b.1 s.1))

pub children-congr :
    {V : Type 0} (fs out : Fs V) (d n : ℕ)
    → ((i : ℕ) → i < n → (out.nodes i).parent_idx ≡ (fs.nodes i).parent_idx)
    → children out d n ≡ children fs d n
unfolding children
children-congr fs out d zero same = refl
children-congr fs out d (suc n) same =
    rw (same n (omega arith), children-congr fs out d n (λ i lt. same i (omega arith))) refl

children_step :
    {V : Type 0} (fs : Fs V) (d n : ℕ)
    → is_parent (fs.nodes n).parent_idx d ≡ true
    → children fs d (n + 1) ≡ n ∷ children fs d n
unfolding children
children_step fs d n t = rw add-one (rw (t, children) refl)

children_skip :
    {V : Type 0} (fs : Fs V) (d n : ℕ)
    → is_parent (fs.nodes n).parent_idx d ≡ false
    → children fs d (n + 1) ≡ children fs d n
unfolding children
children_skip fs d n f = rw add-one (rw (f, children) refl)

-- A node that no node has for its parent has no children.
childless :
    {V : Type 0} (fs : Fs V) (d n : ℕ)
    → ((i : ℕ) → i < n → is_parent (fs.nodes i).parent_idx d ≡ false)
    → children fs d n ≡ []
unfolding children
childless fs d zero h = refl
childless fs d (suc n) h = rw (h n (omega arith)) (childless fs d n (λ i lt. h i (omega arith)))

is_parent-some : (o : Option ℕ) (d : ℕ) → is_parent o d ≡ true → o ≡ some d
is_parent-some none d e = cc
is_parent-some (some p) d e = ap some (sym (==→eq d p e))

-- No parent from `n` on.
no_parent : (o : Option ℕ) (d : ℕ) → ((p : ℕ) → o ≡ some p → p < d) → is_parent o d ≡ false
no_parent none d h = refl
no_parent (some p) d h = ground (arith, h p refl)

module _ {V : Type 0} {fs out : Fs V} {flag : ℕ} {path : List ℕ} (a : Added flag path fs out)
    (l : IsLinked fs) where
  listed_old :
      (d : ℕ)
      → d < fs.vfs_count
      → Siblings out (out.nodes d).first_child (children out d (fs.vfs_count + 1))
  listed_old d lt =
      let same : children out d fs.vfs_count ≡ children fs d fs.vfs_count =
        children-congr fs out d fs.vfs_count
          (λ i b. kept a (λ (n : Node). n.parent_idx) (λ b c. refl) i (omega arith)) in
      let moved : Siblings out (fs.nodes d).first_child (children fs d fs.vfs_count) =
        Siblings-congr fs out fs.vfs_count (fs.nodes d).first_child (children fs d fs.vfs_count)
          (λ i b. kept a (λ (n : Node). n.next_sibling) (λ b c. refl) i (omega arith))
          (children-Below fs d fs.vfs_count fs.vfs_count (omega arith)) (l.listed d lt) in
      elim (Bool-cases (is_parent (find_parent fs path) d)) [
        | inl t ↦
            let parent = is_parent-some (find_parent fs path) d t in
            let first : (out.nodes d).first_child ≡ some fs.vfs_count =
              ap (λ (n : Node). n.first_child) (rw t at (a.old d (omega arith))) in
            let next : (out.nodes fs.vfs_count).next_sibling ≡ (fs.nodes d).first_child =
              fresh a (λ (n : Node). n.next_sibling) fs.vfs_count refl
              ∙ ap (first_child_of fs) parent in
            subst (Siblings out (out.nodes d).first_child)
              (sym (children_step out d fs.vfs_count (new_parent t)))
              (
                first,
                subst (Siblings out (out.nodes fs.vfs_count).next_sibling) (sym same)
                    (subst (λ o. Siblings out o (children fs d fs.vfs_count)) (sym next) moved),
              )
        | inr f ↦
            let first : (out.nodes d).first_child ≡ (fs.nodes d).first_child =
              ap (λ (n : Node). n.first_child) (rw f at (a.old d (omega arith))) in
            subst (Siblings out (out.nodes d).first_child)
              (sym (children_skip out d fs.vfs_count (new_parent f) ∙ same))
              (subst (λ o. Siblings out o (children fs d fs.vfs_count)) (sym first) moved)
      ]
    where
      new_parent :
          {b : Bool}
          → is_parent (find_parent fs path) d ≡ b
          → is_parent (out.nodes fs.vfs_count).parent_idx d ≡ b
      new_parent e =
          ap (λ o. is_parent o d) (fresh a (λ (n : Node). n.parent_idx) fs.vfs_count refl) ∙ e

  listed_new :
      Siblings out
        (out.nodes fs.vfs_count).first_child
        (children out fs.vfs_count (fs.vfs_count + 1))
  listed_new =
      let first = fresh a (λ (n : Node). n.first_child) fs.vfs_count refl in
      subst (Siblings out (out.nodes fs.vfs_count).first_child)
        (sym (
          childless out fs.vfs_count (fs.vfs_count + 1)
            (λ i lt. no_parent (out.nodes i).parent_idx fs.vfs_count (earlier i lt))))
        first
    where
      earlier :
          (i : ℕ)
          → i < fs.vfs_count + 1
          → (p : ℕ) → (out.nodes i).parent_idx ≡ some p
          → p < fs.vfs_count
      earlier i lt p e = omega (arith, parent_lt a l.tree i p lt e)

  pub Added-IsLinked :
      fs.vfs_count < max_nodes → has_bit (bit_or flag flag_used) 2 ≡ true → IsLinked out
  Added-IsLinked room used = record {
    tree = Added-IsTree a l.tree room used;
    listed = λ d lt.
        subst (λ n. Siblings out (out.nodes d).first_child (children out d n)) (sym a.count)
          (elim (Bool-cases (d == fs.vfs_count)) [
            | inl e ↦
                subst
                  (λ k. Siblings out (out.nodes k).first_child (children out k (fs.vfs_count + 1)))
                  (sym (==→eq d fs.vfs_count e)) listed_new
            | inr e ↦ listed_old d (ground (arith, a.count))
          ]);
  }

-- `vfs_mkdir` and `vfs_create` keep every node listed by its parent, if it has one, and the order of the nodes.
pub add_node-IsLinked :
    {V : Type 0} (flag : ℕ) (path : List ℕ) (fs : Fs V)
    → has_bit (bit_or flag flag_used) 2 ≡ true
    → IsLinked fs
    → IsLinked (add_node flag path fs).1
add_node-IsLinked flag path fs used l = elim (add_node-Added flag path fs l.tree used) [
  | inl (room, _, a, _) ↦ Added-IsLinked a l room used
  | inr (_, e) ↦ subst (λ r. IsLinked r.1) (sym e) l
]
