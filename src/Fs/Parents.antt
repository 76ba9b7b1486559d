-- ===== src/Fs/Parents.antt =====
-- The parent that `vfs_mkdir` and `vfs_create` of src/kernel/fs.cpp give to a new node: the first node with the
-- path in front of the last slash.
use mathlib.Core.Path.{subst}
use trieternal_x_os.Base.{
  ℕ, suc, ◌+◌, ◌<◌, ◌≡◌, ◌≢◌, ◌⊎◌, inl, inr, refl, sym, ◌∙◌, ap, bit_or, Bool, true, false, ◌&&◌,
  Option, none, some, List, [], ◌∷◌, ◌++◌, arith, ltb, leb, ◌==◌, if◌then◌else◌, Option-cases,
  find_from-some, find_from-none, length, length-append, take, drop,
}
use trieternal_x_os.Base.Bytes.{has_bit}
use trieternal_x_os.Base.Int.{pos, minus_one}
use trieternal_x_os.Base.Text.{same_text, same_text-eq, same_text_refl}
use trieternal_x_os.Fs.{
  Node, Fs, is_used, max_nodes, flag_used, null, slash, has_path, last_slash, last_slash_from,
  base_name, parent_path, find_node, find_parent, stored_name, add_node,
}
use trieternal_x_os.Fs.Tree.{IsTree, first_child_of, is_parent}
use trieternal_x_os.Fs.Grown.{add_node-Added}

abbrev pub NoSlash : List ℕ → Type 0
NoSlash [] = Unit {0}
NoSlash (c ∷ name) = ((c == slash) ≡ false) × NoSlash name

last_slash_from-same :
    (name : List ℕ) (i : ℕ) (last : Option ℕ) → NoSlash name → last_slash_from name i last ≡ last
unfolding last_slash_from
last_slash_from-same [] i last none_in = refl
last_slash_from-same (c ∷ name) i last (c_not, rest) =
    ap (λ b. last_slash_from name (i + 1) (if b then some i else last)) c_not
    ∙ last_slash_from-same name (i + 1) last rest

last_slash_from-at :
    (dir name : List ℕ) (i : ℕ) (last : Option ℕ)
    → NoSlash name
    → last_slash_from (dir ++ slash ∷ name) i last ≡ some (i + length dir)
unfolding last_slash_from
last_slash_from-at [] name i last none_in =
    last_slash_from-same name (i + 1) (some i) none_in ∙ ap some (omega arith)
last_slash_from-at (c ∷ dir) name i last none_in =
    last_slash_from-at dir name (i + 1) (if c == slash then some i else last) none_in
    ∙ ap some (omega arith)

last_slash_lem :
    (dir name : List ℕ) → NoSlash name → last_slash (dir ++ slash ∷ name) ≡ some (length dir)
unfolding last_slash
last_slash_lem dir name none_in = last_slash_from-at dir name 0 none none_in ∙ ap some (omega arith)

take-append : (dir rest : List ℕ) → take (length dir) (dir ++ rest) ≡ dir
take-append [] rest = refl
take-append (c ∷ dir) rest = ap (λ r. c ∷ r) (take-append dir rest)

drop-append : (dir name : List ℕ) (c : ℕ) → drop (suc (length dir)) (dir ++ c ∷ name) ≡ name
drop-append [] name c = refl
drop-append (d ∷ dir) name c = drop-append dir name c

base_name_lem : (dir name : List ℕ) → NoSlash name → base_name (dir ++ slash ∷ name) ≡ name
unfolding base_name
base_name_lem dir name none_in =
    let next : length dir + 1 ≡ suc (length dir) = omega arith in
    rw (last_slash_lem dir name none_in, base_name)
      (ap (λ k. drop k (dir ++ slash ∷ name)) next ∙ drop-append dir name slash)

-- `o` is the first of the nodes with the path, if there is one.
abbrev pub IsFound : {V : Type 0} → Fs V → List ℕ → Option ℕ → Type 0
IsFound fs path o =
    ((o ≡ none) × ((j : ℕ) → j < fs.vfs_count → (fs.nodes j).path ≢ path))
    ⊎ ((p : ℕ) × (o ≡ some p)
        × (p < fs.vfs_count)
        × ((fs.nodes p).path ≡ path)
        × ((j : ℕ) → j < p → (fs.nodes j).path ≢ path))

-- The directory of a path: the root for nothing in front of the last slash.
abbrev pub IsDirectoryOf : {V : Type 0} → Fs V → List ℕ → Option ℕ → Type 0
IsDirectoryOf fs [] o = o ≡ some 0
IsDirectoryOf fs (c ∷ dir) o = IsFound fs (c ∷ dir) o

module _ {V : Type 0} (fs : Fs V) (t : IsTree fs) where
  other_path :
      (path : List ℕ) (j : ℕ)
      → j < fs.vfs_count
      → has_path fs path j ≡ false
      → (fs.nodes j).path ≢ path
  other_path path j lt e same =
      let used : is_used (fs.nodes j) ≡ true = t.used j (omega (arith, t.fits)) ∙ ground arith in
      let hit : same_text (fs.nodes j).path path ≡ true =
        ap (λ q. same_text q path) same ∙ same_text_refl path in
      both (is_used (fs.nodes j)) (same_text (fs.nodes j).path path) used hit e
    where
      both : (a b : Bool) → a ≡ true → b ≡ true → (a && b) ≡ false → ⊥
      both a b ea eb e = ground arith

  find_node-IsFound : (path : List ℕ) → IsFound fs path (find_node fs path)
  unfolding find_node
  find_node-IsFound path = elim (Option-cases (find_node fs path)) [
    | inl e ↦ inl (
      e,
      λ j lt.
          other_path path j lt
            (find_from-none (has_path fs path) fs.vfs_count 0 e j (omega arith) (omega arith)),
    )
    | inr (p, e) ↦
        let first = find_from-some (has_path fs path) fs.vfs_count 0 {k = p} e in
        let lt : p < fs.vfs_count = omega (arith, first.below) in
        inr (
          p,
          e,
          lt,
          same_text-eq (fs.nodes p).path path
              (right (is_used (fs.nodes p)) (same_text (fs.nodes p).path path) first.hit),
          λ j below. other_path path j (omega arith) (first.first j (omega arith) below),
        )
  ]
    where
      right : (a b : Bool) → (a && b) ≡ true → b ≡ true
      right a b e = ground arith

  pub find_parent-IsDirectoryOf :
      (dir name : List ℕ)
      → NoSlash name
      → length dir < 128
      → IsDirectoryOf fs dir (find_parent fs (dir ++ slash ∷ name))
  unfolding find_parent parent_path
  find_parent-IsDirectoryOf [] name none_in short =
      rw (last_slash_lem [] name none_in, find_parent) refl
  find_parent-IsDirectoryOf (c ∷ dir) name none_in short =
      let whole = (c ∷ dir) ++ slash ∷ name in
      let len = suc (length dir) in
      let inner : ltb 0 len ≡ true = ground arith in
      let small : leb 128 len ≡ false = ground arith in
      let same : parent_path whole len ≡ c ∷ dir =
        ap (λ b. take (if b then 127 else len) whole) small
        ∙ take-append (c ∷ dir) (slash ∷ name) in
      let e : find_parent fs whole ≡ find_node fs (c ∷ dir) =
        rw (last_slash_lem (c ∷ dir) name none_in, find_parent)
          (rw (inner, find_parent) (ap (find_node fs) same)) in
      subst (IsFound fs (c ∷ dir)) (sym e) (find_node-IsFound (c ∷ dir))

-- The node that is made for a name in a directory whose node is `parent`.
abbrev pub child_node : {V : Type 0} → ℕ → List ℕ → List ℕ → Option ℕ → Fs V → Node
child_node flag dir name parent fs = record {
  name = name;
  path = dir ++ slash ∷ name;
  flags = bit_or flag flag_used;
  size = 0;
  block = null;
  parent_idx = parent;
  first_child = none;
  next_sibling = first_child_of fs parent;
}

-- The child has been added behind all other nodes, and in front of the other children of its parent.
pub record IsAdded {V : Type 0} (flag : ℕ) (dir name : List ℕ) (parent : Option ℕ) (fs out : Fs V)
    : Type 0 where
  pub count : out.vfs_count ≡ fs.vfs_count + 1
  pub new : out.nodes fs.vfs_count ≡ child_node flag dir name parent fs
  pub old :
      (i : ℕ)
      → i ≢ fs.vfs_count
      → out.nodes i ≡ (
          if is_parent parent i
          then record (fs.nodes i) { first_child = some fs.vfs_count }
          else fs.nodes i)

-- For a path of a directory and a name behind the last slash, which fit their fields: in a table with room `vfs_mkdir`
-- and `vfs_create` return the next index, for a node that is linked as the first child of the first node with
-- the path of the directory, or of the root where nothing stands in front of the slash; where no node has that
-- path, the new node has no parent and no node links to it. In a full table they fail and change nothing.
pub add_node_lem :
    {V : Type 0} (flag : ℕ) (dir name : List ℕ) (fs : Fs V)
    → IsTree fs
    → has_bit (bit_or flag flag_used) 2 ≡ true
    → NoSlash name
    → length name < 32
    → length (dir ++ slash ∷ name) < 128
    → ((fs.vfs_count < max_nodes)
        × (parent : Option ℕ) × IsDirectoryOf fs dir parent
        × ((add_node flag (dir ++ slash ∷ name) fs).0 ≡ pos fs.vfs_count)
        × IsAdded flag dir name parent fs (add_node flag (dir ++ slash ∷ name) fs).1
        × IsTree (add_node flag (dir ++ slash ∷ name) fs).1)
      ⊎ ((fs.vfs_count ≡ max_nodes) × (add_node flag (dir ++ slash ∷ name) fs ≡ (minus_one, fs)))
unfolding stored_name
add_node_lem flag dir name fs t used none_in short fits =
    let path = dir ++ slash ∷ name in
    let parent = find_parent fs path in
    let plain : stored_name (base_name path) path ≡ name =
      ap (λ b. stored_name b path) (base_name_lem dir name none_in)
      ∙ rw (is_below (length name) 32 short) refl in
    elim (add_node-Added flag path fs t used) [
      | inl (room, result, a, tree) ↦ inl (
        room,
        parent,
        find_parent-IsDirectoryOf fs t dir name none_in
            (omega (arith, length-append dir (slash ∷ name), fits)),
        result,
        record {
          count = a.count;
          new =
              a.new
              ∙ ap {A = List ℕ} {B = Node}
                  (λ n. record (child_node flag dir n parent fs) { path = path }) plain;
          old = a.old;
        },
        tree,
      )
      | inr full ↦ inr full
    ]
  where
    is_below : (a b : ℕ) → a < b → ltb a b ≡ true
    is_below a b lt = ground arith
