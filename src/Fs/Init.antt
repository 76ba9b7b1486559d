-- ===== src/Fs/Init.antt =====
-- `fs_init` of src/kernel/fs.cpp makes a linked table.
use mathlib.Core.Path.{subst}
use trieternal_x_os.Base.{
  ℕ, zero, suc, Bool, Option, ◌&&◌, not, ◌<◌, ◌≡◌, refl, sym, ◌∙◌, ap, true, none, List, arith, ltb,
  ◌==◌, Bool-cases, Option-cases, update,
}
use trieternal_x_os.Base.Text.{codes}
use trieternal_x_os.Fs.{
  Node, Allocator, Fs, is_used, max_nodes, flag_dir, flag_file, find_node, mkdir, create, node_init,
}
use trieternal_x_os.Fs.Start.{fill_file, clear_nodes, new_file, init}
use trieternal_x_os.Base.{◌+◌, ◌++◌, [], ◌∷◌, bit_or, false, length, inl, inr}
use trieternal_x_os.Base.Bytes.{has_bit}
use trieternal_x_os.Fs.{slash, flag_used, add_node}
use trieternal_x_os.Fs.Parents.{IsAdded, NoSlash, add_node_lem}
use trieternal_x_os.Fs.Rooted.{IsRooted, IsThere, add_node-IsRooted, new-IsThere, old-IsThere}
use trieternal_x_os.Fs.Siblings.{
  Siblings, IsLinked, children, children-Below, Siblings-congr, children-congr,
}

-- The links of `out` are those of `fs`.
record SameLinks {V : Type 0} (fs out : Fs V) : Type 0 where
  count : out.vfs_count ≡ fs.vfs_count
  used : (i : ℕ) → is_used (out.nodes i) ≡ is_used (fs.nodes i)
  path : (i : ℕ) → (out.nodes i).path ≡ (fs.nodes i).path
  parent : (i : ℕ) → (out.nodes i).parent_idx ≡ (fs.nodes i).parent_idx
  child : (i : ℕ) → (out.nodes i).first_child ≡ (fs.nodes i).first_child
  sibling : (i : ℕ) → (out.nodes i).next_sibling ≡ (fs.nodes i).next_sibling

SameLinks-IsLinked : {V : Type 0} {fs out : Fs V} → SameLinks fs out → IsLinked fs → IsLinked out
SameLinks-IsLinked {V} {fs} {out} s l = record {
  tree = record {
    some_node = omega (arith, s.count, l.tree.some_node);
    fits = omega (arith, s.count, l.tree.fits);
    used = λ i lt. s.used i ∙ l.tree.used i lt ∙ ap (ltb i) (sym s.count);
    parent = λ i p lt e. l.tree.parent i p (omega (arith, s.count)) (sym (s.parent i) ∙ e);
    child = λ i c lt e.
        let r = l.tree.child i c (omega (arith, s.count)) (sym (s.child i) ∙ e) in
        (r.0, omega (arith, s.count, r.1));
    sibling = λ i k lt e. l.tree.sibling i k (omega (arith, s.count)) (sym (s.sibling i) ∙ e);
  };
  listed = λ d lt.
      let same : children out d out.vfs_count ≡ children fs d fs.vfs_count =
        ap (children out d) s.count ∙ children-congr fs out d fs.vfs_count (λ i b. s.parent i) in
      subst (Siblings out (out.nodes d).first_child) (sym same) (
        subst (λ o. Siblings out o (children fs d fs.vfs_count)) (sym (s.child d))
          (Siblings-congr fs out fs.vfs_count (fs.nodes d).first_child (children fs d fs.vfs_count)
            (λ i b. s.sibling i) (children-Below fs d fs.vfs_count fs.vfs_count (omega arith))
            (l.listed d (omega (arith, s.count)))));
}

clear_nodes_lem :
    {V : Type 0} (n : ℕ) (fs : Fs V) (i : ℕ) → i < n → ((clear_nodes n fs).nodes i).flags ≡ 0
unfolding clear_nodes
clear_nodes_lem zero fs i lt = absurd (omega arith)
clear_nodes_lem (suc n) fs i lt = ground (arith, clear_nodes_lem n fs i)

root_used :
    (nodes : ℕ → Node) (root : Node) (i : ℕ)
    → (nodes i).flags ≡ 0
    → is_used root ≡ true
    → is_used (update nodes 0 root i) ≡ ltb i 1
root_used nodes root i clear e = elim (Bool-cases (i == 0)) [
  | inl t ↦ rw t (e ∙ ground arith)
  | inr f ↦ rw f (rw clear (ground arith))
]

root-IsLinked :
    {V : Type 0} (fs : Fs V)
    → ((i : ℕ) → i < max_nodes → (fs.nodes i).flags ≡ 0)
    → IsLinked
        (record (node_init 0 (codes "/") (codes "/") flag_dir none (record fs { vfs_count = 0 })) {
          vfs_count = 1;
        })
unfolding node_init children
root-IsLinked fs clear = record {
  tree = record {
    some_node = omega arith;
    fits = omega arith;
    used = λ i lt. root_used fs.nodes _ i (clear i lt) refl;
    parent = λ i p lt e. absurd (cc (rw (root_is i lt) at e));
    child = λ i c lt e. absurd (cc (rw (root_is i lt) at e));
    sibling = λ i s lt e. absurd (cc (rw (root_is i lt) at e));
  };
  listed = λ d lt. rw (root_is d lt) refl;
}
  where
    root_is : (i : ℕ) → i < 1 → i ≡ 0
    root_is i lt = omega arith

SameLinks-IsRooted : {V : Type 0} {fs out : Fs V} → SameLinks fs out → IsRooted fs → IsRooted out
SameLinks-IsRooted s r = record {
  linked = SameLinks-IsLinked s r.linked;
  hangs = λ i pos lt.
      let (p, below, e) = r.hangs i pos (omega (arith, s.count)) in (p, below, s.parent i ∙ e);
}

-- The directories are there.
abbrev AllThere : {V : Type 0} → Fs V → List (List ℕ) → Type 0
AllThere fs [] = Unit {0}
AllThere fs (d ∷ dirs) = IsThere fs d × AllThere fs dirs

SameLinks-IsThere :
    {V : Type 0} {fs out : Fs V} → SameLinks fs out → (d : List ℕ) → IsThere fs d → IsThere out d
SameLinks-IsThere s [] there = tt
SameLinks-IsThere s (c ∷ d) (j, lt, e) = (j, omega (arith, s.count), s.path j ∙ e)

SameLinks-AllThere :
    {V : Type 0} {fs out : Fs V}
    → SameLinks fs out
    → (dirs : List (List ℕ)) → AllThere fs dirs
    → AllThere out dirs
SameLinks-AllThere s [] there = tt
SameLinks-AllThere s (d ∷ dirs) (first, rest) =
    (SameLinks-IsThere s d first, SameLinks-AllThere s dirs rest)

old-AllThere :
    {V : Type 0} {fs out : Fs V} {flag : ℕ} {dir name : List ℕ} {parent : Option ℕ}
    → IsAdded flag dir name parent fs out
    → (dirs : List (List ℕ)) → AllThere fs dirs
    → AllThere out dirs
old-AllThere a [] there = tt
old-AllThere a (d ∷ dirs) (first, rest) = (old-IsThere a d first, old-AllThere a dirs rest)

-- A table with `n` nodes and some directories.
record IsBuilt {V : Type 0} (fs : Fs V) (n : ℕ) (dirs : List (List ℕ)) : Type 0 where
  rooted : IsRooted fs
  count : fs.vfs_count ≡ n
  there : AllThere fs dirs

-- A name for the node `n` that fits.
record IsNew (n : ℕ) (dir name : List ℕ) : Type 0 where
  room : n < max_nodes
  plain : NoSlash name
  short : length name < 32
  fits : length (dir ++ slash ∷ name) < 128

abbrev plain_name : List ℕ → Bool
plain_name [] = true
plain_name (c ∷ name) = not (c == slash) && plain_name name

plain_name-NoSlash : (name : List ℕ) → plain_name name ≡ true → NoSlash name
plain_name-NoSlash [] e = tt
plain_name-NoSlash (c ∷ name) e = (
  first (c == slash) (plain_name name) e,
  plain_name-NoSlash name (rest (c == slash) (plain_name name) e),
)
  where
    first : (a b : Bool) → (not a && b) ≡ true → a ≡ false
    first a b e = ground arith

    rest : (a b : Bool) → (not a && b) ≡ true → b ≡ true
    rest a b e = ground arith

name-IsNew :
    (n : ℕ) (dir name : List ℕ)
    → ltb n max_nodes ≡ true
    → plain_name name ≡ true
    → ltb (length name) 32 ≡ true
    → ltb (length (dir ++ slash ∷ name)) 128 ≡ true
    → IsNew n dir name
name-IsNew n dir name room plain short fits = record {
  room = is_below n max_nodes room;
  plain = plain_name-NoSlash name plain;
  short = is_below (length name) 32 short;
  fits = is_below (length (dir ++ slash ∷ name)) 128 fits;
}
  where
    is_below : (a b : ℕ) → ltb a b ≡ true → a < b
    is_below a b e = ground arith

add_node-IsBuilt :
    {V : Type 0} (flag : ℕ) (dir name : List ℕ) (n : ℕ) (dirs : List (List ℕ)) (fs : Fs V)
    → has_bit (bit_or flag flag_used) 2 ≡ true
    → IsNew n dir name
    → IsThere fs dir
    → IsBuilt fs n dirs
    → IsBuilt (add_node flag (dir ++ slash ∷ name) fs).1 (n + 1) ((dir ++ slash ∷ name) ∷ dirs)
add_node-IsBuilt flag dir name n dirs fs used new there b =
    let rooted =
      add_node-IsRooted flag dir name fs used new.plain new.short new.fits there b.rooted in
    elim (add_node_lem flag dir name fs b.rooted.linked.tree used new.plain new.short new.fits) [
      | inl (room, parent, is_dir, result, a, tree) ↦ record {
        rooted = rooted;
        count = a.count ∙ ap (λ k. k + 1) b.count;
        there = (new-IsThere a, old-AllThere a dirs b.there);
      }
      | inr (full, e) ↦ absurd (omega (arith, full, b.count, new.room))
    ]

module _ {V : Type 0} (ops : Allocator V) where
  fill_file-SameLinks :
      (path content : List ℕ) (fs : Fs V) → SameLinks fs (fill_file ops path content fs)
  unfolding fill_file
  fill_file-SameLinks path content fs = elim (Option-cases (find_node fs path)) [
    | inl e ↦
        rw (e, fill_file)
          (record {
            count = refl;
            used = λ i. refl;
            path = λ i. refl;
            parent = λ i. refl;
            child = λ i. refl;
            sibling = λ i. refl;
          })
    | inr (k, e) ↦
        rw (e, fill_file)
          (record {
            count = ground arith;
            used = λ i. ground arith;
            path = λ i. ground arith;
            parent = λ i. ground arith;
            child = λ i. ground arith;
            sibling = λ i. ground arith;
          })
  ]

  new_file-IsBuilt :
      (dir name content : List ℕ) (n : ℕ) (dirs : List (List ℕ)) (fs : Fs V)
      → IsNew n dir name
      → IsThere fs dir
      → IsBuilt fs n dirs
      → IsBuilt (new_file ops (dir ++ slash ∷ name) content fs) (n + 1) dirs
  unfolding new_file create
  new_file-IsBuilt dir name content n dirs fs new there b =
      let path = dir ++ slash ∷ name in
      let made = add_node-IsBuilt flag_file dir name n dirs fs refl new there b in
      let same = fill_file-SameLinks path content (create path fs).1 in
      record {
        rooted = SameLinks-IsRooted same made.rooted;
        count = same.count ∙ made.count;
        there = SameLinks-AllThere same dirs made.there.1;
      }

  mkdir-IsBuilt :
      (dir name : List ℕ) (n : ℕ) (dirs : List (List ℕ)) (fs : Fs V)
      → IsNew n dir name
      → IsThere fs dir
      → IsBuilt fs n dirs
      → IsBuilt (mkdir (dir ++ slash ∷ name) fs).1 (n + 1) ((dir ++ slash ∷ name) ∷ dirs)
  unfolding mkdir
  mkdir-IsBuilt dir name n dirs fs new there b =
      let made = add_node-IsBuilt flag_dir dir name n dirs fs refl new there b in
      record { rooted = made.rooted; count = made.count; there = (made.there.0, made.there.1) }

  root-IsBuilt :
      (fs : Fs V)
      → IsBuilt
          (record (node_init 0
            (codes "/")
            (codes "/")
            flag_dir
            none
            (record (clear_nodes max_nodes fs) { vfs_count = 0 })) { vfs_count = 1 })
          1
          []
  root-IsBuilt fs = record {
    rooted = record {
      linked = root-IsLinked (clear_nodes max_nodes fs) (λ i lt. clear_nodes_lem max_nodes fs i lt);
      hangs = λ i pos lt. absurd (omega arith);
    };
    count = refl;
    there = tt;
  }

  -- `fs_init` makes a table of eight nodes, in which every node lists its children and all nodes but the root are
  -- children of earlier ones, of whatever was there, whether or not the heap has blocks for its files.
  pub init-IsRooted : (fs : Fs V) → IsRooted (init ops fs) × ((init ops fs).vfs_count ≡ 8)
  unfolding init
  init-IsRooted fs =
      let s1 = root-IsBuilt fs in
      let s2 =
        mkdir-IsBuilt [] (codes "documents") 1 [] _ (name-IsNew 1 [] _ refl refl refl refl) tt s1 in
      let s3 =
        mkdir-IsBuilt [] (codes "system") 2 _ _ (name-IsNew 2 [] _ refl refl refl refl) tt s2 in
      let s4 =
        mkdir-IsBuilt [] (codes "games") 3 _ _ (name-IsNew 3 [] _ refl refl refl refl) tt s3 in
      let s5 =
        new_file-IsBuilt [] (codes "welcome.txt") (codes "Selamat datang di TrieternalX-OS!\n") 4 _
          _ (name-IsNew 4 [] _ refl refl refl refl) tt s4 in
      let s6 =
        new_file-IsBuilt (codes "/documents") (codes "note.txt")
          (codes "Tugas Akhir: Membangun microkernel OS.\n") 5 _ _
          (name-IsNew 5 (codes "/documents") _ refl refl refl refl) s5.there.1.1.0 s5 in
      let s7 =
        new_file-IsBuilt (codes "/system") (codes "kernel.sys")
          (codes "TrieternalX Kernel v2.5\nProtected Mode: Enabled\n") 6 _ _
          (name-IsNew 6 (codes "/system") _ refl refl refl refl) s6.there.1.0 s6 in
      let s8 =
        new_file-IsBuilt (codes "/system") (codes "config.cfg")
          (codes "boot_delay=3\nresolution=80x25\n") 7 _ _
          (name-IsNew 7 (codes "/system") _ refl refl refl refl) s7.there.1.0 s7 in
      (s8.rooted, s8.count)
