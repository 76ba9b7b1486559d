-- ===== src/Fs/Examples.antt =====
-- The theorems about src/kernel/fs.cpp at concrete tables, and test runs.
use trieternal_x_os.Base.{
  ℕ, suc, Option, Bool-cases, inl, inr, ◌==◌, ◌+◌, ◌<◌, ◌≡◌, ◌⊎◌, refl, none, some, [], ◌∷◌, map,
  take, arith, ltb, if◌then◌else◌, find_from,
}
use trieternal_x_os.Base.Int.{pos, minus_one}
use trieternal_x_os.Base.Text.{codes, same_text}
use trieternal_x_os.Base.Decimal.{write_dec}
use trieternal_x_os.Fs.{
  Allocator, Fs, is_used, max_nodes, flag_dir, flag_file, find_node, find_parent, last_slash,
  stored_name, create, add_node, alloc_node, count_node, link_child, parent_path, index_result,
  read, write, stat,
}
use trieternal_x_os.Fs.Start.{init, fill_file}
use trieternal_x_os.Fs.Tree.{IsTree}
use trieternal_x_os.Fs.Parents.{IsAdded, IsDirectoryOf, add_node_lem}
use trieternal_x_os.Fs.Rooted.{IsRooted, add_node-IsRooted}
use trieternal_x_os.Fs.Lookup.{or_new, stat-add_node}
use trieternal_x_os.Fs.Content.{IsWritable, ReadsBack, OthersKept, read-write}
use trieternal_x_os.Fs.Siblings.{IsLinked, children}
use trieternal_x_os.Fs.Listing.{text, color, list_line, list, virtual_file, list_files}
use trieternal_x_os.Fs.Listed.{list_lem, list_files_lem}
use trieternal_x_os.Fs.Init.{init-IsRooted}

-- Blocks 1000, 1001 and so on, and nothing is given back.
abbrev bump : Allocator ℕ
bump = record { kmalloc = λ size n. (n, suc n); kfree = λ block n. n }

abbrev blank : Fs ℕ
blank = record {
  nodes = λ i. record {
    name = [];
    path = [];
    flags = 7;
    size = 0;
    block = 0;
    parent_idx = none;
    first_child = none;
    next_sibling = none;
  };
  vfs_count = 99;
  blocks = λ p j. 0;
  heap = 1000;
}

-- The table at the start: 8 nodes.
abbrev started : Fs ℕ
started = init bump blank

started_count : started.vfs_count ≡ 8
unfolding init find_parent add_node alloc_node find_from fill_file find_node same_text last_slash
    create count_node link_child parent_path
started_count = refl

init-IsRooted_example : IsRooted started × (started.vfs_count ≡ 8)
init-IsRooted_example = init-IsRooted bump blank

started-IsRooted : IsRooted started
started-IsRooted = (init-IsRooted bump blank).0

started-IsLinked : IsLinked started
started-IsLinked = started-IsRooted.linked

room_left : started.vfs_count < max_nodes
room_left = omega (arith, started_count)

welcome_is : find_node started (codes "/welcome.txt") ≡ some 4
unfolding init find_parent add_node alloc_node find_from fill_file find_node same_text last_slash
    create count_node link_child parent_path
welcome_is = refl

root_is : find_node started (codes "/") ≡ some 0
unfolding init find_parent add_node alloc_node find_from fill_file find_node same_text last_slash
    create count_node link_child parent_path
root_is = refl

add_node_lem_example :
    ((started.vfs_count < max_nodes)
      × (parent : Option ℕ) × IsDirectoryOf started (codes "/documents") parent
      × ((add_node flag_file (codes "/documents/a") started).0 ≡ pos started.vfs_count)
      × IsAdded flag_file
          (codes "/documents")
          (codes "a")
          parent
          started
          (add_node flag_file (codes "/documents/a") started).1
      × IsTree (add_node flag_file (codes "/documents/a") started).1)
    ⊎ (started.vfs_count ≡ max_nodes)
      × (add_node flag_file (codes "/documents/a") started ≡ (minus_one, started))
add_node_lem_example =
    add_node_lem flag_file (codes "/documents") (codes "a") started started-IsLinked.tree refl
      (refl, tt) (omega arith) (omega arith)

games_there : (started.nodes 3).path ≡ codes "/games"
unfolding init find_parent add_node alloc_node find_from fill_file find_node same_text last_slash
    create count_node link_child parent_path
games_there = refl

add_node-IsRooted_example : IsRooted (add_node flag_dir (codes "/games/x") started).1
add_node-IsRooted_example =
    add_node-IsRooted flag_dir (codes "/games") (codes "x") started refl (refl, tt) (omega arith)
      (omega arith) (3, omega (arith, started_count), games_there) started-IsRooted

-- Nothing but the root.
abbrev bare : Fs ℕ
bare = record blank {
  nodes = λ i. record (blank.nodes i) { path = codes "/"; flags = if i == 0 then 5 else 0 };
  vfs_count = 1;
}

bare-IsTree : IsTree bare
bare-IsTree = record {
  some_node = omega arith;
  fits = omega arith;
  used = λ i lt. bare_used i;
  parent = λ i p lt e. absurd (cc e);
  child = λ i c lt e. absurd (cc e);
  sibling = λ i k lt e. absurd (cc e);
}
  where
    bare_used : (i : ℕ) → is_used (bare.nodes i) ≡ ltb i 1
    bare_used i = elim (Bool-cases (i == 0)) [
      | inl e ↦ rw (e) (ground arith)
      | inr e ↦ rw (e) (ground arith)
    ]

stat-add_node_example :
    stat (add_node flag_file (codes "/a") bare).1 (codes "/")
    ≡ index_result (or_new (codes "/a") (codes "/") 1 (find_node bare (codes "/")))
stat-add_node_example =
    stat-add_node flag_file (codes "/a") (codes "/") bare bare-IsTree refl (omega arith)
      (omega arith) (λ i lt. omega arith)

list_lem_example :
    list started 100 (codes "/")
    ≡ some (
        color 11 0
        ∷ text (codes "  TYPE  NAME\n")
        ∷ color 15 0
        ∷ map (λ c. text (list_line (started.nodes c))) (children started 0 started.vfs_count))
list_lem_example =
    list_lem started started-IsLinked 100 (omega (arith, started_count)) (codes "/") {d = 0} root_is

list_files_lem_example :
    list_files started 100 (codes "/") 2
    ≡ some
        (take 2 (map (λ c. virtual_file (started.nodes c)) (children started 0 started.vfs_count)))
list_files_lem_example =
    list_files_lem started started-IsLinked 100 (omega (arith, started_count)) (codes "/") 2 {d = 0}
      root_is

-- The children of the root, the newest first.
root_children : children started 0 8 ≡ 4 ∷ 3 ∷ 2 ∷ 1 ∷ []
unfolding init find_parent add_node alloc_node find_from fill_file find_node same_text last_slash
    create count_node link_child parent_path children
root_children = refl

abbrev three : ℕ → ℕ
three j = if ltb j 3 then 120 + j else 0

-- One file of two bytes.
abbrev one_file : Fs ℕ
one_file = record {
  nodes = λ i. record {
    name = codes "a";
    path = codes "/a";
    flags = 6;
    size = 2;
    block = 500;
    parent_idx = none;
    first_child = none;
    next_sibling = none;
  };
  vfs_count = 1;
  blocks = λ p j. 65;
  heap = 1000;
}

one_file-IsWritable : IsWritable bump 0 3 three one_file
one_file-IsWritable = record {
  there = omega arith;
  in_use = refl;
  file = refl;
  empty = λ e. absurd (omega arith);
  block = omega arith;
  fits = omega arith;
}

read-write_example :
    ((write bump (pos 0) three 3 one_file).0 ≡ pos 3)
    × ReadsBack bump 0 3 three one_file
        (λ j. 9)
        500
        (read (write bump (pos 0) three 3 one_file).1 (pos 0) (λ j. 9) 500)
    × OthersKept bump 0 3 three one_file (write bump (pos 0) three 3 one_file).1
read-write_example = read-write bump 0 3 three one_file one_file-IsWritable (λ j. 9) 500

-- A path whose parent is not there.
orphan : find_parent started (codes "/nowhere/x") ≡ none
unfolding init find_parent add_node alloc_node find_from fill_file find_node same_text last_slash
    create count_node link_child parent_path
orphan = refl

-- A name of 40 bytes, as it can be read back.
long_name :
    stored_name
      (codes "0123456789012345678901234567890123456789")
      (codes "/0123456789012345678901234567890123456789")
    ≡ codes "01234567890123456789012345678901/0123456789012345678901234567890123456789"
unfolding stored_name
long_name = refl

printed : write_dec 4096 ≡ codes "4096"
unfolding write_dec
printed = refl
