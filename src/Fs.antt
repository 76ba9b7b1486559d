-- ===== src/Fs.antt =====
-- The virtual file system, src/kernel/fs.cpp: a table of 64 nodes that link to one another by index.
-- Paths and names are lists of bytes, and paths are shorter than the 128 bytes of their field. A block
-- of `kmalloc` is an array of bytes of its own. An index of -1 in a node is `none`.
pub mod Tree
pub mod Grown
pub mod Parents
pub mod Rooted
pub mod Lookup
pub mod Content
pub mod Listing
pub mod Siblings
pub mod Listed
pub mod Start
pub mod Init
mod Examples
use trieternal_x_os.Base.{
  ℕ, zero, suc, ◌+◌, ◌-◌, ◌*◌, ◌/◌, ◌%◌, ◌^◌, bit_or, Bool, true, false, not, ◌&&◌, ◌||◌, Option,
  none, some, List, [], ◌∷◌, ◌++◌, ltb, leb, ◌==◌, if◌then◌else◌, update, find_from, copy_from,
  length, take, drop, append_from,
}
use trieternal_x_os.Base.Bytes.{has_bit}
use trieternal_x_os.Base.Words.{add32}
use trieternal_x_os.Base.Int.{ℤ, pos, negsuc, minus_one, to_int32}
use trieternal_x_os.Base.Text.{codes, same_text}

-- `VFSNode`
pub record Node : Type 0 where
  pub name : List ℕ
  pub path : List ℕ
  pub flags : ℕ
  pub size : ℕ
  pub block : ℕ
  pub parent_idx : Option ℕ
  pub first_child : Option ℕ
  pub next_sibling : Option ℕ

-- `kmalloc` and `kfree`, over the state `V` of the heap.
pub record Allocator (V : Type 0) : Type 0 where
  pub kmalloc : ℕ → V → ℕ × V
  pub kfree : ℕ → V → V

-- The table, and the bytes of the blocks that the nodes point to.
pub record Fs (V : Type 0) : Type 0 where
  pub nodes : ℕ → Node
  pub vfs_count : ℕ
  pub blocks : ℕ → ℕ → ℕ
  pub heap : V

abbrev pub max_nodes : ℕ
max_nodes = 64

abbrev pub max_name : ℕ
max_name = 32

abbrev pub max_path : ℕ
max_path = 128

abbrev pub flag_dir : ℕ
flag_dir = 1

abbrev pub flag_file : ℕ
flag_file = 2

abbrev pub flag_used : ℕ
flag_used = 4

abbrev pub null : ℕ
null = 0

abbrev pub slash : ℕ
slash = b'/'

abbrev pub is_used : Node → Bool
is_used n = has_bit n.flags 2

abbrev pub is_dir : Node → Bool
is_dir n = has_bit n.flags 0

abbrev pub is_file : Node → Bool
is_file n = has_bit n.flags 1

-- What the field `name` holds as text: a name of 32 bytes or more runs on into the field behind it,
-- where the path is written next.
unfoldable pub stored_name : List ℕ → List ℕ → List ℕ
stored_name name path = if ltb (length name) max_name then name else take max_name name ++ path

-- `last_slash`, as an index.
unfoldable pub last_slash_from : List ℕ → ℕ → Option ℕ → Option ℕ
last_slash_from [] i last = last
last_slash_from (c ∷ p) i last = last_slash_from p (i + 1) (if c == slash then some i else last)

unfoldable pub last_slash : List ℕ → Option ℕ
unfolding last_slash_from
last_slash path = last_slash_from path 0 none

-- What stands behind the last slash.
unfoldable pub base_name : List ℕ → List ℕ
base_name path = elim (last_slash path) [ none ↦ path | some i ↦ drop (i + 1) path ]

-- `parent_path`, cut to its buffer.
unfoldable pub parent_path : List ℕ → ℕ → List ℕ
parent_path path len = take (if leb max_path len then max_path - 1 else len) path

-- The bytes of a text, then zeros.
abbrev pub byte_at : List ℕ → ℕ → ℕ
byte_at [] j = 0
byte_at (c ∷ s) zero = c
byte_at (c ∷ s) (suc j) = byte_at s j

-- The result of an operation as the `int32_t` that it returns.
abbrev pub index_result : Option ℕ → ℤ
index_result none = minus_one
index_result (some i) = pos i

-- The bytes of the new block of `vfs_write`.
unfoldable pub written : Node → (ℕ → ℕ → ℕ) → ℕ → (ℕ → ℕ) → ℕ → ℕ → ℕ
written node blocks new_block src count =
    let old =
      if node.block == null
      then blocks new_block
      else copy_from node.size 0 (blocks node.block) (blocks new_block) in
    update (append_from count 0 node.size src old) (add32 node.size count) 0

unfoldable pub close : ℤ → ℤ
close fd = pos 0

module _ {V : Type 0} where
  -- Paths are kept whole: this is the code for paths shorter than `max_path`, since a longer one runs over its
  -- field into the flags and what stands behind them.
  unfoldable pub node_init : ℕ → List ℕ → List ℕ → ℕ → Option ℕ → Fs V → Fs V
  node_init idx name path flags parent fs = record fs {
    nodes = update fs.nodes idx (record {
      name = stored_name name path;
      path = path;
      flags = bit_or flags flag_used;
      size = 0;
      block = null;
      parent_idx = parent;
      first_child = none;
      next_sibling = none;
    });
  }

  abbrev pub has_path : Fs V → List ℕ → ℕ → Bool
  has_path fs path i = is_used (fs.nodes i) && same_text (fs.nodes i).path path

  unfoldable pub find_node : Fs V → List ℕ → Option ℕ
  find_node fs path = find_from (has_path fs path) fs.vfs_count 0

  -- The walk over the siblings; the fuel bounds its steps.
  unfoldable pub find_sibling : ℕ → Fs V → List ℕ → Option ℕ → Option (Option ℕ)
  find_sibling zero fs name child = none
  find_sibling (suc fuel) fs name none = some none
  find_sibling (suc fuel) fs name (some child) =
      let rest = find_sibling fuel fs name (fs.nodes child).next_sibling in
      if same_text (fs.nodes child).name name then some (some child) else rest

  unfoldable pub find_child : ℕ → Fs V → Option ℕ → List ℕ → Option (Option ℕ)
  find_child fuel fs none name = some none
  find_child fuel fs (some parent) name = find_sibling fuel fs name (fs.nodes parent).first_child

  unfoldable pub alloc_node : Fs V → Option ℕ
  alloc_node fs = find_from (λ i. not (is_used (fs.nodes i))) max_nodes 0

  -- `parent_idx`: -1 where the path in front of the last slash is not there.
  unfoldable pub find_parent : Fs V → List ℕ → Option ℕ
  find_parent fs path = elim (last_slash path) [
    | none ↦ some 0
    | some i ↦ elim (ltb 0 i) [ true ↦ find_node fs (parent_path path i) | false ↦ some 0 ]
  ]

  -- The new node becomes the first child of its parent.
  unfoldable pub link_child : ℕ → Option ℕ → Fs V → Fs V
  link_child idx none fs = fs
  link_child idx (some parent) fs =
      let nodes1 =
        update fs.nodes idx
          (record (fs.nodes idx) { next_sibling = (fs.nodes parent).first_child }) in
      record fs { nodes = update nodes1 parent (record (nodes1 parent) { first_child = some idx }) }

  unfoldable pub count_node : ℕ → Fs V → Fs V
  count_node idx fs = if leb fs.vfs_count idx then record fs { vfs_count = idx + 1 } else fs

  -- The text that `vfs_mkdir` and `vfs_create` share but for the flag.
  unfoldable pub add_node : ℕ → List ℕ → Fs V → ℤ × Fs V
  add_node flag path fs = elim (alloc_node fs) [
    | none ↦ (minus_one, fs)
    | some idx ↦
        let parent = find_parent fs path in
        (
          pos idx,
          count_node idx
              (link_child idx parent (node_init idx (base_name path) path flag parent fs)),
        )
  ]

  unfoldable pub mkdir : List ℕ → Fs V → ℤ × Fs V
  mkdir path fs = add_node flag_dir path fs

  unfoldable pub create : List ℕ → Fs V → ℤ × Fs V
  create path fs = add_node flag_file path fs

  unfoldable pub open_file : Fs V → List ℕ → ℤ
  open_file fs path = elim (find_node fs path) [
    | none ↦ minus_one
    | some idx ↦ if is_dir (fs.nodes idx) then negsuc 1 else pos idx
  ]

  -- `vfs_read`: the result, and the caller's buffer.
  unfoldable pub read : Fs V → ℤ → (ℕ → ℕ) → ℕ → ℤ × (ℕ → ℕ)
  read fs (negsuc n) buf count = (minus_one, buf)
  read fs (pos fd) buf count =
      let node = fs.nodes fd in
      let to_read = if ltb node.size count then node.size else count in
      if leb fs.vfs_count fd || not (is_used node)
      then (minus_one, buf)
      else if node.block == null
      then (pos 0, buf)
      else (to_int32 to_read, copy_from to_read 0 (fs.blocks node.block) buf)

  unfoldable pub stat : Fs V → List ℕ → ℤ
  stat fs path = index_result (find_node fs path)

  unfoldable pub node_count : Fs V → ℕ
  node_count fs = fs.vfs_count

  unfoldable pub get_node : Fs V → ℤ → Option Node
  get_node fs (negsuc n) = none
  get_node fs (pos idx) =
      if leb max_nodes idx || not (is_used (fs.nodes idx)) then none else some (fs.nodes idx)

  module _ (ops : Allocator V) where
    unfoldable pub write : ℤ → (ℕ → ℕ) → ℕ → Fs V → ℤ × Fs V
    write (negsuc n) src count fs = (minus_one, fs)
    write (pos fd) src count fs =
        let node = fs.nodes fd in
        let new_size = add32 node.size count in
        let (new_block, heap) = ops.kmalloc (add32 new_size 1) fs.heap in
        if leb fs.vfs_count fd || not (is_used node) || is_dir node
        then (minus_one, fs)
        else if new_block == null
        then (minus_one, record fs { heap = heap })
        else (
          to_int32 count,
          record fs {
            nodes = update fs.nodes fd (record node { block = new_block; size = new_size });
            blocks = update fs.blocks new_block (written node fs.blocks new_block src count);
            heap = if node.block == null then heap else ops.kfree node.block heap;
          },
        )
