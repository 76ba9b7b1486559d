-- ===== src/Fs/Listing.antt =====
-- `vfs_list` of src/kernel/fs.cpp and `api_list_files` of src/kernel/api.cpp, over the sibling links.
use trieternal_x_os.Base.{
  ℕ, zero, suc, Bool, Option, none, some, List, [], ◌∷◌, ◌++◌, if◌then◌else◌,
}
use trieternal_x_os.Base.Text.{codes}
use trieternal_x_os.Base.Decimal.{write_dec}
use trieternal_x_os.Base.Int.{pos}
use trieternal_x_os.Fs.{Node, Fs, is_dir, is_file, find_node, get_node, stat}

-- A call of the terminal's `write` (or of `putchar`, for one byte) or `set_color`.
pub data Output : Type 0 where
  text : List ℕ → Output
  color : ℕ → ℕ → Output

-- The line of a child.
unfoldable pub list_line : Node → List ℕ
list_line n =
    codes "  "
    ++ (if is_dir n then codes "DIR   " else codes "FILE  ")
    ++ n.name
    ++ (if is_file n then codes "  (" ++ write_dec n.size ++ codes " bytes)" else [])
    ++ codes "\n"

-- `VirtualFile`; the block of the content, which is an empty text for none.
pub record VirtualFile : Type 0 where
  pub path : List ℕ
  pub name : List ℕ
  pub block : ℕ
  pub is_dir : Bool
  pub size : ℕ

unfoldable pub virtual_file : Node → VirtualFile
virtual_file n = record {
  path = n.path;
  name = n.name;
  block = n.block;
  is_dir = is_dir n;
  size = n.size;
}

module _ {V : Type 0} (fs : Fs V) where
  -- The loop of `vfs_list`; the fuel bounds its rounds.
  unfoldable pub list_loop : ℕ → Option ℕ → Option (List Output)
  list_loop zero child = none
  list_loop (suc fuel) none = some []
  list_loop (suc fuel) (some child) = elim (list_loop fuel (fs.nodes child).next_sibling) [
    | none ↦ none
    | some rest ↦ some (text (list_line (fs.nodes child)) ∷ rest)
  ]

  unfoldable pub list : ℕ → List ℕ → Option (List Output)
  list fuel path = elim (find_node fs path) [
    | none ↦ some (text (codes "Directory not found: ") ∷ text path ∷ text (codes "\n") ∷ [])
    | some dir ↦ elim (list_loop fuel (fs.nodes dir).first_child) [
      | none ↦ none
      | some lines ↦ some (color 11 0 ∷ text (codes "  TYPE  NAME\n") ∷ color 15 0 ∷ lines)
    ]
  ]

  -- The loop of `api_list_files`, for `room` files more.
  unfoldable pub files_loop : ℕ → ℕ → Option ℕ → Option (List VirtualFile)
  files_loop zero room child = none
  files_loop (suc fuel) room none = some []
  files_loop (suc fuel) zero (some child) = some []
  files_loop (suc fuel) (suc room) (some child) = elim (get_node fs (pos child)) [
    | none ↦ some []
    | some n ↦ elim (files_loop fuel room n.next_sibling) [
      | none ↦ none
      | some rest ↦ some (virtual_file n ∷ rest)
    ]
  ]

  unfoldable pub list_files : ℕ → List ℕ → ℕ → Option (List VirtualFile)
  list_files fuel path max_files = elim (get_node fs (stat fs path)) [
    | none ↦ some []
    | some dir ↦ files_loop fuel max_files dir.first_child
  ]
