-- ===== src/Api.antt =====
-- The calls of src/kernel/api.cpp on files and on the text screen. A returned pointer to the content
-- of a file is the pointer of its block, and the null pointer where the call has no file to read.
pub mod Files
pub mod Rect
mod Examples
use trieternal_x_os.Base.{
  ℕ, zero, suc, ◌+◌, ◌-◌, ◌*◌, ◌%◌, ◌^◌, bit_or, Bool, true, false, ◌&&◌, Option, none, some, List,
  ltb, leb, ◌==◌, if◌then◌else◌, update, length,
}
use trieternal_x_os.Base.Words.{add32, lt32}
use trieternal_x_os.Base.Int.{ℤ, pos, negsuc, minus_one}
use trieternal_x_os.Fs.{
  Allocator, Fs, byte_at, is_dir, null, create, open_file, close, read, write, stat, get_node,
}

unfoldable pub read_file : {V : Type 0} → Fs V → List ℕ → ℕ
read_file fs path = elim (get_node fs (stat fs path)) [
  | none ↦ null
  | some node ↦ if is_dir node then null else node.block
]

-- The file descriptor that `api_write_file_legacy` writes to.
abbrev pub target : {V : Type 0} → ℤ → Fs V → List ℕ → ℤ
target (pos fd) fs path = pos fd
target (negsuc n) fs path = open_file fs path

unfoldable pub write_to : {V : Type 0} → Allocator V → ℤ → List ℕ → Fs V → Bool × Fs V
write_to ops (negsuc n) content fs = (false, fs)
write_to ops (pos fd) content fs =
    (true, (write ops (pos fd) (byte_at content) (length content) fs).1)

unfoldable pub write_file_legacy : {V : Type 0} → Allocator V → List ℕ → List ℕ → Fs V → Bool × Fs V
unfolding write_to
write_file_legacy ops path content fs =
    let (created, fs1) = create path fs in write_to ops (target created fs1 path) content fs1

-- `vfs_read_file`: the result, and the caller's buffer.
unfoldable pub read_opened : {V : Type 0} → Fs V → ℤ → (ℕ → ℕ) → ℕ → ℤ × (ℕ → ℕ)
read_opened fs (negsuc n) buf max_size = (minus_one, buf)
read_opened fs (pos fd) buf max_size = read fs (pos fd) buf max_size

unfoldable pub vfs_read_file : {V : Type 0} → Fs V → List ℕ → (ℕ → ℕ) → ℕ → ℤ × (ℕ → ℕ)
unfolding read_opened
vfs_read_file fs path buf max_size = read_opened fs (open_file fs path) buf max_size

-- `c | (color << 8)`, where `c` is extended by its sign, cut to a cell.
unfoldable pub cell : ℕ → ℕ → ℕ
cell c color = bit_or (if ltb c 128 then c else c + 0xFFFFFF00) (color * 2 ^ 8) % 2 ^ 16

-- How often a loop from a corner runs, up to the corner and an extent, which wrap around: an `int` is its 32 bits.
abbrev pub extent : ℕ → ℕ → ℕ
extent from n = if lt32 from (add32 from n) then n else 0

-- The inner loop of `api_draw_rect`, for `n` columns from `col` on; an `int` is its 32 bits, so that
-- a negative column is not below 80.
unfoldable pub draw_columns : ℕ → ℕ → ℕ → ℕ → (ℕ → ℕ) → ℕ → ℕ
draw_columns zero col r entry buffer = buffer
draw_columns (suc n) col r entry buffer =
    draw_columns n (add32 col 1) r entry
      (if ltb col 80 then update buffer (r * 80 + col) entry else buffer)

unfoldable pub draw_rows : ℕ → ℕ → ℕ → ℕ → ℕ → (ℕ → ℕ) → ℕ → ℕ
draw_rows zero r x w entry buffer = buffer
draw_rows (suc n) r x w entry buffer =
    draw_rows n (add32 r 1) x w entry
      (if ltb r 25 then draw_columns (extent x w) x r entry buffer else buffer)

unfoldable pub draw_rect : ℕ → ℕ → ℕ → ℕ → ℕ → ℕ → (ℕ → ℕ) → ℕ → ℕ
draw_rect x y w h c color buffer = draw_rows (extent y h) y x w (cell c color) buffer
