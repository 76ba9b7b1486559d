-- ===== src/Vga/Scroll.antt =====
-- The loops of `scroll` and `clear` in src/kernel/vga.cpp, cell by cell.
use trieternal_x_os.Base.{
  ℕ, zero, suc, ◌+◌, ◌-◌, ◌*◌, ◌<◌, ◌≡◌, ◌&&◌, arith, leb, ltb, if◌then◌else◌, update,
}
use trieternal_x_os.Vga.{scroll_cells, scroll_lines, blank_cells, blank_lines, vga_width}

scroll_cells_lem :
    (n x y : ℕ) (b : ℕ → ℕ) (j : ℕ)
    → 0 < y
    → scroll_cells n x y b j
      ≡ (if leb ((y - 1) * 80 + x) j && ltb j ((y - 1) * 80 + x + n) then b (j + 80) else b j)
unfolding scroll_cells
scroll_cells_lem zero x y b j pos = ground arith
scroll_cells_lem (suc n) x y b j pos = ground (
  arith,
  scroll_cells_lem n (x + 1) y (update b ((y - 1) * vga_width + x) (b (y * vga_width + x))) j pos,
  cell,
)
  where
    cell : y * 80 + x ≡ (y - 1) * 80 + x + 80
    cell = omega arith

pub scroll_lines_lem :
    (n y : ℕ) (b : ℕ → ℕ) (j : ℕ)
    → 0 < y
    → scroll_lines n y b j
      ≡ (if leb ((y - 1) * 80) j && ltb j ((y - 1 + n) * 80) then b (j + 80) else b j)
unfolding scroll_lines
scroll_lines_lem zero y b j pos = ground arith
scroll_lines_lem (suc n) y b j pos = ground (
  arith,
  scroll_lines_lem n (y + 1) (scroll_cells vga_width 0 y b) j (omega arith),
  scroll_cells_lem 80 0 y b j pos,
  scroll_cells_lem 80 0 y b (j + 80) pos,
)

pub blank_cells_lem :
    (n x y e : ℕ) (b : ℕ → ℕ) (j : ℕ)
    → blank_cells n x y e b j ≡ (if leb (y * 80 + x) j && ltb j (y * 80 + x + n) then e else b j)
unfolding blank_cells
blank_cells_lem zero x y e b j = ground arith
blank_cells_lem (suc n) x y e b j =
    ground (arith, blank_cells_lem n (x + 1) y e (update b (y * vga_width + x) e) j)

pub blank_lines_lem :
    (n y e : ℕ) (b : ℕ → ℕ) (j : ℕ)
    → blank_lines n y e b j ≡ (if leb (y * 80) j && ltb j ((y + n) * 80) then e else b j)
unfolding blank_lines
blank_lines_lem zero y e b j = ground arith
blank_lines_lem (suc n) y e b j = ground (
  arith,
  blank_lines_lem n (y + 1) e (blank_cells vga_width 0 y e b) j,
  blank_cells_lem 80 0 y e b j,
)
