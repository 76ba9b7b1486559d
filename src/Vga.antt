-- ===== src/Vga.antt =====
-- The text terminal, src/kernel/vga.cpp. While the graphics driver is active its console takes the
-- calls; the record `Console` is what the terminal asks of it. A `char` is its byte.
pub mod Scroll
pub mod Screen
pub mod Write
mod Examples
use trieternal_x_os.Base.{
  ℕ, zero, suc, ◌+◌, ◌-◌, ◌*◌, ◌/◌, ◌%◌, ◌^◌, bit_or, Bool, true, false, not, ◌&&◌, List, [], ◌∷◌,
  ltb, ◌==◌, if◌then◌else◌, update, entry_of,
}
use trieternal_x_os.Base.Words.{add32, sub32, mul32}

-- `vbe_is_active`, `vbe_console_clear`, `vbe_console_set_color` and `vbe_console_putchar`.
pub record Console (V : Type 0) : Type 0 where
  pub is_active : V → Bool
  pub console_clear : V → V
  pub console_set_color : ℕ → ℕ → V → V
  pub console_putchar : ℕ → V → V

-- `VGA::Terminal`, with the two cursor registers of the display and the state of the console.
pub record Terminal (V : Type 0) : Type 0 where
  pub terminal_row : ℕ
  pub terminal_column : ℕ
  pub terminal_color : ℕ
  pub terminal_buffer : ℕ → ℕ
  pub cursor_low : ℕ
  pub cursor_high : ℕ
  pub vbe : V

abbrev pub vga_width : ℕ
vga_width = 80

abbrev pub vga_height : ℕ
vga_height = 25

-- The characters that move the cursor only, and the blank.
abbrev pub newline : ℕ
newline = 10

abbrev pub backspace : ℕ
backspace = 8

abbrev pub space : ℕ
space = 32

abbrev palette : List ℕ
palette =
    0x000000 ∷ 0x0000AA ∷ 0x00AA00 ∷ 0x00AAAA ∷ 0xAA0000 ∷ 0xAA00AA ∷ 0xAA5500 ∷ 0xAAAAAA ∷ 0x555555
    ∷ 0x5555FF ∷ 0x55FF55 ∷ 0x55FFFF ∷ 0xFF5555 ∷ 0xFF55FF ∷ 0xFFFF55 ∷ 0xFFFFFF ∷ []

-- `vga_to_rgb`
unfoldable pub vga_to_rgb : ℕ → ℕ
unfolding entry_of
vga_to_rgb c = entry_of palette c 0xFFFFFF

unfoldable pub make_color : ℕ → ℕ → ℕ
make_color fg bg = bit_or fg (bg * 16) % 2 ^ 8

-- `uint16_t c16 = c` extends the sign of `c`.
unfoldable pub make_vga_entry : ℕ → ℕ → ℕ
make_vga_entry c color = bit_or (if ltb c 128 then c else c + 0xFF00) (color * 2 ^ 8) % 2 ^ 16

-- The inner loop of `scroll`: the `n` cells from column `x` on of the line `y`, one line up.
unfoldable pub scroll_cells : ℕ → ℕ → ℕ → (ℕ → ℕ) → ℕ → ℕ
scroll_cells zero x y buffer = buffer
scroll_cells (suc n) x y buffer =
    scroll_cells n (x + 1) y (update buffer ((y - 1) * vga_width + x) (buffer (y * vga_width + x)))

unfoldable pub scroll_lines : ℕ → ℕ → (ℕ → ℕ) → ℕ → ℕ
scroll_lines zero y buffer = buffer
scroll_lines (suc n) y buffer = scroll_lines n (y + 1) (scroll_cells vga_width 0 y buffer)

-- `n` cells of the line `y` from column `x` on become `entry`.
unfoldable pub blank_cells : ℕ → ℕ → ℕ → ℕ → (ℕ → ℕ) → ℕ → ℕ
blank_cells zero x y entry buffer = buffer
blank_cells (suc n) x y entry buffer =
    blank_cells n (x + 1) y entry (update buffer (y * vga_width + x) entry)

unfoldable pub blank_lines : ℕ → ℕ → ℕ → (ℕ → ℕ) → ℕ → ℕ
blank_lines zero y entry buffer = buffer
blank_lines (suc n) y entry buffer =
    blank_lines n (y + 1) entry (blank_cells vga_width 0 y entry buffer)

unfoldable pub get_color : {V : Type 0} → Terminal V → ℕ
get_color t = t.terminal_color

module _ {V : Type 0} (ops : Console V) where
  unfoldable pub update_cursor : ℕ → ℕ → Terminal V → Terminal V
  update_cursor row col t =
      let position = add32 (mul32 row vga_width) col % 2 ^ 16 in
      if ops.is_active t.vbe
      then t
      else record t { cursor_low = position % 2 ^ 8; cursor_high = position / 2 ^ 8 }

  unfoldable pub clear : Terminal V → Terminal V
  unfolding update_cursor
  clear t =
      if ops.is_active t.vbe
      then record t { vbe = ops.console_clear t.vbe }
      else update_cursor 0 0 (record t {
        terminal_row = 0;
        terminal_column = 0;
        terminal_buffer =
            blank_lines vga_height 0 (make_vga_entry space (make_color 15 0)) t.terminal_buffer;
      })

  unfoldable pub set_color : ℕ → ℕ → Terminal V → Terminal V
  set_color fg bg t =
      if ops.is_active t.vbe
      then record t { vbe = ops.console_set_color (vga_to_rgb fg) (vga_to_rgb bg) t.vbe }
      else record t { terminal_color = make_color fg bg }

  unfoldable pub initialize : Terminal V → Terminal V
  unfolding clear set_color
  initialize t =
      if ops.is_active t.vbe
      then record t { vbe = ops.console_clear t.vbe }
      else clear (set_color 15 0 (record t { terminal_row = 0; terminal_column = 0 }))

  unfoldable pub scroll : Terminal V → Terminal V
  scroll t =
      let moved = scroll_lines (vga_height - 1) 1 t.terminal_buffer in
      let entry = make_vga_entry space t.terminal_color in
      if ops.is_active t.vbe
      then t
      else record t { terminal_buffer = blank_cells vga_width 0 (vga_height - 1) entry moved }

  -- What `putchar` does before it looks at the margins.
  unfoldable pub place : ℕ → Terminal V → Terminal V
  place c t =
      let index = add32 (mul32 t.terminal_row vga_width) t.terminal_column in
      let last = add32 (mul32 t.terminal_row vga_width) (sub32 t.terminal_column 1) in
      if c == newline
      then record t { terminal_column = 0; terminal_row = add32 t.terminal_row 1 }
      else if c == backspace
      then (if ltb 0 t.terminal_column
          then record t {
            terminal_column = sub32 t.terminal_column 1;
            terminal_buffer = update t.terminal_buffer last (make_vga_entry space t.terminal_color);
          }
          else t)
      else record t {
        terminal_buffer = update t.terminal_buffer index (make_vga_entry c t.terminal_color);
        terminal_column = add32 t.terminal_column 1;
      }

  -- A full line ends.
  unfoldable pub end_line : ℕ → Terminal V → Terminal V
  end_line c t =
      if not (c == backspace) && (t.terminal_column == vga_width)
      then record t { terminal_column = 0; terminal_row = add32 t.terminal_row 1 }
      else t

  -- A full screen scrolls.
  unfoldable pub end_screen : Terminal V → Terminal V
  end_screen t =
      if t.terminal_row == vga_height
      then record (scroll t) { terminal_row = vga_height - 1; terminal_column = 0 }
      else t

  unfoldable pub putchar : ℕ → Terminal V → Terminal V
  putchar c t =
      let typed = end_screen (end_line c (place c t)) in
      if ops.is_active t.vbe
      then record t { vbe = ops.console_putchar c t.vbe }
      else update_cursor typed.terminal_row typed.terminal_column typed

  -- The characters before the terminating 0.
  unfoldable pub write : List ℕ → Terminal V → Terminal V
  write [] t = t
  write (c ∷ chars) t = write chars (putchar c t)
