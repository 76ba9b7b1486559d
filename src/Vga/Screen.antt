-- ===== src/Vga/Screen.antt =====
-- The text mode of src/kernel/vga.cpp: the screen as one row of cells with a position.
use mathlib.Core.Path.{subst}
use trieternal_x_os.Base.{
  ℕ, ◌+◌, ◌-◌, ◌*◌, ◌/◌, ◌%◌, ◌≤◌, ◌<◌, ◌≡◌, refl, ◌∙◌, sym, false, arith, ltb, ◌==◌, if◌then◌else◌,
  update, inl, inr, Bool-cases,
}
use trieternal_x_os.Vga.{
  Console, Terminal, make_vga_entry, scroll_lines, update_cursor, scroll, place, end_line,
  end_screen, putchar,
}
use trieternal_x_os.Vga.Scroll.{scroll_lines_lem, blank_cells_lem}

-- 25 lines of 80 cells in a row, and where the next character goes.
pub record Tape : Type 0 where
  pub cells : ℕ → ℕ
  pub position : ℕ

-- The cells one line further, and a blank last line.
abbrev pub shifted : ℕ → (ℕ → ℕ) → ℕ → ℕ
shifted blank cells j = if ltb j 1920 then cells (j + 80) else if ltb j 2000 then blank else cells j

-- At the end of the screen the last line starts anew.
abbrev pub turn : ℕ → Tape → Tape
turn blank p =
    if ltb p.position 2000 then p else record { cells = shifted blank p.cells; position = 1920 }

-- A character on the tape, the end of the screen left aside.
abbrev pub stroke : ℕ → ℕ → Tape → Tape
stroke c color p =
    if c == 10
    then record p { position = (p.position / 80 + 1) * 80 }
    else if c == 8
    then (if p.position % 80 == 0 then p else record {
      cells = update p.cells (p.position - 1) (make_vga_entry 32 color);
      position = p.position - 1;
    })
    else record {
      cells = update p.cells p.position (make_vga_entry c color);
      position = p.position + 1;
    }

-- Typing a character on the tape in a color.
abbrev pub type_char : ℕ → ℕ → Tape → Tape
type_char c color p = turn (make_vga_entry 32 color) (stroke c color p)

module _ {V : Type 0} (ops : Console V) where
  -- In text mode, with the cursor on the screen and shown where it is.
  pub record IsText (t : Terminal V) : Type 0 where
    pub text : ops.is_active t.vbe ≡ false
    pub row : t.terminal_row < 25
    pub column : t.terminal_column < 80
    pub cursor : t.cursor_high * 256 + t.cursor_low ≡ t.terminal_row * 80 + t.terminal_column

  -- The screen of `t` is the tape `p`.
  pub record Shows (t : Terminal V) (p : Tape) : Type 0 where
    pub cells : (j : ℕ) → t.terminal_buffer j ≡ p.cells j
    pub position : t.terminal_row * 80 + t.terminal_column ≡ p.position

  abbrev pub tape : Terminal V → Tape
  tape t = record { cells = t.terminal_buffer; position = t.terminal_row * 80 + t.terminal_column }

  module _ (t : Terminal V) (text : ops.is_active t.vbe ≡ false) where
    scroll_lem :
        (j : ℕ)
        → (scroll ops t).terminal_buffer j
          ≡ shifted (make_vga_entry 32 t.terminal_color) t.terminal_buffer j
    unfolding scroll
    scroll_lem j =
        rw (text, scroll)
          (ground (
            arith,
            scroll_lines_lem 24 1 t.terminal_buffer j (omega arith),
            blank_cells_lem 80 0 24 (make_vga_entry 32 t.terminal_color)
                (scroll_lines 24 1 t.terminal_buffer) j,
          ))

  -- The end of `putchar`, from the terminal `u` on.
  abbrev settle : Terminal V → Terminal V
  settle u = let v = end_screen ops u in update_cursor ops v.terminal_row v.terminal_column v

  -- `u` as `place` and `end_line` leave it, for the tape `p`.
  record Placed (color : ℕ) (u : Terminal V) (p : Tape) : Type 0 where
    text : ops.is_active u.vbe ≡ false
    color_is : u.terminal_color ≡ color
    row : u.terminal_row ≤ 25
    column : u.terminal_column < 80
    cells : (j : ℕ) → u.terminal_buffer j ≡ p.cells j
    position : u.terminal_row * 80 + u.terminal_column ≡ p.position

  -- What one character comes to.
  pub record Typed (color : ℕ) (out : Terminal V) (p : Tape) : Type 0 where
    pub valid : IsText out
    pub color_kept : out.terminal_color ≡ color
    pub shows : Shows out p

  cursor_lem :
      (v : Terminal V) (p : Tape)
      → ops.is_active v.vbe ≡ false
      → v.terminal_row < 25
      → v.terminal_column < 80
      → Shows v p
      → Typed v.terminal_color (update_cursor ops v.terminal_row v.terminal_column v) p
  unfolding update_cursor
  cursor_lem v p text r c s =
      rw (text, update_cursor)
        (record {
          valid = record { text = text; row = r; column = c; cursor = omega arith };
          color_kept = refl;
          shows = record { cells = s.cells; position = s.position };
        })

  scroll-vbe : (u : Terminal V) → (scroll ops u).vbe ≡ u.vbe
  unfolding scroll
  scroll-vbe u = ground arith

  scroll-color : (u : Terminal V) → (scroll ops u).terminal_color ≡ u.terminal_color
  unfolding scroll
  scroll-color u = ground arith

  -- The screen has ended or not.
  ended :
      (color : ℕ) (u : Terminal V) (p : Tape)
      → Placed color u p
      → (ops.is_active (end_screen ops u).vbe ≡ false)
        × ((end_screen ops u).terminal_color ≡ color)
        × ((end_screen ops u).terminal_row < 25)
        × ((end_screen ops u).terminal_column < 80)
        × Shows (end_screen ops u) (turn (make_vga_entry 32 color) p)
  unfolding end_screen
  ended color u p h = elim (Bool-cases (u.terminal_row == 25)) [
    | inl full ↦ rw full (
      subst (λ w. ops.is_active w ≡ false) (sym (scroll-vbe u)) h.text,
      scroll-color u ∙ h.color_is,
      omega arith,
      omega arith,
      record {
        cells = λ j.
            rw (← h.color_is)
              (ground (arith, scroll_lem u h.text j, h.cells j, h.cells (j + 80), h.position));
        position = ground (arith, h.position);
      },
    )
    | inr room ↦ rw room (
      h.text,
      h.color_is,
      ground (arith, h.row),
      h.column,
      record {
        cells = λ j. ground (arith, h.cells j, h.row, h.column, h.position);
        position = ground (arith, h.row, h.column, h.position);
      },
    )
  ]

  settle_lem :
      (color : ℕ) (u : Terminal V) (p : Tape)
      → Placed color u p
      → Typed color (settle u) (turn (make_vga_entry 32 color) p)
  settle_lem color u p h =
      let (text, same, row, column, shows) = ended color u p h in
      subst (λ k. Typed k (settle u) (turn (make_vga_entry 32 color) p)) same
        (cursor_lem (end_screen ops u) (turn (make_vga_entry 32 color) p) text row column shows)

  placed_lem :
      (c : ℕ) (t : Terminal V)
      → IsText t
      → Placed t.terminal_color
          (end_line ops c (place ops c t))
          (stroke c t.terminal_color (tape t))
  unfolding end_line place
  placed_lem c t v = record {
    text = subst (λ w. ops.is_active w ≡ false) (sym vbe_kept) v.text;
    color_is = ground arith;
    row = ground (arith, v.row);
    column = ground (arith, v.row, v.column);
    cells = λ j. ground (arith, v.row, v.column);
    position = ground (arith, v.row, v.column);
  }
    where
      vbe_kept : (end_line ops c (place ops c t)).vbe ≡ t.vbe
      vbe_kept = ground arith

  -- In text mode `putchar` types its character on the screen as on a tape of 25 times 80 cells: the
  -- cursor stays on the screen and is shown where it is, and no cell outside the screen is written.
  pub putchar_lem :
      (c : ℕ) (t : Terminal V)
      → IsText t
      → Typed t.terminal_color (putchar ops c t) (type_char c t.terminal_color (tape t))
  unfolding putchar
  putchar_lem c t v =
      rw (v.text, putchar)
        (settle_lem t.terminal_color (end_line ops c (place ops c t))
          (stroke c t.terminal_color (tape t)) (placed_lem c t v))
