-- ===== src/Vbe/Terminal.antt =====
-- The console of src/drivers/vbe.cpp, and the driver as the console of src/kernel/vga.cpp.
use trieternal_x_os.Base.{ℕ, zero, suc, ◌+◌, ◌*◌, ◌/◌, List, [], ◌∷◌, ◌==◌, if◌then◌else◌, update}
use trieternal_x_os.Base.Words.{add32, sub32, mul32, lt32}
use trieternal_x_os.Vga.{Console}
use trieternal_x_os.Vbe.{Vbe, line_at, word_at, is_active, clear, draw_rect, draw_char}

-- The loops that move the picture up by a line of text: `n` words of a line, and `n` lines.
unfoldable pub copy_line : ℕ → ℕ → ℕ → ℕ → (ℕ → ℕ) → ℕ → ℕ
copy_line zero x dest src words = words
copy_line (suc n) x dest src words =
    copy_line n (x + 1) dest src (update words (word_at dest x) (words (word_at src x)))

unfoldable pub copy_lines : ℕ → ℕ → Vbe → Vbe
unfolding copy_line
copy_lines zero y s = s
copy_lines (suc n) y s =
    copy_lines n (y + 1)
      (record s { words = copy_line s.fb_width 0 (line_at s y) (line_at s (y + 8)) s.words })

unfoldable pub scroll : Vbe → Vbe
unfolding copy_lines
scroll s = record (draw_rect 0 592 s.fb_width 8 s.console_bg (copy_lines 592 0 s)) {
  console_y = sub32 s.console_rows 1;
}

-- What a character does before the margins are looked at.
unfoldable pub place : ℕ → Vbe → Vbe
place c s =
    let back = record s { console_x = sub32 s.console_x 1 } in
    let blank =
      λ (t : Vbe). draw_rect (mul32 t.console_x 8) (mul32 t.console_y 8) 8 8 t.console_bg t in
    let shown = draw_char (mul32 s.console_x 8) (mul32 s.console_y 8) c s.console_fg (blank s) in
    if c == 10
    then record s { console_x = 0; console_y = add32 s.console_y 1 }
    else if c == 13
    then record s { console_x = 0 }
    else if c == 8
    then (if lt32 0 s.console_x then blank back else s)
    else if c == 9
    then record s { console_x = add32 s.console_x 8 / 8 * 8 }
    else record shown { console_x = add32 shown.console_x 1 }

-- A full line ends, and a full screen scrolls.
unfoldable pub end_line : Vbe → Vbe
end_line s =
    if lt32 s.console_x s.console_cols
    then s
    else record s { console_x = 0; console_y = add32 s.console_y 1 }

unfoldable pub end_screen : Vbe → Vbe
end_screen s = if lt32 s.console_y s.console_rows then s else scroll s

unfoldable pub console_putchar : ℕ → Vbe → Vbe
console_putchar c s = if s.vbe_active then end_screen (end_line (place c s)) else s

unfoldable pub console_write : List ℕ → Vbe → Vbe
console_write [] s = s
console_write (c ∷ str) s = console_write str (console_putchar c s)

unfoldable pub console_clear : Vbe → Vbe
console_clear s =
    if s.vbe_active then record (clear s.console_bg s) { console_x = 0; console_y = 0 } else s

unfoldable pub console_set_color : ℕ → ℕ → Vbe → Vbe
console_set_color fg bg s = record s { console_fg = fg; console_bg = bg }

-- What src/kernel/vga.cpp calls while the driver is active.
abbrev pub console : Console Vbe
console = record {
  is_active = is_active;
  console_clear = console_clear;
  console_set_color = console_set_color;
  console_putchar = console_putchar;
}
