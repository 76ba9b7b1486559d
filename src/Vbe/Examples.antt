-- ===== src/Vbe/Examples.antt =====
-- The theorems about src/drivers/vbe.cpp at a concrete picture, and test runs.
use trieternal_x_os.Base.{◌+◌, ◌-◌, ◌^◌, ◌≡◌, refl, true, ◌&&◌, some, arith, entry_of}
use trieternal_x_os.Base.Text.{codes}
use trieternal_x_os.Vbe.{
  Vbe, on_screen, word_at, line_at, draw_line, putpixel, draw_char, char_rows, char_columns,
  glyph_line,
}
use trieternal_x_os.Vbe.Terminal.{console_write}
use trieternal_x_os.Vbe.Safe.{IsShown, IsDrawn}
use trieternal_x_os.Vbe.Cursor.{IsConsole, console_write-IsConsole}
use trieternal_x_os.Vbe.DrawLine.{draw_line_lem}

-- A black picture of 800 x 600 at 0xE0000000, with the cursor in the last column of the last line.
abbrev black : Vbe
black = record {
  vbe_active = true;
  fb_addr = 0xE0000000;
  fb_width = 800;
  fb_height = 600;
  fb_pitch = 3200;
  fb_bpp = 32;
  console_fg = 0xFFFFFF;
  console_bg = 0;
  console_x = 99;
  console_y = 74;
  console_cols = 100;
  console_rows = 75;
  words = λ a. 0;
}

black-IsConsole : IsConsole black
black-IsConsole = record {
  wide = omega arith;
  tall = omega arith;
  cols = omega arith;
  rows = omega arith;
  column = omega arith;
  row = omega arith;
}

console_write-IsConsole_example :
    IsConsole (console_write (codes "ab\n") black)
    × IsShown black (console_write (codes "ab\n") black)
console_write-IsConsole_example = console_write-IsConsole (codes "ab\n") black black-IsConsole

-- From (3, -2) to (7, 1).
draw_line_lem_example :
    (out : Vbe) × (draw_line 9 3 (2 ^ 32 - 2) 7 1 255 black ≡ some out)
    × IsDrawn black out
    × ((out.vbe_active && on_screen out 7 1) ≡ true → out.words (word_at (line_at out 1) 7) ≡ 255)
draw_line_lem_example =
    draw_line_lem 9 3 (2 ^ 32 - 2) 7 1 255 black (omega arith, omega arith)
      (omega arith, omega arith) (omega arith, omega arith) (omega arith, omega arith) (omega arith)
      (omega arith)

-- The second line of an "A", which is 0x3C: pixels 2 to 5.
letter : (draw_char 0 0 65 7 black).words (0xE0000000 + 3200 + 8) ≡ 7
unfolding draw_char char_rows char_columns glyph_line entry_of putpixel
letter = refl

beside_letter : (draw_char 0 0 65 7 black).words (0xE0000000 + 3200 + 4) ≡ 0
unfolding draw_char char_rows char_columns glyph_line entry_of putpixel
beside_letter = refl
