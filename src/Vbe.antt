-- ===== src/Vbe.antt =====
-- The graphics driver, src/drivers/vbe.cpp. An `int` is its 32 bits. `words a` is the 32-bit word at the
-- address `a`; the lines of the framebuffer begin at multiples of four.
mod Font
pub mod Terminal
pub mod Safe
pub mod Cursor
pub mod Lines
pub mod Steep
pub mod DrawLine
mod Examples
use trieternal_x_os.Base.{
  ℕ, zero, suc, ◌+◌, ◌-◌, ◌*◌, ◌/◌, ◌%◌, ◌^◌, Bool, true, false, not, ◌&&◌, ◌||◌, Option, none,
  some, List, [], ◌∷◌, ◌++◌, ltb, leb, ◌==◌, if◌then◌else◌, update, entry_of,
}
use trieternal_x_os.Base.Bytes.{has_bit}
use trieternal_x_os.Base.Words.{add32, sub32, mul32, lt32, rounds}
use trieternal_x_os.Vga.{Console}
use trieternal_x_os.Vbe.Font.{glyphs_0, glyphs_1, glyphs_2, glyphs_3, glyphs_4}

pub record Vbe : Type 0 where
  pub vbe_active : Bool
  pub fb_addr : ℕ
  pub fb_width : ℕ
  pub fb_height : ℕ
  pub fb_pitch : ℕ
  pub fb_bpp : ℕ
  pub console_fg : ℕ
  pub console_bg : ℕ
  pub console_x : ℕ
  pub console_y : ℕ
  pub console_cols : ℕ
  pub console_rows : ℕ
  pub words : ℕ → ℕ

-- The fields of `multiboot_info` that the driver reads.
pub record MultibootInfo : Type 0 where
  pub flags : ℕ
  pub framebuffer_addr : ℕ
  pub framebuffer_pitch : ℕ
  pub framebuffer_width : ℕ
  pub framebuffer_height : ℕ
  pub framebuffer_bpp : ℕ

abbrev font8x8 : List ℕ
font8x8 = glyphs_0 ++ glyphs_1 ++ glyphs_2 ++ glyphs_3 ++ glyphs_4

-- `font8x8[font_idx][row]`
unfoldable pub glyph_line : ℕ → ℕ → ℕ
unfolding entry_of
glyph_line font_idx row = entry_of font8x8 (font_idx * 8 + row) 0

unfoldable pub get_width : Vbe → ℕ
get_width s = s.fb_width

unfoldable pub get_height : Vbe → ℕ
get_height s = s.fb_height

unfoldable pub get_framebuffer_addr : Vbe → ℕ
get_framebuffer_addr s = s.fb_addr

unfoldable pub get_framebuffer_pitch : Vbe → ℕ
get_framebuffer_pitch s = s.fb_pitch

unfoldable pub is_active : Vbe → Bool
is_active s = s.vbe_active

-- The first word of the line `y`, and the word of the column `x` of a line.
abbrev pub line_at : Vbe → ℕ → ℕ
line_at s y = add32 s.fb_addr (mul32 y s.fb_pitch)

abbrev pub word_at : ℕ → ℕ → ℕ
word_at line x = add32 line (mul32 x 4)

abbrev pub on_screen : Vbe → ℕ → ℕ → Bool
on_screen s x y = not (lt32 x 0) && ltb x s.fb_width && not (lt32 y 0) && ltb y s.fb_height

unfoldable pub putpixel : ℕ → ℕ → ℕ → Vbe → Vbe
putpixel x y color s =
    if s.vbe_active && on_screen s x y
    then record s { words = update s.words (word_at (line_at s y) x) color }
    else s

-- `for (x = x0; n > 0; x++, n--) line[x] = color;`
unfoldable pub clear_line : ℕ → ℕ → ℕ → ℕ → (ℕ → ℕ) → ℕ → ℕ
clear_line zero x line color words = words
clear_line (suc n) x line color words =
    clear_line n (x + 1) line color (update words (word_at line x) color)

unfoldable pub clear_lines : ℕ → ℕ → ℕ → Vbe → Vbe
unfolding clear_line
clear_lines zero y color s = s
clear_lines (suc n) y color s =
    clear_lines n (y + 1) color
      (record s { words = clear_line s.fb_width 0 (line_at s y) color s.words })

unfoldable pub clear : ℕ → Vbe → Vbe
unfolding clear_lines
clear color s = if s.vbe_active then clear_lines s.fb_height 0 color s else s

-- The inner loop of `vbe_draw_rect`, for `n` columns from `cx` on.
unfoldable pub rect_line : ℕ → ℕ → ℕ → ℕ → ℕ → (ℕ → ℕ) → ℕ → ℕ
rect_line zero cx line width color words = words
rect_line (suc n) cx line width color words =
    rect_line n (add32 cx 1) line width color
      (if lt32 cx 0 || leb width cx then words else update words (word_at line cx) color)

unfoldable pub rect_lines : ℕ → ℕ → ℕ → ℕ → ℕ → Vbe → Vbe
unfolding rect_line
rect_lines zero cy x w color s = s
rect_lines (suc n) cy x w color s = rect_lines n (add32 cy 1) x w color (record s {
  words =
      if lt32 cy 0 || leb s.fb_height cy
      then s.words
      else rect_line (rounds w) x (line_at s cy) s.fb_width color s.words;
})

unfoldable pub draw_rect : ℕ → ℕ → ℕ → ℕ → ℕ → Vbe → Vbe
unfolding rect_lines
draw_rect x y w h color s = if s.vbe_active then rect_lines (rounds h) y x w color s else s

-- The loop of `vbe_draw_line`; the fuel bounds its rounds.
unfoldable pub line_loop : ℕ → ℕ → ℕ → ℕ → ℕ → ℕ → ℕ → ℕ → ℕ → ℕ → ℕ → Vbe → Option Vbe
unfolding putpixel
line_loop zero x1 y1 x2 y2 dx dy sx sy err color s = none
line_loop (suc fuel) x1 y1 x2 y2 dx dy sx sy err color s =
    let s1 = putpixel x1 y1 color s in
    let e2 = mul32 2 err in
    let to_x = lt32 (sub32 0 dy) e2 in
    let to_y = lt32 e2 dx in
    let err1 = if to_x then sub32 err dy else err in
    elim (x1 == x2 && y1 == y2) [
      | true ↦ some s1
      | false ↦
          line_loop fuel (if to_x then add32 x1 sx else x1) (if to_y then add32 y1 sy else y1) x2 y2
            dx dy sx sy (if to_y then add32 err1 dx else err1) color s1
    ]

-- `(b - a >= 0) ? (b - a) : (a - b)`, and the direction from `a` to `b`.
abbrev pub distance : ℕ → ℕ → ℕ
distance a b = if not (lt32 (sub32 b a) 0) then sub32 b a else sub32 a b

abbrev pub direction : ℕ → ℕ → ℕ
direction a b = if lt32 a b then 1 else sub32 0 1

unfoldable pub draw_line : ℕ → ℕ → ℕ → ℕ → ℕ → ℕ → Vbe → Option Vbe
draw_line fuel x1 y1 x2 y2 color s =
    let dx = distance x1 x2 in
    let dy = distance y1 y2 in
    elim s.vbe_active [
      | false ↦ some s
      | true ↦
          line_loop fuel x1 y1 x2 y2 dx dy (direction x1 x2) (direction y1 y2) (sub32 dx dy) color s
    ]

-- The loops of `vbe_draw_char`, for `n` columns from `col` on and `n` rows from `row` on.
unfoldable pub char_columns : ℕ → ℕ → ℕ → ℕ → ℕ → ℕ → Vbe → Vbe
unfolding putpixel
char_columns zero col x y bits color s = s
char_columns (suc n) col x y bits color s =
    char_columns n (col + 1) x y bits color
      (if has_bit bits (7 - col) then putpixel (add32 x col) y color s else s)

unfoldable pub char_rows : ℕ → ℕ → ℕ → ℕ → ℕ → ℕ → Vbe → Vbe
unfolding char_columns glyph_line
char_rows zero row x y font_idx color s = s
char_rows (suc n) row x y font_idx color s =
    char_rows n (row + 1) x y font_idx color
      (char_columns 8 0 x (add32 y row) (glyph_line font_idx row) color s)

-- A `char` is its byte: one from 128 on is negative, and so below 32.
unfoldable pub draw_char : ℕ → ℕ → ℕ → ℕ → Vbe → Vbe
unfolding char_rows
draw_char x y c color s =
    if not s.vbe_active || ltb c 32 || ltb 126 c then s else char_rows 8 0 x y (c - 32) color s

unfoldable pub draw_string_from : ℕ → ℕ → ℕ → List ℕ → ℕ → Vbe → Vbe
unfolding draw_char
draw_string_from i x y [] color s = s
draw_string_from i x y (c ∷ str) color s =
    draw_string_from (i + 1) x y str color (draw_char (add32 x (mul32 i 8)) y c color s)

unfoldable pub draw_string : ℕ → ℕ → List ℕ → ℕ → Vbe → Vbe
unfolding draw_string_from
draw_string x y str color s = draw_string_from 0 x y str color s

unfoldable pub init : MultibootInfo → Vbe → Vbe
unfolding clear
init mbi s =
    let found = record s {
      vbe_active = false;
      fb_addr = mbi.framebuffer_addr % 2 ^ 32;
      fb_pitch = mbi.framebuffer_pitch;
      fb_width = mbi.framebuffer_width;
      fb_height = mbi.framebuffer_height;
      fb_bpp = mbi.framebuffer_bpp;
    } in
    if not (has_bit mbi.flags 12)
    then record s { vbe_active = false }
    else if not (mbi.framebuffer_bpp == 32)
    then found
    else record (clear 0x001B4B (record found { vbe_active = true })) {
      console_cols = mbi.framebuffer_width / 8;
      console_rows = mbi.framebuffer_height / 8;
      console_x = 0;
      console_y = 0;
    }
