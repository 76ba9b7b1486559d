-- ===== src/Vbe/Safe.antt =====
-- The drawing of src/drivers/vbe.cpp writes to the pixels of the framebuffer only.
use mathlib.Core.Path.{subst}
use trieternal_x_os.Base.{
  ℕ, zero, suc, ◌+◌, ◌-◌, ◌≤◌, ◌<◌, ◌≡◌, ◌≢◌, ◌⊎◌, inl, inr, refl, ◌∙◌, ap, Bool, true, false, not,
  ◌&&◌, ◌||◌, arith, ltb, leb, if◌then◌else◌, Bool-cases, update, ne→==,
}
use trieternal_x_os.Base.Bytes.{has_bit}
use trieternal_x_os.Base.Words.{add32, mul32, lt32, rounds}
use trieternal_x_os.Vbe.{
  Vbe, line_at, word_at, on_screen, putpixel, clear_line, clear_lines, clear, rect_line, rect_lines,
  draw_rect, glyph_line, char_columns, char_rows, draw_char,
}

-- The address `a` is not that of a pixel.
abbrev pub IsOutside : Vbe → ℕ → Type 0
IsOutside s a = (x y : ℕ) → x < s.fb_width → y < s.fb_height → a ≢ word_at (line_at s y) x

-- The same picture format, and the same memory but for the pixels.
pub record IsShown (s out : Vbe) : Type 0 where
  pub active : out.vbe_active ≡ s.vbe_active
  pub addr : out.fb_addr ≡ s.fb_addr
  pub width : out.fb_width ≡ s.fb_width
  pub height : out.fb_height ≡ s.fb_height
  pub pitch : out.fb_pitch ≡ s.fb_pitch
  pub cols : out.console_cols ≡ s.console_cols
  pub rows : out.console_rows ≡ s.console_rows
  pub outside : (a : ℕ) → IsOutside s a → out.words a ≡ s.words a

-- The same cursor of the console, too.
pub record IsDrawn (s out : Vbe) : Type 0 where
  pub shown : IsShown s out
  pub column : out.console_x ≡ s.console_x
  pub row : out.console_y ≡ s.console_y

IsOutside-shown : (s t : Vbe) (a : ℕ) → IsShown s t → IsOutside s a → IsOutside t a
IsOutside-shown s t a d o x y lx ly e =
    o x y (subst (λ w. x < w) d.width lx) (subst (λ h. y < h) d.height ly) (
      e
      ∙ ap (λ p. word_at (add32 t.fb_addr (mul32 y p)) x) d.pitch
      ∙ ap (λ f. word_at (add32 f (mul32 y s.fb_pitch)) x) d.addr)

pub IsShown-trans : (s t u : Vbe) → IsShown s t → IsShown t u → IsShown s u
IsShown-trans s t u d e = record {
  active = e.active ∙ d.active;
  addr = e.addr ∙ d.addr;
  width = e.width ∙ d.width;
  height = e.height ∙ d.height;
  pitch = e.pitch ∙ d.pitch;
  cols = e.cols ∙ d.cols;
  rows = e.rows ∙ d.rows;
  outside = λ a o. e.outside a (IsOutside-shown s t a d o) ∙ d.outside a o;
}

-- New words that agree with the old ones outside the pixels, and a new place of the cursor.
pub IsShown-words :
    (s : Vbe) (words : ℕ → ℕ) (x y : ℕ)
    → ((a : ℕ) → IsOutside s a → words a ≡ s.words a)
    → IsShown s (record s { words = words; console_x = x; console_y = y })
IsShown-words s words x y same = record {
  active = refl;
  addr = refl;
  width = refl;
  height = refl;
  pitch = refl;
  cols = refl;
  rows = refl;
  outside = same;
}

pub IsDrawn-words :
    (s : Vbe) (words : ℕ → ℕ)
    → ((a : ℕ) → IsOutside s a → words a ≡ s.words a)
    → IsDrawn s (record s { words = words })
IsDrawn-words s words same = record {
  shown = IsShown-words s words s.console_x s.console_y same;
  column = refl;
  row = refl;
}

pub IsDrawn-refl : (s : Vbe) → IsDrawn s s
IsDrawn-refl s = IsDrawn-words s s.words (λ a o. refl)

pub IsDrawn-trans : (s t u : Vbe) → IsDrawn s t → IsDrawn t u → IsDrawn s u
IsDrawn-trans s t u d e = record {
  shown = IsShown-trans s t u d.shown e.shown;
  column = e.column ∙ d.column;
  row = e.row ∙ d.row;
}

pub update_outside : (words : ℕ → ℕ) (at color a : ℕ) → a ≢ at → update words at color a ≡ words a
update_outside words at color a ne = rw (ne→== a at ne) refl

pub IsDrawn-if : (b : Bool) (s t : Vbe) → (b ≡ true → IsDrawn s t) → IsDrawn s (if b then t else s)
IsDrawn-if true s t d = d refl
IsDrawn-if false s t d = IsDrawn-refl s

pub putpixel-IsDrawn : (x y color : ℕ) (s : Vbe) → IsDrawn s (putpixel x y color s)
unfolding putpixel
putpixel-IsDrawn x y color s =
    IsDrawn-if (s.vbe_active && on_screen s x y) s
      (record s { words = update s.words (word_at (line_at s y) x) color })
      (λ e. IsDrawn-words s (update s.words (word_at (line_at s y) x) color) (λ a o.
        update_outside s.words (word_at (line_at s y) x) color a
          (o x y (ground (arith, e)) (ground (arith, e)))))

module _ (s : Vbe) (a : ℕ) (o : IsOutside s a) (y : ℕ) (ly : y < s.fb_height) where
  clear_line-outside :
      (n x color : ℕ) (words : ℕ → ℕ)
      → x + n ≤ s.fb_width
      → clear_line n x (line_at s y) color words a ≡ words a
  unfolding clear_line
  clear_line-outside zero x color words le = refl
  clear_line-outside (suc n) x color words le =
      clear_line-outside n (x + 1) color (update words (word_at (line_at s y) x) color)
        (omega arith)
      ∙ update_outside words (word_at (line_at s y) x) color a (o x y (omega arith) ly)

  rect_line-outside :
      (n cx color : ℕ) (words : ℕ → ℕ)
      → rect_line n cx (line_at s y) s.fb_width color words a ≡ words a
  unfolding rect_line
  rect_line-outside zero cx color words = refl
  rect_line-outside (suc n) cx color words =
      rect_line-outside n (add32 cx 1) color (
        if lt32 cx 0 || leb s.fb_width cx
        then words
        else update words (word_at (line_at s y) cx) color)
      ∙ one (Bool-cases (lt32 cx 0 || leb s.fb_width cx))
    where
      one :
          ((lt32 cx 0 || leb s.fb_width cx) ≡ true) ⊎ ((lt32 cx 0 || leb s.fb_width cx) ≡ false)
          → (if lt32 cx 0 || leb s.fb_width cx
                then words
                else update words (word_at (line_at s y) cx) color)
              a
            ≡ words a
      one (inl t) = rw t refl
      one (inr f) =
          rw f (
            update_outside words (word_at (line_at s y) cx) color a (o cx y (ground (arith, f)) ly))

clear_lines-IsDrawn :
    (n y color : ℕ) (s : Vbe) → y + n ≤ s.fb_height → IsDrawn s (clear_lines n y color s)
unfolding clear_lines
clear_lines-IsDrawn zero y color s le = IsDrawn-refl s
clear_lines-IsDrawn (suc n) y color s le =
    let words = clear_line s.fb_width 0 (line_at s y) color s.words in
    let t : Vbe = record s { words = words } in
    IsDrawn-trans s t (clear_lines n (y + 1) color t)
      (IsDrawn-words s words
        (λ a o. clear_line-outside s a o y (omega arith) s.fb_width 0 color s.words (omega arith)))
      (clear_lines-IsDrawn n (y + 1) color t (omega arith))

pub clear-IsDrawn : (color : ℕ) (s : Vbe) → IsDrawn s (clear color s)
unfolding clear
clear-IsDrawn color s =
    IsDrawn-if s.vbe_active s (clear_lines s.fb_height 0 color s)
      (λ e. clear_lines-IsDrawn s.fb_height 0 color s (omega arith))

rect_lines-IsDrawn : (n cy x w color : ℕ) (s : Vbe) → IsDrawn s (rect_lines n cy x w color s)
unfolding rect_lines
rect_lines-IsDrawn zero cy x w color s = IsDrawn-refl s
rect_lines-IsDrawn (suc n) cy x w color s =
    let hidden = lt32 cy 0 || leb s.fb_height cy in
    let line = rect_line (rounds w) x (line_at s cy) s.fb_width color s.words in
    let words = if hidden then s.words else line in
    let t : Vbe = record s { words = words } in
    IsDrawn-trans s t (rect_lines n (add32 cy 1) x w color t)
      (IsDrawn-words s words (λ a o. one a o (Bool-cases hidden)))
      (rect_lines-IsDrawn n (add32 cy 1) x w color t)
  where
    one :
        (a : ℕ)
        → IsOutside s a
        → ((lt32 cy 0 || leb s.fb_height cy) ≡ true) ⊎ ((lt32 cy 0 || leb s.fb_height cy) ≡ false)
        → (if lt32 cy 0 || leb s.fb_height cy
              then s.words
              else rect_line (rounds w) x (line_at s cy) s.fb_width color s.words)
            a
          ≡ s.words a
    one a o (inl t) = rw t refl
    one a o (inr f) =
        rw f (rect_line-outside s a o cy (ground (arith, f)) (rounds w) x color s.words)

pub draw_rect-IsDrawn : (x y w h color : ℕ) (s : Vbe) → IsDrawn s (draw_rect x y w h color s)
unfolding draw_rect
draw_rect-IsDrawn x y w h color s =
    IsDrawn-if s.vbe_active s (rect_lines (rounds h) y x w color s)
      (λ e. rect_lines-IsDrawn (rounds h) y x w color s)

char_columns-IsDrawn :
    (n col x y bits color : ℕ) (s : Vbe) → IsDrawn s (char_columns n col x y bits color s)
unfolding char_columns
char_columns-IsDrawn zero col x y bits color s = IsDrawn-refl s
char_columns-IsDrawn (suc n) col x y bits color s =
    let t = if has_bit bits (7 - col) then putpixel (add32 x col) y color s else s in
    IsDrawn-trans s t (char_columns n (col + 1) x y bits color t)
      (IsDrawn-if (has_bit bits (7 - col)) s (putpixel (add32 x col) y color s)
        (λ e. putpixel-IsDrawn (add32 x col) y color s))
      (char_columns-IsDrawn n (col + 1) x y bits color t)

char_rows-IsDrawn :
    (n row x y font_idx color : ℕ) (s : Vbe) → IsDrawn s (char_rows n row x y font_idx color s)
unfolding char_rows
char_rows-IsDrawn zero row x y font_idx color s = IsDrawn-refl s
char_rows-IsDrawn (suc n) row x y font_idx color s =
    let t = char_columns 8 0 x (add32 y row) (glyph_line font_idx row) color s in
    IsDrawn-trans s t (char_rows n (row + 1) x y font_idx color t)
      (char_columns-IsDrawn 8 0 x (add32 y row) (glyph_line font_idx row) color s)
      (char_rows-IsDrawn n (row + 1) x y font_idx color t)

pub draw_char-IsDrawn : (x y c color : ℕ) (s : Vbe) → IsDrawn s (draw_char x y c color s)
unfolding draw_char
draw_char-IsDrawn x y c color s = elim (Bool-cases (not s.vbe_active || ltb c 32 || ltb 126 c)) [
  | inl t ↦ rw t (IsDrawn-refl s)
  | inr f ↦ rw f (char_rows-IsDrawn 8 0 x y (c - 32) color s)
]
