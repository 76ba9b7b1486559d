-- ===== src/Vbe/Cursor.antt =====
-- The console of src/drivers/vbe.cpp stays on its screen, and writes to its pixels only.
use trieternal_x_os.Base.{
  ℕ, zero, suc, ◌+◌, ◌*◌, ◌/◌, ◌^◌, ◌≤◌, ◌<◌, ◌≡◌, ◌⊎◌, inl, inr, refl, ◌∙◌, Bool, true, false,
  List, [], ◌∷◌, arith, ◌==◌, if◌then◌else◌, Bool-cases, update,
}
use trieternal_x_os.Base.Words.{add32, sub32, mul32, lt32, lt32→lt}
use trieternal_x_os.Vbe.{Vbe, line_at, word_at, draw_rect, draw_char}
use trieternal_x_os.Vbe.Terminal.{
  copy_line, copy_lines, scroll, place, end_line, end_screen, console_putchar, console_write,
}
use trieternal_x_os.Vbe.Safe.{
  IsOutside, IsShown, IsDrawn, IsShown-words, IsShown-trans, IsDrawn-words, IsDrawn-refl,
  IsDrawn-trans, update_outside, draw_rect-IsDrawn, draw_char-IsDrawn,
}

-- A picture that the loop for scrolling fits in, and a console with the cursor on it.
pub record IsConsole (s : Vbe) : Type 0 where
  pub wide : s.fb_width < 2 ^ 31
  pub tall : 600 ≤ s.fb_height
  pub cols : s.console_cols < 2 ^ 29
  pub rows : s.console_rows < 2 ^ 29
  pub column : s.console_x < s.console_cols
  pub row : s.console_y < s.console_rows

-- Behind `place`: the cursor at the start of a line, or on a line of the screen.
record IsPlaced (s out : Vbe) : Type 0 where
  shown : IsShown s out
  column : out.console_x < 2 ^ 30
  row : out.console_y ≤ s.console_rows
  line : (out.console_x ≡ 0) ⊎ (out.console_y < s.console_rows)

copy_line-outside :
    (s : Vbe) (a : ℕ)
    → IsOutside s a
    → (n x y src : ℕ) (words : ℕ → ℕ) → y < s.fb_height
    → x + n ≤ s.fb_width
    → copy_line n x (line_at s y) src words a ≡ words a
unfolding copy_line
copy_line-outside s a o zero x y src words ly le = refl
copy_line-outside s a o (suc n) x y src words ly le =
    let at = word_at (line_at s y) x in
    let v = words (word_at src x) in
    copy_line-outside s a o n (x + 1) y src (update words at v) ly (omega arith)
    ∙ update_outside words at v a (o x y (omega arith) ly)

copy_lines-IsDrawn : (n y : ℕ) (s : Vbe) → y + n ≤ s.fb_height → IsDrawn s (copy_lines n y s)
unfolding copy_lines
copy_lines-IsDrawn zero y s le = IsDrawn-refl s
copy_lines-IsDrawn (suc n) y s le =
    let words = copy_line s.fb_width 0 (line_at s y) (line_at s (y + 8)) s.words in
    let t : Vbe = record s { words = words } in
    IsDrawn-trans s t (copy_lines n (y + 1) t)
      (IsDrawn-words s words (λ a o.
        copy_line-outside s a o s.fb_width 0 y (line_at s (y + 8)) s.words (omega arith)
          (omega arith)))
      (copy_lines-IsDrawn n (y + 1) t (omega arith))

-- The cursor alone.
moved : (s : Vbe) (x y : ℕ) → IsShown s (record s { console_x = x; console_y = y })
moved s x y = IsShown-words s s.words x y (λ a o. refl)

module _ (s : Vbe) (v : IsConsole s) where
  -- A character that is drawn.
  drawn_char :
      (c : ℕ) (t : Vbe)
      → IsDrawn s t
      → IsPlaced s
          (record (draw_char (mul32 s.console_x 8) (mul32 s.console_y 8) c s.console_fg t) {
            console_x =
                add32
                  (draw_char (mul32 s.console_x 8) (mul32 s.console_y 8) c s.console_fg t).console_x
                  1;
          })
  drawn_char c t d =
      let u = draw_char (mul32 s.console_x 8) (mul32 s.console_y 8) c s.console_fg t in
      let e =
        IsDrawn-trans s t u d
          (draw_char-IsDrawn (mul32 s.console_x 8) (mul32 s.console_y 8) c s.console_fg t) in
      let column = v.column in
      let cols = v.cols in
      let row = v.row in
      record {
        shown =
            IsShown-trans s u (record u { console_x = add32 u.console_x 1 }) e.shown
              (moved u (add32 u.console_x 1) u.console_y);
        column = omega (arith, e.column);
        row = omega (arith, e.row);
        line = inr (omega (arith, e.row));
      }

  place-IsPlaced : (c : ℕ) → IsPlaced s (place c s)
  unfolding place
  place-IsPlaced c =
      let column = v.column in
      let cols = v.cols in
      let row = v.row in
      let rows = v.rows in
      elim (Bool-cases (c == 10)) [
        | inl t ↦ rw t (record {
          shown = moved s 0 (add32 s.console_y 1);
          column = omega arith;
          row = omega arith;
          line = inl refl;
        })
        | inr f ↦ rw f (elim (Bool-cases (c == 13)) [
          | inl t ↦ rw t (record {
            shown = moved s 0 s.console_y;
            column = omega arith;
            row = omega arith;
            line = inl refl;
          })
          | inr f ↦ rw f (elim (Bool-cases (c == 8)) [
            | inl t ↦ rw t (erased (Bool-cases (lt32 0 s.console_x)))
            | inr f ↦ rw f (elim (Bool-cases (c == 9)) [
              | inl t ↦ rw t (record {
                shown = moved s (add32 s.console_x 8 / 8 * 8) s.console_y;
                column = omega arith;
                row = omega arith;
                line = inr row;
              })
              | inr f ↦ rw f (
                  drawn_char c
                    (draw_rect (mul32 s.console_x 8) (mul32 s.console_y 8) 8 8 s.console_bg s)
                    (draw_rect-IsDrawn (mul32 s.console_x 8) (mul32 s.console_y 8) 8 8 s.console_bg
                      s))
            ])
          ])
        ])
      ]
    where
      stay : IsPlaced s s
      stay =
          let column = v.column in
          let cols = v.cols in
          let row = v.row in
          record {
            shown = moved s s.console_x s.console_y;
            column = omega arith;
            row = omega arith;
            line = inr row;
          }

      back : Vbe
      back = record s { console_x = sub32 s.console_x 1 }

      blank : Vbe
      blank = draw_rect (mul32 (sub32 s.console_x 1) 8) (mul32 s.console_y 8) 8 8 s.console_bg back

      erased :
          (lt32 0 s.console_x ≡ true) ⊎ (lt32 0 s.console_x ≡ false)
          → IsPlaced s (if lt32 0 s.console_x then blank else s)
      erased (inr f) = rw f stay
      erased (inl t) =
          let d =
            draw_rect-IsDrawn (mul32 (sub32 s.console_x 1) 8) (mul32 s.console_y 8) 8 8 s.console_bg
              back in
          let column = v.column in
          let cols = v.cols in
          let row = v.row in
          let positive : 0 < s.console_x = ground arith in
          rw t (record {
            shown = IsShown-trans s back blank (moved s (sub32 s.console_x 1) s.console_y) d.shown;
            column = omega (arith, d.column, positive);
            row = omega (arith, d.row);
            line = inr (omega (arith, d.row));
          })

  -- Behind `end_line`, too, and not behind the end of the line.
  record IsLined (out : Vbe) : Type 0 where
    shown : IsShown s out
    column : out.console_x < s.console_cols
    row : out.console_y ≤ s.console_rows

  end_line-IsLined : (t : Vbe) → IsPlaced s t → IsLined (end_line t)
  unfolding end_line
  end_line-IsLined t p =
      let column = v.column in
      let cols = v.cols in
      let rows = v.rows in
      let same_cols = p.shown.cols in
      let far = p.column in
      elim (Bool-cases (lt32 t.console_x t.console_cols)) [
        | inl inside ↦ rw inside (record { shown = p.shown; column = ground arith; row = p.row })
        | inr full ↦
            let over : s.console_cols ≤ t.console_x = ground arith in
            let row : t.console_y < s.console_rows = elim p.line [
              | inl start ↦ absurd (omega arith)
              | inr on ↦ on
            ] in
            rw full (record {
              shown =
                  IsShown-trans s t (record t { console_x = 0; console_y = add32 t.console_y 1 })
                    p.shown (moved t 0 (add32 t.console_y 1));
              column = omega arith;
              row = omega arith;
            })
      ]

  end_screen-IsConsole : (t : Vbe) → IsLined t → IsConsole (end_screen t) × IsShown s (end_screen t)
  unfolding end_screen scroll
  end_screen-IsConsole t l =
      let rows = v.rows in
      let cols = v.cols in
      let wide = v.wide in
      let tall = v.tall in
      let on = v.row in
      let column = l.column in
      let row = l.row in
      let c = copy_lines-IsDrawn 592 0 t (omega (arith, l.shown.height, tall)) in
      let moved_up = copy_lines 592 0 t in
      let cleared = draw_rect 0 592 t.fb_width 8 t.console_bg moved_up in
      let d =
        IsDrawn-trans t moved_up cleared c
          (draw_rect-IsDrawn 0 592 t.fb_width 8 t.console_bg moved_up) in
      elim (Bool-cases (lt32 t.console_y t.console_rows)) [
        | inl inside ↦ rw inside (
          record {
            wide = omega (arith, l.shown.width);
            tall = omega (arith, l.shown.height);
            cols = omega (arith, l.shown.cols);
            rows = omega (arith, l.shown.rows);
            column = omega (arith, l.shown.cols);
            row =
                lt32→lt t.console_y t.console_rows (omega arith) (omega (arith, l.shown.rows))
                  inside;
          },
          l.shown,
        )
        | inr full ↦
            let last = sub32 t.console_rows 1 in
            rw full (
              record {
                wide = omega (arith, l.shown.width, d.shown.width);
                tall = omega (arith, l.shown.height, d.shown.height);
                cols = omega (arith, l.shown.cols, d.shown.cols);
                rows = omega (arith, l.shown.rows, d.shown.rows);
                column = omega (arith, l.shown.cols, d.shown.cols, d.column);
                row = omega (arith, l.shown.rows, d.shown.rows);
              },
              IsShown-trans s t (record cleared { console_y = sub32 t.console_rows 1 }) l.shown
                  (IsShown-trans t cleared (record cleared { console_y = sub32 t.console_rows 1 })
                    d.shown (moved cleared cleared.console_x (sub32 t.console_rows 1))),
            )
      ]

  either :
      (b : Bool) (t : Vbe)
      → IsConsole t × IsShown s t
      → IsConsole (if b then t else s) × IsShown s (if b then t else s)
  either true t w = w
  either false t w = (v, moved s s.console_x s.console_y)

  pub console_putchar-IsConsole :
      (c : ℕ) → IsConsole (console_putchar c s) × IsShown s (console_putchar c s)
  unfolding console_putchar
  console_putchar-IsConsole c = either s.vbe_active (end_screen (end_line (place c s))) (
      end_screen-IsConsole (end_line (place c s)) (end_line-IsLined (place c s) (place-IsPlaced c)))

-- On a picture of at least 600 lines, the console is kept on its screen by any text, the picture keeps its
-- format, and no memory but that of the pixels is written.
pub console_write-IsConsole :
    (str : List ℕ) (s : Vbe)
    → IsConsole s
    → IsConsole (console_write str s) × IsShown s (console_write str s)
unfolding console_write
console_write-IsConsole [] s v = (v, moved s s.console_x s.console_y)
console_write-IsConsole (c ∷ str) s v =
    let (w, d) = console_putchar-IsConsole s v c in
    let (x, e) = console_write-IsConsole str (console_putchar c s) w in
    (x, IsShown-trans s (console_putchar c s) (console_write str (console_putchar c s)) d e)
