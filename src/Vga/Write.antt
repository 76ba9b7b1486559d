-- ===== src/Vga/Write.antt =====
-- `write`, `clear` and `make_vga_entry` of src/kernel/vga.cpp.
use mathlib.Core.Path.{subst}
use trieternal_x_os.Base.{
  ℕ, ◌+◌, ◌*◌, ◌<◌, ◌≡◌, refl, ◌∙◌, ap, fun_ext, true, false, List, [], ◌∷◌, arith, ltb, ◌==◌,
  if◌then◌else◌, ==→eq,
}
use trieternal_x_os.Base.Bytes.{every, every-at}
use trieternal_x_os.Vga.{
  Console, Terminal, make_vga_entry, make_color, putchar, write, clear, update_cursor,
}
use trieternal_x_os.Vga.Scroll.{blank_lines_lem}
use trieternal_x_os.Vga.Screen.{Tape, type_char, IsText, Shows, Typed, tape, putchar_lem}

-- Typing characters one after the other.
abbrev pub type_all : List ℕ → ℕ → Tape → Tape
type_all [] color p = p
type_all (c ∷ cs) color p = type_all cs color (type_char c color p)

module _ {V : Type 0} (ops : Console V) where
  Shows-tape : {t : Terminal V} {p : Tape} → Shows ops t p → tape ops t ≡ p
  Shows-tape {t} {p} s =
      ap (λ f. record { cells = f; position = t.terminal_row * 80 + t.terminal_column })
        (fun_ext s.cells)
      ∙ ap (λ n. record { cells = p.cells; position = n }) s.position

  -- In text mode `write` types its characters on the screen as on the tape, whatever their number.
  pub write_lem :
      (chars : List ℕ) (t : Terminal V)
      → IsText ops t
      → Typed ops t.terminal_color
          (write ops chars t)
          (type_all chars t.terminal_color (tape ops t))
  unfolding write
  write_lem [] t v = record {
    valid = v;
    color_kept = refl;
    shows = record { cells = λ j. refl; position = refl };
  }
  write_lem (c ∷ chars) t v =
      let h = putchar_lem ops c t v in
      let rest = write_lem chars (putchar ops c t) h.valid in
      let next =
        subst
          (λ k.
            Typed ops k (write ops chars (putchar ops c t))
              (type_all chars k (tape ops (putchar ops c t))))
          h.color_kept rest in
      subst
        (λ p.
          Typed ops t.terminal_color (write ops chars (putchar ops c t))
            (type_all chars t.terminal_color p))
        (Shows-tape h.shows) next

  -- In text mode `clear` blanks the 2000 cells of the screen, white on black whatever the color, and
  -- puts the cursor in the first of them.
  pub clear_lem :
      (t : Terminal V)
      → ops.is_active t.vbe ≡ false
      → Typed ops t.terminal_color (clear ops t) (record {
        cells =
            λ j. if ltb j 2000 then make_vga_entry 32 (make_color 15 0) else t.terminal_buffer j;
        position = 0;
      })
  unfolding clear update_cursor
  clear_lem t text =
      rw (text, clear)
        (record {
          valid = record {
            text = text;
            row = omega arith;
            column = omega arith;
            cursor = omega arith;
          };
          color_kept = refl;
          shows = record {
            cells = λ j. ground (
              arith,
              blank_lines_lem 25 0 (make_vga_entry 32 (make_color 15 0)) t.terminal_buffer j,
            );
            position = refl;
          };
        })

sign_table :
    every (λ c. every (λ color. make_vga_entry (c + 128) color == c + 0xFF80) 256) 128 ≡ true
unfolding every make_vga_entry
sign_table = refl

-- The cell of a character from 128 on has the color 255, whatever the color asked for: the sign of the
-- `char` is extended over it.
pub make_vga_entry-sign :
    (c color : ℕ) → c < 128 → color < 256 → make_vga_entry (c + 128) color ≡ c + 0xFF80
make_vga_entry-sign c color hc hk = ==→eq (make_vga_entry (c + 128) color) (c + 0xFF80) (
    every-at (λ k. make_vga_entry (c + 128) k == c + 0xFF80) 256
      (every-at (λ d. every (λ k. make_vga_entry (d + 128) k == d + 0xFF80) 256) 128 sign_table hc)
      hk)
