-- ===== src/Vga/Examples.antt =====
-- The theorems about src/kernel/vga.cpp at concrete terminals, and test runs.
use trieternal_x_os.Base.{ℕ, ◌+◌, ◌≡◌, refl, [], ◌∷◌, arith, ltb}
use trieternal_x_os.Vga.{
  Console, Terminal, make_vga_entry, putchar, write, place, end_line, end_screen, update_cursor,
  scroll,
}
use trieternal_x_os.Vga.Screen.{IsText, Typed, tape}
use trieternal_x_os.Vga.Write.{type_all, write_lem}

-- A console that counts its calls and is active from the first one on.
abbrev counting : Console ℕ
counting = record {
  is_active = λ n. ltb 0 n;
  console_clear = λ n. n + 1;
  console_set_color = λ fg bg n. n + 1;
  console_putchar = λ c n. n + 1;
}

-- The cursor in the last cell of a screen full of stars.
abbrev at_end : Terminal ℕ
at_end = record {
  terminal_row = 24;
  terminal_column = 79;
  terminal_color = 7;
  terminal_buffer = λ j. 42;
  cursor_low = 207;
  cursor_high = 7;
  vbe = 0;
}

at_end-IsText : IsText counting at_end
at_end-IsText = record {
  text = refl;
  row = omega arith;
  column = omega arith;
  cursor = omega arith;
}

write_lem_example :
    Typed counting 7
      (write counting (65 ∷ 10 ∷ 8 ∷ []) at_end)
      (type_all (65 ∷ 10 ∷ 8 ∷ []) 7 (tape counting at_end))
write_lem_example = write_lem counting (65 ∷ 10 ∷ 8 ∷ []) at_end at_end-IsText

-- A character in the last cell scrolls the screen.
line_up : (putchar counting 65 at_end).terminal_row ≡ 24
unfolding putchar place end_line end_screen update_cursor scroll
line_up = refl

plain_entry : make_vga_entry 65 7 ≡ 1857
unfolding make_vga_entry
plain_entry = refl
