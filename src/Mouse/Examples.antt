-- ===== src/Mouse/Examples.antt =====
-- The theorems about src/drivers/mouse.cpp at a concrete pointer, and test runs.
use trieternal_x_os.Base.{ℕ, ◌+◌, ◌≡◌, refl, true, false, arith}
use trieternal_x_os.Mouse.{Desktop, Mouse, mouse_handler, accept, move, show, clamp, relative}
use trieternal_x_os.Mouse.Packets.{IsValid, Moved, mouse_handler-IsValid, mouse_handler-packet}

-- A desktop that counts the pictures and the acknowledgements.
abbrev counting : Desktop ℕ
counting = record {
  is_in_gui_mode = λ n. true;
  vbe_is_active = λ n. true;
  draw_mouse_cursor = λ x y n. n + 100;
  send_eoi = λ line n. n + 1;
}

-- The pointer near the left edge.
abbrev at_left : Mouse ℕ
at_left = record {
  mouse_cycle = 0;
  mouse_byte = λ i. 0;
  mouse_x = 3;
  mouse_y = 300;
  left_clicked = false;
  right_clicked = false;
  desktop = 0;
}

at_left-IsValid : IsValid at_left
at_left-IsValid = record { cycle = omega arith; x = omega arith; y = omega arith }

mouse_handler-IsValid_example : IsValid (mouse_handler counting 33 9 at_left)
mouse_handler-IsValid_example = mouse_handler-IsValid counting 33 9 at_left at_left-IsValid

mouse_handler-packet_example : Moved counting 25 250 10 at_left (
    mouse_handler counting 33 10
      (mouse_handler counting 33 250 (mouse_handler counting 33 25 at_left)))
mouse_handler-packet_example =
    mouse_handler-packet counting 33 33 33 25 250 10 at_left at_left-IsValid refl refl refl refl
      refl (omega arith) (omega arith)

-- Six pixels to the left of column 3 is column 0; the picture is drawn once.
left_edge :
    (mouse_handler counting 33 10
      (mouse_handler counting 33 250 (mouse_handler counting 33 25 at_left))).mouse_x
    ≡ 0
unfolding mouse_handler accept move show clamp relative
left_edge = refl

one_picture :
    (mouse_handler counting 33 10
      (mouse_handler counting 33 250 (mouse_handler counting 33 25 at_left))).desktop
    ≡ 103
unfolding mouse_handler accept move show clamp relative
one_picture = refl
