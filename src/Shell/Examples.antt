-- ===== src/Shell/Examples.antt =====
-- A line typed at the shell of src/kernel/shell.cpp, and test runs.
use trieternal_x_os.Base.{ℕ, ◌≡◌, ◌≤◌, refl, false, List, [], ◌∷◌, ◌++◌, entry_of, length, window}
use trieternal_x_os.Base.Text.{codes}
use trieternal_x_os.Shell.{Commands, Shell, atoi_from, my_atoi, shell_input}
use trieternal_x_os.Shell.Keyboard.{Keyboard, Typing, keyboard_handler}
use trieternal_x_os.Shell.Line.{edited, shell_input-edited, type_line}

-- The first three bytes of each line that is executed.
abbrev log_ops : Commands (List ℕ)
log_ops = record {
  putchar = λ c log. log;
  execute = λ buffer log. log ++ window buffer 0 3;
  prompt = λ log. log;
}

abbrev fresh : Shell (List ℕ)
fresh = record { shell_buffer = λ i. 7; shell_buffer_index = 0; sys = [] }

-- A backspace between the letters.
abbrev typed_hi : List ℕ
typed_hi = b'h' ∷ b'x' ∷ 8 ∷ b'i' ∷ []

shell_input-edited_example :
    (buffer : ℕ → ℕ) × (sys : List ℕ) × (shell_input log_ops 10 (type_line log_ops typed_hi fresh)
      ≡ record { shell_buffer = buffer; shell_buffer_index = 0; sys = sys ++ window buffer 0 3 })
    × (window buffer 0 (length (edited [] typed_hi)) ≡ edited [] typed_hi)
    × (buffer (length (edited [] typed_hi)) ≡ 0)
    × (length (edited [] typed_hi) ≤ 255)
shell_input-edited_example =
    shell_input-edited log_ops typed_hi fresh (refl, (refl, (refl, (refl, tt)))) refl

executed : (shell_input log_ops 10 (type_line log_ops typed_hi fresh)).sys ≡ b'h' ∷ b'i' ∷ 0 ∷ []
unfolding shell_input type_line
executed = refl

reads_number : my_atoi (codes "42x") ≡ 42
unfolding my_atoi atoi_from
reads_number = refl

-- The text screen, with the keys that reach the shell.
abbrev keys_ops : Typing (List ℕ)
keys_ops = record {
  is_in_gui_mode = λ log. false;
  gui_handle_key = λ scancode c log. log;
  shell_input = λ c log. log ++ c ∷ [];
  send_eoi = λ log. log;
  yield = λ k. k;
}

abbrev idle : Keyboard (List ℕ)
idle = record { last_char = 0; has_char = false; sys = [] }

-- The key of "a" goes down and up, the left shift key does nothing.
key_a :
    (keyboard_handler keys_ops 0x2A
      (keyboard_handler keys_ops 0x9E (keyboard_handler keys_ops 0x1E idle))).sys
    ≡ b'a' ∷ []
unfolding keyboard_handler entry_of
key_a = refl

space_bar : (keyboard_handler keys_ops 0x39 idle).last_char ≡ b' '
unfolding keyboard_handler entry_of
space_bar = refl

star_key : (keyboard_handler keys_ops 0x37 idle).last_char ≡ b'*'
unfolding keyboard_handler entry_of
star_key = refl
