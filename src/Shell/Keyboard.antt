-- ===== src/Shell/Keyboard.antt =====
-- The interrupt handler of src/drivers/keyboard.cpp and the wait for a key.
use trieternal_x_os.Base.{
  ℕ, zero, suc, Bool, true, false, not, Option, none, some, List, [], ◌∷◌, ◌++◌, ltb, ◌==◌,
  if◌then◌else◌, entry_of,
}
use trieternal_x_os.Base.Text.{codes}

-- `scancode_map`; the entries from 58 on are 0.
abbrev pub scancode_map : List ℕ
scancode_map =
    (0 ∷ 27 ∷ codes "1234567890-=")
    ++ (8 ∷ 9 ∷ codes "qwertyuiop[]")
    ++ (10 ∷ 0 ∷ codes "asdfghjkl;'`")
    ++ (0 ∷ codes "\\zxcvbnm,./")
    ++ (0 ∷ b'*' ∷ 0 ∷ b' ' ∷ [])

-- `last_char` and `has_char`; `sys` is the state of the rest of the system.
pub record Keyboard (S : Type 0) : Type 0 where
  pub last_char : ℕ
  pub has_char : Bool
  pub sys : S

-- `is_in_gui_mode`, `gui_handle_key`, `shell_input`, `PIC_sendEOI` of the keyboard, and `scheduler_yield`,
-- while which the handler may run.
pub record Typing (S : Type 0) : Type 0 where
  pub is_in_gui_mode : S → Bool
  pub gui_handle_key : ℕ → ℕ → S → S
  pub shell_input : ℕ → S → S
  pub send_eoi : S → S
  pub yield : Keyboard S → Keyboard S

module _ {S : Type 0} (ops : Typing S) where
  -- `scancode` is what the port 0x60 holds.
  unfoldable pub keyboard_handler : ℕ → Keyboard S → Keyboard S
  unfolding entry_of
  keyboard_handler scancode k =
      let c = entry_of scancode_map scancode 0 in
      let kept = if not (c == 0) then record k { last_char = c; has_char = true } else k in
      let sys1 =
        if ops.is_in_gui_mode k.sys
        then ops.gui_handle_key scancode c k.sys
        else if not (c == 0)
        then ops.shell_input c k.sys
        else k.sys in
      if ltb scancode 0x80
      then record kept { sys = ops.send_eoi sys1 }
      else record k { sys = ops.send_eoi k.sys }

  unfoldable pub init_keyboard : Keyboard S → Keyboard S
  init_keyboard k = record k { last_char = 0; has_char = false }

  -- The fuel bounds the calls of `scheduler_yield`.
  unfoldable pub keyboard_get_key : ℕ → Keyboard S → Option (ℕ × Keyboard S)
  keyboard_get_key zero k = none
  keyboard_get_key (suc fuel) k = elim k.has_char [
    | true ↦ some (k.last_char, record k { has_char = false })
    | false ↦ keyboard_get_key fuel (ops.yield k)
  ]

  unfoldable pub keyboard_has_key : Keyboard S → Bool
  keyboard_has_key k = k.has_char
