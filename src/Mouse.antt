-- ===== src/Mouse.antt =====
-- The mouse, src/drivers/mouse.cpp: three-byte packets, the pointer and the buttons. An `int32_t` is
-- its 32 bits.
pub mod Moves
pub mod Packets
mod Examples
use trieternal_x_os.Base.{
  ℕ, ◌+◌, ◌-◌, ◌^◌, bit_and, bit_or, Bool, true, false, not, ◌&&◌, ltb, leb, ◌==◌, if◌then◌else◌,
  update,
}
use trieternal_x_os.Base.Bytes.{has_bit}
use trieternal_x_os.Base.Words.{add32, sub32}

-- What the handler asks of the desktop, the graphics driver and the interrupt controller:
-- `is_in_gui_mode`, `vbe_is_active`, `draw_mouse_cursor_vbe` and `PIC_sendEOI`.
pub record Desktop (V : Type 0) : Type 0 where
  pub is_in_gui_mode : V → Bool
  pub vbe_is_active : V → Bool
  pub draw_mouse_cursor : ℕ → ℕ → V → V
  pub send_eoi : ℕ → V → V

pub record Mouse (V : Type 0) : Type 0 where
  pub mouse_cycle : ℕ
  pub mouse_byte : ℕ → ℕ
  pub mouse_x : ℕ
  pub mouse_y : ℕ
  pub left_clicked : Bool
  pub right_clicked : Bool
  pub desktop : V

-- `a < 0` for an `int32_t`.
abbrev pub is_negative : ℕ → Bool
is_negative a = leb (2 ^ 31) a

-- `if (p < 0) p = 0;` and then `if (p > limit) p = limit;`
unfoldable pub clamp : ℕ → ℕ → ℕ
clamp limit p =
    let above = if is_negative p then 0 else p in
    if not (is_negative above) && ltb limit above then limit else above

-- The movement `byte` with the sign that the bit `k` of the first byte holds.
unfoldable pub relative : ℕ → ℕ → ℕ → ℕ
relative first k byte = if has_bit first k then bit_or byte 0xFFFFFF00 else byte

module _ {V : Type 0} (ops : Desktop V) where
  -- The pointer and the buttons after the three bytes of a packet.
  unfoldable pub move : Mouse V → Mouse V
  move m =
      let first = m.mouse_byte 0 in
      record m {
        left_clicked = has_bit first 0;
        right_clicked = has_bit first 1;
        mouse_x = clamp 799 (add32 m.mouse_x (relative first 4 (m.mouse_byte 1)));
        mouse_y = clamp 599 (sub32 m.mouse_y (relative first 5 (m.mouse_byte 2)));
      }

  unfoldable pub show : Mouse V → Mouse V
  show m =
      if ops.is_in_gui_mode m.desktop && ops.vbe_is_active m.desktop
      then record m { desktop = ops.draw_mouse_cursor m.mouse_x m.mouse_y m.desktop }
      else m

  -- The `switch` over `mouse_cycle`.
  unfoldable pub accept : ℕ → Mouse V → Mouse V
  accept data_byte m =
      if m.mouse_cycle == 0
      then record m {
        mouse_byte = update m.mouse_byte 0 data_byte;
        mouse_cycle = if has_bit data_byte 3 then 1 else m.mouse_cycle;
      }
      else if m.mouse_cycle == 1
      then record m { mouse_byte = update m.mouse_byte 1 data_byte; mouse_cycle = 2 }
      else if m.mouse_cycle == 2
      then show (move (record m { mouse_byte = update m.mouse_byte 2 data_byte; mouse_cycle = 0 }))
      else m

  -- `mouse_handler`, with what the ports 0x64 and 0x60 hold.
  unfoldable pub mouse_handler : ℕ → ℕ → Mouse V → Mouse V
  mouse_handler status data_byte m =
      let taken = if has_bit status 0 && has_bit status 5 then accept data_byte m else m in
      record taken { desktop = ops.send_eoi 12 taken.desktop }
