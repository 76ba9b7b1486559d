-- ===== src/Mouse/Packets.antt =====
-- The state machine of `mouse_handler` in src/drivers/mouse.cpp.
use trieternal_x_os.Base.{
  ℕ, suc, ◌<◌, ◌≡◌, refl, ◌∙◌, ap, Bool, true, false, ◌&&◌, arith, ◌==◌, update, Bool-cases, inl,
  inr,
}
use trieternal_x_os.Base.Bytes.{has_bit}
use trieternal_x_os.Base.Words.{add32, sub32}
use trieternal_x_os.Mouse.{Desktop, Mouse, relative, move, show, accept, mouse_handler}
use trieternal_x_os.Mouse.Moves.{clamp-le, moved_up, moved_down, up_lem, down_lem}

-- The controller has a byte of the mouse.
abbrev pub is_ready : ℕ → Bool
is_ready status = has_bit status 0 && has_bit status 5

-- The pointer is on the screen of 800 times 600 pixels, and the packet has a place to go on at.
pub record IsValid {V : Type 0} (m : Mouse V) : Type 0 where
  pub cycle : m.mouse_cycle < 3
  pub x : m.mouse_x < 800
  pub y : m.mouse_y < 600

-- All but the desktop and the packet is as before.
pub record Unmoved {V : Type 0} (m out : Mouse V) : Type 0 where
  pub x : out.mouse_x ≡ m.mouse_x
  pub y : out.mouse_y ≡ m.mouse_y
  pub left : out.left_clicked ≡ m.left_clicked
  pub right : out.right_clicked ≡ m.right_clicked

module _ {V : Type 0} (ops : Desktop V) where
  move-IsValid : (m : Mouse V) → m.mouse_cycle < 3 → IsValid (move ops m)
  unfolding move
  move-IsValid m c = record {
    cycle = c;
    x =
        omega
          (arith, clamp-le 799 (add32 m.mouse_x (relative (m.mouse_byte 0) 4 (m.mouse_byte 1))));
    y =
        omega
          (arith, clamp-le 599 (sub32 m.mouse_y (relative (m.mouse_byte 0) 5 (m.mouse_byte 2))));
  }

  show-IsValid : (m : Mouse V) → IsValid m → IsValid (show ops m)
  unfolding show
  show-IsValid m v =
      elim (Bool-cases (ops.is_in_gui_mode m.desktop && ops.vbe_is_active m.desktop)) [
        | inl t ↦ rw t (record { cycle = v.cycle; x = v.x; y = v.y })
        | inr f ↦ rw f v
      ]

  accept-IsValid : (data_byte : ℕ) (m : Mouse V) → IsValid m → IsValid (accept ops data_byte m)
  unfolding accept
  accept-IsValid data_byte m v = elim (Bool-cases (m.mouse_cycle == 0)) [
    | inl zeroth ↦ rw zeroth (record { cycle = ground (arith, v.cycle); x = v.x; y = v.y })
    | inr not_zeroth ↦ elim (Bool-cases (m.mouse_cycle == 1)) [
      | inl first ↦ rw (not_zeroth, first) (record { cycle = omega arith; x = v.x; y = v.y })
      | inr not_first ↦ elim (Bool-cases (m.mouse_cycle == 2)) [
        | inl second ↦
            rw (not_zeroth, not_first, second) (show-IsValid _ (move-IsValid _ (omega arith)))
        | inr other ↦ rw (not_zeroth, not_first, other) v
      ]
    ]
  ]

  -- Whatever the ports hold, the handler keeps the pointer on the screen, and the packet at one of
  -- its three bytes.
  pub mouse_handler-IsValid :
      (status data_byte : ℕ) (m : Mouse V)
      → IsValid m
      → IsValid (mouse_handler ops status data_byte m)
  unfolding mouse_handler
  mouse_handler-IsValid status data_byte m v = elim (Bool-cases (is_ready status)) [
    | inl t ↦
        let a = accept-IsValid data_byte m v in rw t (record { cycle = a.cycle; x = a.x; y = a.y })
    | inr f ↦ rw f (record { cycle = v.cycle; x = v.x; y = v.y })
  ]

  -- At the start of a packet a byte without the bit 3 is passed over: the handler waits for the next
  -- start, and the pointer and the buttons stay.
  pub mouse_handler_skip :
      (status data_byte : ℕ) (m : Mouse V)
      → m.mouse_cycle ≡ 0
      → has_bit data_byte 3 ≡ false
      → ((mouse_handler ops status data_byte m).mouse_cycle ≡ 0)
        × Unmoved m (mouse_handler ops status data_byte m)
  unfolding mouse_handler accept
  mouse_handler_skip status data_byte m c bit = elim (Bool-cases (is_ready status)) [
    | inl t ↦ rw t (
        rw (c, mouse_handler)
          (rw bit refl, record { x = refl; y = refl; left = refl; right = refl }))
    | inr f ↦ rw f (c, record { x = refl; y = refl; left = refl; right = refl })
  ]

  -- A handler call that has taken the byte `i` of a packet.
  record Taken (i data_byte : ℕ) (m out : Mouse V) : Type 0 where
    cycle : out.mouse_cycle ≡ suc i
    new : out.mouse_byte i ≡ data_byte
    old : (j : ℕ) → j < i → out.mouse_byte j ≡ m.mouse_byte j
    unmoved : Unmoved m out

  start_lem :
      (status data_byte : ℕ) (m : Mouse V)
      → is_ready status ≡ true
      → m.mouse_cycle ≡ 0
      → has_bit data_byte 3 ≡ true
      → Taken 0 data_byte m (mouse_handler ops status data_byte m)
  unfolding mouse_handler accept
  start_lem status data_byte m t c bit =
      rw (t, mouse_handler)
        (rw (c, mouse_handler)
          (record {
            cycle = rw bit refl;
            new = refl;
            old = λ j lt. absurd (omega arith);
            unmoved = record { x = refl; y = refl; left = refl; right = refl };
          }))

  middle_lem :
      (status data_byte : ℕ) (m : Mouse V)
      → is_ready status ≡ true
      → m.mouse_cycle ≡ 1
      → Taken 1 data_byte m (mouse_handler ops status data_byte m)
  unfolding mouse_handler accept
  middle_lem status data_byte m t c =
      rw (t, mouse_handler)
        (rw (c, mouse_handler)
          (record {
            cycle = refl;
            new = refl;
            old = λ j lt. ground arith;
            unmoved = record { x = refl; y = refl; left = refl; right = refl };
          }))

  -- What a packet of the bytes `first`, `second` and `third` comes to.
  pub record Moved (first second third : ℕ) (m out : Mouse V) : Type 0 where
    pub cycle : out.mouse_cycle ≡ 0
    pub x : out.mouse_x ≡ moved_up (has_bit first 4) second 799 m.mouse_x
    pub y : out.mouse_y ≡ moved_down (has_bit first 5) third 599 m.mouse_y
    pub left : out.left_clicked ≡ has_bit first 0
    pub right : out.right_clicked ≡ has_bit first 1

  show-Unmoved : (m : Mouse V) → Unmoved m (show ops m) × ((show ops m).mouse_cycle ≡ m.mouse_cycle)
  unfolding show
  show-Unmoved m = elim (Bool-cases (ops.is_in_gui_mode m.desktop && ops.vbe_is_active m.desktop)) [
    | inl t ↦ rw t (record { x = refl; y = refl; left = refl; right = refl }, refl)
    | inr f ↦ rw f (record { x = refl; y = refl; left = refl; right = refl }, refl)
  ]

  last_lem :
      (status third : ℕ) (m : Mouse V)
      → is_ready status ≡ true
      → m.mouse_cycle ≡ 2
      → m.mouse_byte 1 < 256
      → third < 256
      → m.mouse_x < 800
      → m.mouse_y < 600
      → Moved (m.mouse_byte 0) (m.mouse_byte 1) third m (mouse_handler ops status third m)
  unfolding mouse_handler accept move
  last_lem status third m t c h1 h2 hx hy =
      let moved =
        move ops (record m { mouse_byte = update m.mouse_byte 2 third; mouse_cycle = 0 }) in
      let s = show-Unmoved moved in
      rw (t, mouse_handler)
        (rw (c, mouse_handler)
          (record {
            cycle = s.1;
            x =
                s.0.x
                ∙ up_lem (m.mouse_byte 0) 4 (m.mouse_byte 1) 799 m.mouse_x h1 (omega arith)
                    (omega arith);
            y =
                s.0.y
                ∙ down_lem (m.mouse_byte 0) 5 third 599 m.mouse_y h2 (omega arith) (omega arith);
            left = s.0.left;
            right = s.0.right;
          }))

  -- Three bytes of the mouse from the start of a packet, the first with its bit 3, move the pointer by
  -- the packet's two signed 9-bit numbers, y upwards, but not off the screen, set the buttons, and end
  -- the packet.
  pub mouse_handler-packet :
      (s0 s1 s2 first second third : ℕ) (m : Mouse V)
      → IsValid m
      → m.mouse_cycle ≡ 0
      → is_ready s0 ≡ true
      → is_ready s1 ≡ true
      → is_ready s2 ≡ true
      → has_bit first 3 ≡ true
      → second < 256
      → third < 256
      → Moved first second third m
          (mouse_handler ops s2 third (mouse_handler ops s1 second (mouse_handler ops s0 first m)))
  mouse_handler-packet s0 s1 s2 first second third m v c r0 r1 r2 bit h1 h2 =
      let m1 = mouse_handler ops s0 first m in
      let m2 = mouse_handler ops s1 second m1 in
      let a = start_lem s0 first m r0 c bit in
      let b = middle_lem s1 second m1 r1 a.cycle in
      let byte0 : m2.mouse_byte 0 ≡ first = b.old 0 (omega arith) ∙ a.new in
      let x_is : m2.mouse_x ≡ m.mouse_x = b.unmoved.x ∙ a.unmoved.x in
      let y_is : m2.mouse_y ≡ m.mouse_y = b.unmoved.y ∙ a.unmoved.y in
      let l =
        last_lem s2 third m2 r2 b.cycle (omega (arith, b.new)) h2 (omega (arith, x_is, v.x))
          (omega (arith, y_is, v.y)) in
      record {
        cycle = l.cycle;
        x = shifted_x l.x byte0 b.new x_is;
        y =
            l.y
            ∙ ap (λ f. moved_down (has_bit f 5) third 599 m2.mouse_y) byte0
            ∙ ap (moved_down (has_bit first 5) third 599) y_is;
        left = l.left ∙ ap (λ f. has_bit f 0) byte0;
        right = l.right ∙ ap (λ f. has_bit f 1) byte0;
      }
    where
      shifted_x :
          {out f g p : ℕ}
          → out ≡ moved_up (has_bit f 4) g 799 p
          → f ≡ first
          → g ≡ second
          → p ≡ m.mouse_x
          → out ≡ moved_up (has_bit first 4) second 799 m.mouse_x
      shifted_x {out} {f} {g} {p} e ef eg ep =
          e
          ∙ ap (λ z. moved_up (has_bit z 4) g 799 p) ef
          ∙ ap (λ z. moved_up (has_bit first 4) z 799 p) eg
          ∙ ap (moved_up (has_bit first 4) second 799) ep
