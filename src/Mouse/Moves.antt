-- ===== src/Mouse/Moves.antt =====
-- The packets of src/drivers/mouse.cpp and where they move the pointer.
use trieternal_x_os.Base.{
  ℕ, ◌+◌, ◌-◌, ◌^◌, ◌≤◌, ◌<◌, ◌≡◌, refl, Bool, true, false, bit_or, arith, ltb, ◌==◌, if◌then◌else◌,
  Bool-cases, inl, inr, ==→eq,
}
use trieternal_x_os.Base.Bytes.{has_bit, every, every-at}
use trieternal_x_os.Base.Words.{add32, sub32}
use trieternal_x_os.Mouse.{clamp, relative}

sign_table : every (λ b. bit_or b 0xFFFFFF00 == b + 0xFFFFFF00) 256 ≡ true
unfolding every
sign_table = refl

-- Sign extension sets the upper 24 bits.
extend_lem : (b : ℕ) → b < 256 → bit_or b 0xFFFFFF00 ≡ b + 0xFFFFFF00
extend_lem b h =
    ==→eq (bit_or b 0xFFFFFF00) (b + 0xFFFFFF00)
      (every-at (λ b. bit_or b 0xFFFFFF00 == b + 0xFFFFFF00) 256 sign_table h)

pub clamp-le : (limit p : ℕ) → clamp limit p ≤ limit
unfolding clamp
clamp-le limit p = ground arith

-- A coordinate moved up by the 9-bit number of sign `s` and low byte `b`, kept within 0 ... limit.
abbrev pub moved_up : Bool → ℕ → ℕ → ℕ → ℕ
moved_up true b limit p = p - (256 - b)
moved_up false b limit p = if ltb limit (p + b) then limit else p + b

-- The same, moved down.
abbrev pub moved_down : Bool → ℕ → ℕ → ℕ → ℕ
moved_down true b limit p = if ltb limit (p + (256 - b)) then limit else p + (256 - b)
moved_down false b limit p = p - b

module _ (first k b limit p : ℕ) (hb : b < 256) (hp : p ≤ limit) (small : limit < 2 ^ 16) where
  pub up_lem : clamp limit (add32 p (relative first k b)) ≡ moved_up (has_bit first k) b limit p
  unfolding clamp relative
  up_lem = elim (Bool-cases (has_bit first k)) [
    | inl t ↦ rw (t) (rw (extend_lem b hb) (ground arith))
    | inr f ↦ rw (f) (ground arith)
  ]

  pub down_lem : clamp limit (sub32 p (relative first k b)) ≡ moved_down (has_bit first k) b limit p
  unfolding clamp relative
  down_lem = elim (Bool-cases (has_bit first k)) [
    | inl t ↦ rw (t) (rw (extend_lem b hb) (ground arith))
    | inr f ↦ rw (f) (ground arith)
  ]
