-- ===== src/Vbe/DrawLine.antt =====
-- `vbe_draw_line` of src/drivers/vbe.cpp ends.
use mathlib.Core.Path.{subst}
use native.Mathlib.Nat.{mul_comm, mul-le-mul}
use trieternal_x_os.Base.{
  ℕ, zero, suc, ◌+◌, ◌*◌, ◌^◌, ◌≤◌, ◌<◌, ◌≡◌, inl, inr, refl, ◌∙◌, Bool, true, false, ◌&&◌, Option,
  some, arith, ltb, ◌==◌, Bool-cases, ==→eq, ltb→lt,
}
use trieternal_x_os.Base.Words.{add32, sub32, lt32}
use trieternal_x_os.Vbe.{
  Vbe, line_at, word_at, on_screen, line_loop, draw_line, distance, direction,
}
use trieternal_x_os.Vbe.Safe.{IsDrawn, IsDrawn-refl}
use trieternal_x_os.Vbe.Lines.{IsWay, way_end, Ended, Ended-last, flat_lem}
use trieternal_x_os.Vbe.Steep.{steep_lem}

-- A signed coordinate from -2^13 to 2^13 - 1.
abbrev pub IsNear : ℕ → Type 0
IsNear x = (x < 2 ^ 32) × (add32 x (2 ^ 13) < 2 ^ 14)

distance_lt : (a b : ℕ) → IsNear a → IsNear b → distance a b < 2 ^ 14
distance_lt a b na nb = let (ha, ra) = na in let (hb, rb) = nb in ground arith

way : (a b : ℕ) → IsNear a → IsNear b → IsWay (direction a b) (distance a b) a b
way a b na nb =
    let (ha, ra) = na in
    let (hb, rb) = nb in
    elim (Bool-cases (lt32 a b)) [
      | inl up ↦ rw up (inl (refl, ground arith))
      | inr down ↦ rw down (inr (refl, ground arith))
    ]

start :
    (dx dy p q : ℕ)
    → dx < 2 ^ 28
    → dy < 2 ^ 28
    → p < 2 ^ 28
    → p ≡ q
    → sub32 (dx + p) (dy + q) ≡ sub32 dx dy
start dx dy p q hx hy hp e = omega arith

square : (dx dy : ℕ) → dx < 2 ^ 14 → dy < 2 ^ 14 → dx * dy < 2 ^ 28
square dx dy hx hy =
    let le : dx * dy ≤ 16383 * 16383 =
      mul-le-mul {n₁ = dx} {m₁ = dy} {n₂ = 16383} {m₂ = 16383} (omega arith) (omega arith) in
    omega arith

module _ (x1 y1 x2 y2 color : ℕ) (nx1 : IsNear x1) (ny1 : IsNear y1) (nx2 : IsNear x2)
    (ny2 : IsNear y2) where
  abbrev dx : ℕ
  dx = distance x1 x2

  abbrev dy : ℕ
  dy = distance y1 y2

  small_dx : dx < 2 ^ 28
  small_dx = let d = distance_lt x1 x2 nx1 nx2 in omega arith

  small_dy : dy < 2 ^ 28
  small_dy = let d = distance_lt y1 y2 ny1 ny2 in omega arith

  abbrev LineEnded : ℕ → ℕ → Vbe → Type 0
  LineEnded fuel err s =
      Ended x2 y2 dx dy (direction x1 x2) (direction y1 y2) color nx2.0 ny2.0 small_dx small_dy fuel
        x1 y1 err s

  line_ended : (fuel : ℕ) (s : Vbe) → dx < fuel → dy < fuel → LineEnded fuel (sub32 dx dy) s
  line_ended zero s fx fy = absurd (omega arith)
  line_ended (suc fuel) s fx fy =
      let wx = way x1 x2 nx1 nx2 in
      let wy = way y1 y2 ny1 ny2 in
      let hp = square dx dy (distance_lt x1 x2 nx1 nx2) (distance_lt y1 y2 ny1 ny2) in
      let swap = mul_comm dx dy in
      let e = start dx dy (dx * dy) (dy * dx) small_dx small_dy hp swap in
      elim (Bool-cases (ltb dx dy)) [
        | inl t ↦
            let steep = ltb→lt dx dy t in
            subst (λ k. LineEnded (suc fuel) k s) e
              (steep_lem x2 y2 dx dy (direction x1 x2) (direction y1 y2) color nx2.0 ny2.0 small_dx
                small_dy (suc fuel) dx dy (dx * dy) (dy * dx) x1 y1 s steep refl refl hp
                (omega arith) small_dx small_dy nx1.0 ny1.0 wx wy (omega arith) (omega arith) fy)
        | inr f ↦
            let flat : dy ≤ dx = ground arith in
            elim (Bool-cases (dx == 0)) [
              | inr some_way ↦
                  let nz : 0 < dx = ground arith in
                  subst (λ k. LineEnded (suc fuel) k s) e
                    (flat_lem x2 y2 dx dy (direction x1 x2) (direction y1 y2) color nx2.0 ny2.0
                      small_dx small_dy (suc fuel) dx dy (dx * dy) (dy * dx) x1 y1 s flat refl refl
                      hp (omega arith) small_dx small_dy nx1.0 ny1.0 wx wy (omega arith)
                      (omega arith) fx)
              | inl no_way ↦
                  let zx : dx ≡ 0 = ==→eq dx 0 no_way in
                  let zy : dy ≡ 0 = omega arith in
                  Ended-last x2 y2 dx dy (direction x1 x2) (direction y1 y2) color nx2.0 ny2.0
                    small_dx small_dy fuel x1 y1 (sub32 dx dy) s
                    (way_end (direction x1 x2) x1 x2 nx1.0 nx2.0
                      (subst (λ k. IsWay (direction x1 x2) k x1 x2) zx wx))
                    (way_end (direction y1 y2) y1 y2 ny1.0 ny2.0
                      (subst (λ k. IsWay (direction y1 y2) k y1 y2) zy wy))
            ]
      ]

-- Between points with coordinates from -2^13 to 2^13 - 1, `vbe_draw_line` ends: fuel above the distances
-- in the two directions is enough. It writes to pixels only, and the end of the line, where it is on
-- the screen of an active driver, has the color.
pub draw_line_lem :
    (fuel x1 y1 x2 y2 color : ℕ) (s : Vbe)
    → IsNear x1
    → IsNear y1
    → IsNear x2
    → IsNear y2
    → distance x1 x2 < fuel
    → distance y1 y2 < fuel
    → (out : Vbe) × (draw_line fuel x1 y1 x2 y2 color s ≡ some out)
      × IsDrawn s out
      × ((out.vbe_active && on_screen out x2 y2) ≡ true
          → out.words (word_at (line_at out y2) x2) ≡ color)
unfolding draw_line
draw_line_lem fuel x1 y1 x2 y2 color s nx1 ny1 nx2 ny2 fx fy = elim (Bool-cases s.vbe_active) [
  | inr off ↦ (s, only s.vbe_active off, IsDrawn-refl s, λ e. absurd (ground arith))
  | inl on ↦
      let (out, r, d, w) = line_ended x1 y1 x2 y2 color nx1 ny1 nx2 ny2 fuel s fx fy in
      (out, other s.vbe_active on ∙ r, d, w)
]
  where
    drawn : Option Vbe
    drawn =
        line_loop fuel x1 y1 x2 y2 (distance x1 x2) (distance y1 y2) (direction x1 x2)
          (direction y1 y2) (sub32 (distance x1 x2) (distance y1 y2)) color s

    only :
        (b : Bool)
        → b ≡ false
        → elim b as (λ b. Option Vbe) [ false ↦ some s | true ↦ drawn ] ≡ some s
    only false e = refl
    only true e = cc e

    other :
        (b : Bool)
        → b ≡ true
        → elim b as (λ b. Option Vbe) [ false ↦ some s | true ↦ drawn ] ≡ drawn
    other true e = refl
    other false e = cc e
