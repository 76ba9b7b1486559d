-- ===== src/Vbe/Steep.antt =====
-- The loop of `vbe_draw_line` in src/drivers/vbe.cpp on a steep line.
use native.Mathlib.Nat.{suc-mul, zero-mul}
use trieternal_x_os.Base.{
  ℕ, zero, suc, ◌+◌, ◌*◌, ◌^◌, ◌≤◌, ◌<◌, ◌≡◌, inl, inr, refl, ◌∙◌, ap, Bool, true, false, ◌&&◌,
  arith, ltb, ◌==◌, Bool-cases, lt→ltb, ltb→lt,
}
use trieternal_x_os.Base.Words.{add32, sub32, mul32, lt32}
use trieternal_x_os.Vbe.{Vbe, putpixel, line_loop}
use trieternal_x_os.Vbe.Lines.{
  IsWay, IsWay-step, way_end, way_more, to_x_lem, to_y_lem, less_lem, more_lem, Ended, round_lem,
  Ended-round, Ended-last,
}

module _ (x2 y2 dx dy sx sy color : ℕ) (hx2 : x2 < 2 ^ 32) (hy2 : y2 < 2 ^ 32) (hdx : dx < 2 ^ 28)
    (hdy : dy < 2 ^ 28) where
  abbrev err : ℕ → ℕ → ℕ
  err p q = sub32 (dx + p) (dy + q)

  abbrev Done : ℕ → ℕ → ℕ → ℕ → Vbe → Type 0
  Done fuel x y e s = Ended x2 y2 dx dy sx sy color hx2 hy2 hdx hdy fuel x y e s

  -- A steep line takes a step of `y` in every round.
  pub steep_lem :
      (fuel i j p q x y : ℕ) (s : Vbe)
      → dx < dy
      → p ≡ i * dy
      → q ≡ j * dx
      → p < 2 ^ 28
      → q < 2 ^ 28
      → i < 2 ^ 28
      → j < 2 ^ 28
      → x < 2 ^ 32
      → y < 2 ^ 32
      → IsWay sx i x x2
      → IsWay sy j y y2
      → 2 * (dx + p) < 2 * (dy + q) + dx
      → 2 * (dy + q) + 2 * dx < 2 * (dx + p) + 3 * dy
      → j < fuel
      → Done fuel x y (err p q) s
  steep_lem zero i j p q x y s steep ep eq hp hq hi hj hx hy wx wy high low f = absurd (omega arith)
  steep_lem (suc fuel) zero zero p q x y s steep ep eq hp hq hi hj hx hy wx wy high low f =
      Ended-last x2 y2 dx dy sx sy color hx2 hy2 hdx hdy fuel x y (err p q) s
        (way_end sx x x2 hx hx2 wx) (way_end sy y y2 hy hy2 wy)
  steep_lem (suc fuel) (suc i) zero p q x y s steep ep eq hp hq hi hj hx hy wx wy high low f =
      let eq' : q ≡ 0 = eq ∙ zero-mul dx in absurd (omega (arith, ep, suc-mul i dy, eq'))
  steep_lem (suc fuel) i (suc j) p q x y s steep ep eq hp hq hi hj hx hy wx wy high low f =
      let eq' : q ≡ j * dx + dx = eq ∙ suc-mul j dx in
      let ne : ((x == x2) && (y == y2)) ≡ false =
        both (x == x2) (way_more sy j y y2 hy hy2 (omega arith) wy) in
      let ty =
        to_y_lem (dx + p) (dy + q) dx (omega arith) (omega arith) (omega arith)
        ∙ lt→ltb (2 * (dx + p)) (2 * (dy + q) + dx) high in
      let tx = to_x_lem (dx + p) (dy + q) dy (omega arith) (omega arith) (omega arith) in
      elim (Bool-cases (ltb (2 * (dy + q)) (2 * (dx + p) + dy))) [
        | inr stay ↦
            let far : 2 * (dx + p) + dy ≤ 2 * (dy + q) = ground arith in
            let sum : dy + q ≡ dy + j * dx + dx = omega arith in
            let more : add32 (err p q) dx ≡ err p (j * dx) =
              ap (λ k. add32 (sub32 (dx + p) k) dx) sum
              ∙ more_lem (dx + p) (dy + j * dx) dx (omega arith) (omega arith) (omega arith) in
            Ended-round x2 y2 dx dy sx sy color hx2 hy2 hdx hdy fuel x y (err p q) x (add32 y sy)
              (err p (j * dx)) s
              (round_lem x2 y2 dx dy sx sy color hx2 hy2 hdx hdy fuel x y (err p q) false true s ne
                  (tx ∙ stay) ty
                ∙ ap
                    (λ k.
                      line_loop fuel x (add32 y sy) x2 y2 dx dy sx sy k color
                        (putpixel x y color s))
                    more)
              (steep_lem fuel i j p (j * dx) x (add32 y sy) (putpixel x y color s) steep ep refl hp
                (omega arith) hi (omega arith) hx (omega arith) wx
                (IsWay-step sy j y y2 hy hy2 (omega arith) wy) (omega arith) (omega arith)
                (omega arith))
        | inl turn ↦
            let near : 2 * (dy + q) < 2 * (dx + p) + dy =
              ltb→lt (2 * (dy + q)) (2 * (dx + p) + dy) turn in
            turned i ep wx hi near ne (tx ∙ turn) ty eq' (λ i' hi' hp' wx' high' low'.
              steep_lem fuel i' j (i' * dy) (j * dx) (add32 x sx) (add32 y sy)
                (putpixel x y color s) steep refl refl hp' (omega arith) hi' (omega arith)
                (omega arith) (omega arith) wx' (IsWay-step sy j y y2 hy hy2 (omega arith) wy) high'
                low' (omega arith))
      ]
    where
      both : {b : Bool} (a : Bool) → b ≡ false → (a && b) ≡ false
      both a e = ground arith

      turned :
          (i : ℕ)
          → p ≡ i * dy
          → IsWay sx i x x2
          → i < 2 ^ 28
          → 2 * (dy + q) < 2 * (dx + p) + dy
          → ((x == x2) && (y == y2)) ≡ false
          → lt32 (sub32 0 dy) (mul32 2 (err p q)) ≡ true
          → lt32 (mul32 2 (err p q)) dx ≡ true
          → q ≡ j * dx + dx
          → ((i' : ℕ)
              → i' < 2 ^ 28
              → i' * dy < 2 ^ 28
              → IsWay sx i' (add32 x sx) x2
              → 2 * (dx + i' * dy) < 2 * (dy + j * dx) + dx
              → 2 * (dy + j * dx) + 2 * dx < 2 * (dx + i' * dy) + 3 * dy
              → Done fuel (add32 x sx) (add32 y sy) (err (i' * dy) (j * dx)) (putpixel x y color s))
          → Done (suc fuel) x y (err p q) s
      turned zero ep wx hi near ne tx ty eq' next =
          let ep' : p ≡ 0 = ep ∙ zero-mul dy in absurd (omega arith)
      turned (suc i) ep wx hi near ne tx ty eq' next =
          let ep' : p ≡ i * dy + dy = ep ∙ suc-mul i dy in
          let sum_p : dx + p ≡ dx + i * dy + dy = omega arith in
          let sum_q : dy + q ≡ dy + j * dx + dx = omega arith in
          let less : sub32 (err p q) dy ≡ err (i * dy) q =
            ap (λ k. sub32 (sub32 k (dy + q)) dy) sum_p
            ∙ less_lem (dx + i * dy) (dy + q) dy (omega arith) (omega arith) (omega arith) in
          let more : add32 (err (i * dy) q) dx ≡ err (i * dy) (j * dx) =
            ap (λ k. add32 (sub32 (dx + i * dy) k) dx) sum_q
            ∙ more_lem (dx + i * dy) (dy + j * dx) dx (omega arith) (omega arith) (omega arith) in
          Ended-round x2 y2 dx dy sx sy color hx2 hy2 hdx hdy fuel x y (err p q) (add32 x sx)
            (add32 y sy) (err (i * dy) (j * dx)) s
            (round_lem x2 y2 dx dy sx sy color hx2 hy2 hdx hdy fuel x y (err p q) true true s ne tx
                ty
              ∙ ap
                  (λ k.
                    line_loop fuel (add32 x sx) (add32 y sy) x2 y2 dx dy sx sy (add32 k dx) color
                      (putpixel x y color s))
                  less
              ∙ ap
                  (λ k.
                    line_loop fuel (add32 x sx) (add32 y sy) x2 y2 dx dy sx sy k color
                      (putpixel x y color s))
                  more)
            (next i (omega arith) (omega arith) (IsWay-step sx i x x2 hx hx2 (omega arith) wx)
              (omega arith) (omega arith))
