-- ===== src/Vbe/Lines.antt =====
-- The loop of `vbe_draw_line` in src/drivers/vbe.cpp.
use mathlib.Core.Path.{subst}
use native.Mathlib.Nat.{suc-mul, zero-mul}
use trieternal_x_os.Base.{
  ℕ, zero, suc, ◌+◌, ◌-◌, ◌*◌, ◌%◌, ◌^◌, ◌≤◌, ◌<◌, ◌≡◌, ◌⊎◌, inl, inr, refl, sym, ◌∙◌, ap, Bool,
  true, false, ◌&&◌, some, arith, ltb, ◌==◌, if◌then◌else◌, Bool-cases, update, ==→eq, eq→==,
  lt→ltb, ltb→lt,
}
use trieternal_x_os.Base.Words.{add32, sub32, mul32, lt32}
use trieternal_x_os.Vbe.{Vbe, line_at, word_at, on_screen, putpixel, line_loop}
use trieternal_x_os.Vbe.Safe.{IsDrawn, IsDrawn-trans, putpixel-IsDrawn}

-- `i` steps by `s`, which is 1 or -1, lead from `x` to `to`.
abbrev pub IsWay : ℕ → ℕ → ℕ → ℕ → Type 0
IsWay s i x to = ((s ≡ 1) × (to ≡ (x + i) % 2 ^ 32)) ⊎ ((s ≡ 2 ^ 32 - 1) × (x ≡ (to + i) % 2 ^ 32))

pub IsWay-step :
    (s i x to : ℕ)
    → x < 2 ^ 32
    → to < 2 ^ 32
    → i < 2 ^ 31
    → IsWay s (suc i) x to
    → IsWay s i (add32 x s) to
IsWay-step s i x to hx ht hi (inl (e, w)) = inl (e, omega (arith, e, w))
IsWay-step s i x to hx ht hi (inr (e, w)) = inr (e, omega (arith, e, w))

pub way_end : (s x to : ℕ) → x < 2 ^ 32 → to < 2 ^ 32 → IsWay s 0 x to → (x == to) ≡ true
way_end s x to hx ht (inl (e, w)) = ground (arith, w)
way_end s x to hx ht (inr (e, w)) = ground (arith, w)

pub way_more :
    (s i x to : ℕ)
    → x < 2 ^ 32
    → to < 2 ^ 32
    → i < 2 ^ 31
    → IsWay s (suc i) x to
    → (x == to) ≡ false
way_more s i x to hx ht hi (inl (e, w)) = ground (arith, w)
way_more s i x to hx ht hi (inr (e, w)) = ground (arith, w)

-- The error is the difference of `a` and `b`; the two tests on it, and its two changes.
abbrev pub limit : ℕ
limit = 2 ^ 29

pub to_x_lem :
    (a b dy : ℕ)
    → a < limit
    → b < limit
    → dy < limit
    → lt32 (sub32 0 dy) (mul32 2 (sub32 a b)) ≡ ltb (2 * b) (2 * a + dy)
to_x_lem a b dy ha hb hd = ground arith

pub to_y_lem :
    (a b dx : ℕ)
    → a < limit
    → b < limit
    → dx < limit
    → lt32 (mul32 2 (sub32 a b)) dx ≡ ltb (2 * a) (2 * b + dx)
to_y_lem a b dx ha hb hd = ground arith

pub less_lem :
    (a b d : ℕ) → a < limit → b < limit → d < limit → sub32 (sub32 (a + d) b) d ≡ sub32 a b
less_lem a b d ha hb hd = omega arith

pub more_lem :
    (a b d : ℕ) → a < limit → b < limit → d < limit → add32 (sub32 a (b + d)) d ≡ sub32 a b
more_lem a b d ha hb hd = omega arith

module _ (x2 y2 dx dy sx sy color : ℕ) (hx2 : x2 < 2 ^ 32) (hy2 : y2 < 2 ^ 32) (hdx : dx < 2 ^ 28)
    (hdy : dy < 2 ^ 28) where
  -- The loop ends, within the picture, and its last pixel is the end of the line.
  abbrev pub Ended : ℕ → ℕ → ℕ → ℕ → Vbe → Type 0
  Ended fuel x y err s =
      (out : Vbe) × (line_loop fuel x y x2 y2 dx dy sx sy err color s ≡ some out)
      × IsDrawn s out
      × ((out.vbe_active && on_screen out x2 y2) ≡ true
          → out.words (word_at (line_at out y2) x2) ≡ color)

  -- A round that is not the last one, by the results of its two tests.
  pub round_lem :
      (fuel x y err : ℕ) (tx ty : Bool) (s : Vbe)
      → ((x == x2) && (y == y2)) ≡ false
      → lt32 (sub32 0 dy) (mul32 2 err) ≡ tx
      → lt32 (mul32 2 err) dx ≡ ty
      → line_loop (suc fuel) x y x2 y2 dx dy sx sy err color s
        ≡ line_loop fuel
            (if tx then add32 x sx else x)
            (if ty then add32 y sy else y)
            x2
            y2
            dx
            dy
            sx
            sy
            (if ty
              then add32 (if tx then sub32 err dy else err) dx
              else if tx
              then sub32 err dy
              else err)
            color
            (putpixel x y color s)
  unfolding line_loop
  round_lem fuel x y err tx ty s ne ex ey = rw (ne, line_loop) (rw (ex, ey) refl)

  pub Ended-round :
      (fuel x y err x' y' err' : ℕ) (s : Vbe)
      → line_loop (suc fuel) x y x2 y2 dx dy sx sy err color s
        ≡ line_loop fuel x' y' x2 y2 dx dy sx sy err' color (putpixel x y color s)
      → Ended fuel x' y' err' (putpixel x y color s)
      → Ended (suc fuel) x y err s
  Ended-round fuel x y err x' y' err' s e (out, r, d, w) =
      (out, e ∙ r, IsDrawn-trans s (putpixel x y color s) out (putpixel-IsDrawn x y color s) d, w)

  put_last :
      (s : Vbe)
      → ((putpixel x2 y2 color s).vbe_active && on_screen (putpixel x2 y2 color s) x2 y2) ≡ true
      → (putpixel x2 y2 color s).words (word_at (line_at (putpixel x2 y2 color s) y2) x2) ≡ color
  unfolding putpixel
  put_last s e = chosen (s.vbe_active && on_screen s x2 y2) refl e
    where
      there : Vbe
      there = record s { words = update s.words (word_at (line_at s y2) x2) color }

      chosen :
          (b : Bool)
          → b ≡ (s.vbe_active && on_screen s x2 y2)
          → ((if b then there else s).vbe_active && on_screen (if b then there else s) x2 y2) ≡ true
          → (if b then there else s).words (word_at (line_at (if b then there else s) y2) x2)
            ≡ color
      chosen true same seen =
          rw (eq→== (word_at (line_at s y2) x2) (word_at (line_at s y2) x2) refl) refl
      chosen false same seen = let clash : false ≡ true = same ∙ seen in absurd (cc clash)

  pub Ended-last :
      (fuel x y err : ℕ) (s : Vbe)
      → (x == x2) ≡ true
      → (y == y2) ≡ true
      → Ended (suc fuel) x y err s
  unfolding line_loop
  Ended-last fuel x y err s ex ey =
      let isx = ==→eq x x2 ex in
      let isy = ==→eq y y2 ey in
      subst (λ k. Ended (suc fuel) k y err s) (sym isx)
        (subst (λ k. Ended (suc fuel) x2 k err s) (sym isy)
          (
            putpixel x2 y2 color s,
            rw (eq→== x2 x2 refl, line_loop) (rw (eq→== y2 y2 refl, line_loop) refl),
            putpixel-IsDrawn x2 y2 color s,
            put_last s,
          ))

  -- The error of a line with `p` and `q` for the steps left in the two directions.
  abbrev pub error : ℕ → ℕ → ℕ
  error p q = sub32 (dx + p) (dy + q)

  -- A line that is not steep takes a step of `x` in every round.
  pub flat_lem :
      (fuel i j p q x y : ℕ) (s : Vbe)
      → dy ≤ dx
      → p ≡ i * dy
      → q ≡ j * dx
      → p < 2 ^ 28
      → q < 2 ^ 28
      → i < 2 ^ 28
      → j < 2 ^ 28
      → x < 2 ^ 32
      → y < 2 ^ 32
      → IsWay sx i x x2
      → IsWay sy j y y2
      → 2 * (dy + q) < 2 * (dx + p) + dy
      → 2 * (dx + p) + 2 * dy < 2 * (dy + q) + 3 * dx
      → i < fuel
      → Ended fuel x y (error p q) s
  flat_lem zero i j p q x y s flat ep eq hp hq hi hj hx hy wx wy low high f = absurd (omega arith)
  flat_lem (suc fuel) zero zero p q x y s flat ep eq hp hq hi hj hx hy wx wy low high f =
      Ended-last fuel x y (error p q) s (way_end sx x x2 hx hx2 wx) (way_end sy y y2 hy hy2 wy)
  flat_lem (suc fuel) zero (suc j) p q x y s flat ep eq hp hq hi hj hx hy wx wy low high f =
      let ep' : p ≡ 0 = ep ∙ zero-mul dy in absurd (omega (arith, eq, suc-mul j dx, ep'))
  flat_lem (suc fuel) (suc i) j p q x y s flat ep eq hp hq hi hj hx hy wx wy low high f =
      let ep' : p ≡ i * dy + dy = ep ∙ suc-mul i dy in
      let p' = i * dy in
      let ne : ((x == x2) && (y == y2)) ≡ false =
        rw (way_more sx i x x2 hx hx2 (omega arith) wx) refl in
      let tx =
        to_x_lem (dx + p) (dy + q) dy (omega arith) (omega arith) (omega arith)
        ∙ lt→ltb (2 * (dy + q)) (2 * (dx + p) + dy) low in
      let ty = to_y_lem (dx + p) (dy + q) dx (omega arith) (omega arith) (omega arith) in
      let less : sub32 (error p q) dy ≡ error p' q =
        ap (λ k. sub32 (sub32 k (dy + q)) dy) (the_sum ep')
        ∙ less_lem (dx + p') (dy + q) dy (omega arith) (omega arith) (omega arith) in
      elim (Bool-cases (ltb (2 * (dx + p)) (2 * (dy + q) + dx))) [
        | inr stay ↦
            let far : 2 * (dy + q) + dx ≤ 2 * (dx + p) = ground arith in
            Ended-round fuel x y (error p q) (add32 x sx) y (error p' q) s
              (round_lem fuel x y (error p q) true false s ne tx (ty ∙ stay)
                ∙ ap
                    (λ k.
                      line_loop fuel (add32 x sx) y x2 y2 dx dy sx sy k color
                        (putpixel x y color s))
                    less)
              (flat_lem fuel i j p' q (add32 x sx) y (putpixel x y color s) flat refl eq
                (omega arith) hq (omega arith) hj (omega arith) hy
                (IsWay-step sx i x x2 hx hx2 (omega arith) wx) wy (omega arith) (omega arith)
                (omega arith))
        | inl turn ↦
            let near : 2 * (dx + p) < 2 * (dy + q) + dx =
              ltb→lt (2 * (dx + p)) (2 * (dy + q) + dx) turn in
            turned j eq wy hj near ne tx (ty ∙ turn) less ep' (λ j' hj' hq' wy' low' high'.
              flat_lem fuel i j' (i * dy) (j' * dx) (add32 x sx) (add32 y sy) (putpixel x y color s)
                flat refl refl (omega arith) hq' (omega arith) hj' (omega arith) (omega arith)
                (IsWay-step sx i x x2 hx hx2 (omega arith) wx) wy' low' high' (omega arith))
      ]
    where
      the_sum : p ≡ i * dy + dy → dx + p ≡ dx + i * dy + dy
      the_sum e = omega arith

      turned :
          (j : ℕ)
          → q ≡ j * dx
          → IsWay sy j y y2
          → j < 2 ^ 28
          → 2 * (dx + p) < 2 * (dy + q) + dx
          → ((x == x2) && (y == y2)) ≡ false
          → lt32 (sub32 0 dy) (mul32 2 (error p q)) ≡ true
          → lt32 (mul32 2 (error p q)) dx ≡ true
          → sub32 (error p q) dy ≡ error (i * dy) q
          → p ≡ i * dy + dy
          → ((j' : ℕ)
              → j' < 2 ^ 28
              → j' * dx < 2 ^ 28
              → IsWay sy j' (add32 y sy) y2
              → 2 * (dy + j' * dx) < 2 * (dx + i * dy) + dy
              → 2 * (dx + i * dy) + 2 * dy < 2 * (dy + j' * dx) + 3 * dx
              → Ended fuel
                  (add32 x sx)
                  (add32 y sy)
                  (error (i * dy) (j' * dx))
                  (putpixel x y color s))
          → Ended (suc fuel) x y (error p q) s
      turned zero eq wy hj near ne tx ty less ep' next =
          let eq' : q ≡ 0 = eq ∙ zero-mul dx in absurd (omega arith)
      turned (suc j) eq wy hj near ne tx ty less ep' next =
          let eq' : q ≡ j * dx + dx = eq ∙ suc-mul j dx in
          let sum : dy + q ≡ dy + j * dx + dx = omega arith in
          let more : add32 (error (i * dy) q) dx ≡ error (i * dy) (j * dx) =
            ap (λ k. add32 (sub32 (dx + i * dy) k) dx) sum
            ∙ more_lem (dx + i * dy) (dy + j * dx) dx (omega arith) (omega arith) (omega arith) in
          Ended-round fuel x y (error p q) (add32 x sx) (add32 y sy) (error (i * dy) (j * dx)) s
            (round_lem fuel x y (error p q) true true s ne tx ty
              ∙ ap
                  (λ k.
                    line_loop fuel (add32 x sx) (add32 y sy) x2 y2 dx dy sx sy (add32 k dx) color
                      (putpixel x y color s))
                  less
              ∙ ap
                  (λ k.
                    line_loop fuel (add32 x sx) (add32 y sy) x2 y2 dx dy sx sy k color
                      (putpixel x y color s))
                  more)
            (next j (omega arith) (omega arith) (IsWay-step sy j y y2 hy hy2 (omega arith) wy)
              (omega arith) (omega arith))
