-- ===== src/Api/Rect.antt =====
-- `api_draw_rect` of src/kernel/api.cpp, cell by cell.
use trieternal_x_os.Base.{
  ℕ, zero, suc, ◌+◌, ◌*◌, ◌^◌, ◌≤◌, ◌<◌, ◌≡◌, ◌⊎◌, inl, inr, refl, ◌∙◌, ap, Bool, true, false, ◌&&◌,
  arith, ltb, ◌==◌, if◌then◌else◌, Bool-cases, update,
}
use trieternal_x_os.Base.Words.{add32, sub32}
use trieternal_x_os.Api.{cell, extent, draw_columns, draw_rows, draw_rect}

-- Whether `k` is one of the `n` values from `from` on, all taken as 32-bit numbers.
abbrev pub is_within : ℕ → ℕ → ℕ → Bool
is_within k from n = ltb (sub32 k from) n

-- The values from `from` on are `from` and those from the next value on.
abbrev IsSplit : Bool → Bool → Bool → Type 0
IsSplit first rest all =
    (all ≡ true) × ((first ≡ true) ⊎ (rest ≡ true))
    ⊎ (all ≡ false) × (first ≡ false) × (rest ≡ false)

within_step :
    (k from n : ℕ)
    → k < 2 ^ 31
    → from < 2 ^ 32
    → n < 2 ^ 31
    → IsSplit (k == from) (is_within k (add32 from 1) n) (is_within k from (suc n))
within_step k from n hk hf hn = elim (Bool-cases (k == from)) [
  | inl e ↦ inl (ground arith, inl e)
  | inr ne ↦ elim (Bool-cases (is_within k (add32 from 1) n)) [
    | inl t ↦ inl (ground arith, inr t)
    | inr f ↦ inr (ground arith, ne, f)
  ]
]

-- A round for the first value and the rounds for the rest, on one cell.
rejoin :
    (first rest all same : Bool) (entry old new : ℕ)
    → IsSplit first rest all
    → new ≡ (if first && same then entry else old)
    → (if rest && same then entry else new) ≡ (if all && same then entry else old)
rejoin first rest all same entry old new (inl (a, inl f)) e = rw (a, e, f) (ground arith)
rejoin first rest all same entry old new (inl (a, inr r)) e = rw (a, e, r) (ground arith)
rejoin first rest all same entry old new (inr (a, f, r)) e = rw (a, e, f, r) refl

module _ (entry row column : ℕ) (on_row : row < 25) (on_column : column < 80) where
  abbrev at : ℕ
  at = row * 80 + column

  draw_columns_lem :
      (n col r : ℕ) (b : ℕ → ℕ)
      → n < 2 ^ 31
      → col < 2 ^ 32
      → r < 25
      → draw_columns n col r entry b at
        ≡ (if is_within column col n && (row == r) then entry else b at)
  unfolding draw_columns
  draw_columns_lem zero col r b hn hc hr = ground arith
  draw_columns_lem (suc n) col r b hn hc hr =
      let b' = if ltb col 80 then update b (r * 80 + col) entry else b in
      draw_columns_lem n (add32 col 1) r b' (omega arith) (omega arith) hr
      ∙ rejoin (column == col) (is_within column (add32 col 1) n) (is_within column col (suc n))
          (row == r) entry (b at) (b' at) (within_step column col n (omega arith) hc (omega arith))
          (ground arith)

  draw_rows_lem :
      (n r x w : ℕ) (b : ℕ → ℕ)
      → n < 2 ^ 31
      → r < 2 ^ 32
      → x < 2 ^ 32
      → w < 2 ^ 31
      → extent x w ≡ w
      → draw_rows n r x w entry b at
        ≡ (if is_within row r n && is_within column x w then entry else b at)
  unfolding draw_rows
  draw_rows_lem zero r x w b hn hr hx hw hs = ground arith
  draw_rows_lem (suc n) r x w b hn hr hx hw hs =
      let b' = if ltb r 25 then draw_columns (extent x w) x r entry b else b in
      draw_rows_lem n (add32 r 1) x w b' (omega arith) (omega arith) hx hw hs
      ∙ rejoin (row == r) (is_within row (add32 r 1) n) (is_within row r (suc n))
          (is_within column x w) entry (b at) (b' at)
          (within_step row r n (omega arith) hr (omega arith)) (line (Bool-cases (ltb r 25)))
    where
      line :
          (ltb r 25 ≡ true) ⊎ (ltb r 25 ≡ false)
          → (if ltb r 25 then draw_columns (extent x w) x r entry b else b) at
            ≡ (if (row == r) && is_within column x w then entry else b at)
      line (inl t) = rw (t, hs) (draw_columns_lem w x r b hw hx (ground arith) ∙ ground arith)
      line (inr f) = rw f (ground arith)

draw_columns-outside :
    (n col r entry : ℕ) (b : ℕ → ℕ) (j : ℕ)
    → r < 25
    → 2000 ≤ j
    → draw_columns n col r entry b j ≡ b j
unfolding draw_columns
draw_columns-outside zero col r entry b j hr hj = refl
draw_columns-outside (suc n) col r entry b j hr hj = ground (
  arith,
  draw_columns-outside n (add32 col 1) r entry
      (if ltb col 80 then update b (r * 80 + col) entry else b) j hr hj,
)

draw_rows-outside :
    (n r x w entry : ℕ) (b : ℕ → ℕ) (j : ℕ) → 2000 ≤ j → draw_rows n r x w entry b j ≡ b j
unfolding draw_rows
draw_rows-outside zero r x w entry b j hj = refl
draw_rows-outside (suc n) r x w entry b j hj =
    draw_rows-outside n (add32 r 1) x w entry
      (if ltb r 25 then draw_columns (extent x w) x r entry b else b) j hj
    ∙ inner (Bool-cases (ltb r 25))
  where
    inner :
        (ltb r 25 ≡ true) ⊎ (ltb r 25 ≡ false)
        → (if ltb r 25 then draw_columns (extent x w) x r entry b else b) j ≡ b j
    inner (inl t) = rw t (draw_columns-outside (extent x w) x r entry b j (ground arith) hj)
    inner (inr f) = rw f refl

-- The sum of a corner and an extent is that of the two signed numbers.
abbrev pub IsInRange : ℕ → ℕ → Type 0
IsInRange from n = (from < 2 ^ 32) × (n < 2 ^ 31) × (add32 from (2 ^ 31) + n < 2 ^ 32)

extent-IsInRange : (from n : ℕ) → IsInRange from n → extent from n ≡ n
extent-IsInRange from n (hf, hn, sum) = ground arith

-- A rectangle of fewer than 2 ^ 31 rows and columns, whose right and lower ends are signed 32-bit numbers too, fills
-- exactly the cells of the screen that lie in it, also with a corner left of or above the screen; no memory
-- outside the screen changes.
pub draw_rect_lem :
    (x y w h c color : ℕ) (b : ℕ → ℕ)
    → IsInRange x w
    → IsInRange y h
    → ((row column : ℕ)
        → row < 25
        → column < 80
        → draw_rect x y w h c color b (row * 80 + column) ≡ (
            if is_within row y h && is_within column x w
            then cell c color
            else b (row * 80 + column)))
      × ((j : ℕ) → 2000 ≤ j → draw_rect x y w h c color b j ≡ b j)
unfolding draw_rect
draw_rect_lem x y w h c color b rx ry =
    let (hx, hw, sx) = rx in
    let (hy, hh, sy) = ry in
    let rows = extent-IsInRange y h ry in
    let entry = cell c color in
    (
      λ row column hr hc.
          ap (λ n. draw_rows n y x w entry b (row * 80 + column)) rows
          ∙ draw_rows_lem entry row column hr hc h y x w b hh hy hx hw (extent-IsInRange x w rx),
      λ j hj. draw_rows-outside (extent y h) y x w entry b j hj,
    )
