-- ===== src/Fat/Name.antt =====
-- `to_fat_name` of src/kernel/fat.cpp: a file name as the 8 and 3 bytes of a directory entry.
use mathlib.Core.List.{append-nil}
use trieternal_x_os.Base.{
  ℕ, ◌+◌, ◌-◌, ◌≤◌, ◌<◌, ◌≡◌, refl, sym, ◌∙◌, ap, true, false, ◌&&◌, List, [], ◌∷◌, ◌++◌, arith,
  ltb, leb, ◌==◌, if◌then◌else◌, update, length,
}
use trieternal_x_os.Fat.{add_ext, ext_loop, name_loop, to_fat_name, upper}

abbrev pub NoDot : List ℕ → Type 0
NoDot [] = Unit {0}
NoDot (c ∷ l) = ((c == b'.') ≡ false) × NoDot l

-- The upper-case character at a position, or the space behind the end.
abbrev pub char_at : List ℕ → ℕ → ℕ
char_at [] i = b' '
char_at (c ∷ l) i = if i == 0 then upper c else char_at l (i - 1)

-- What `name_loop` stops at.
abbrev Stops : List ℕ → Type 0
Stops [] = Unit {0}
Stops (c ∷ l) = (c == b'.') ≡ true

name_loop-rest :
    (base tail : List ℕ) (d : ℕ) (dest : ℕ → ℕ)
    → NoDot base
    → Stops tail
    → d + length base ≤ 8
    → (name_loop (base ++ tail) d dest).0 ≡ tail
unfolding name_loop
name_loop-rest [] [] d dest nd stops le = refl
name_loop-rest [] (c ∷ tail) d dest nd stops le = ground (arith, stops)
name_loop-rest (c ∷ base) tail d dest (c_no, nd) stops le =
    let rest = name_loop-rest base tail (d + 1) (update dest d (upper c)) nd stops (omega arith) in
    ground (arith, c_no, rest)

name_loop-dest :
    (base tail : List ℕ) (d : ℕ) (dest : ℕ → ℕ) (j : ℕ)
    → NoDot base
    → Stops tail
    → d + length base ≤ 8
    → (name_loop (base ++ tail) d dest).1 j
      ≡ (if leb d j && ltb j (d + length base) then char_at base (j - d) else dest j)
unfolding name_loop
name_loop-dest [] [] d dest j nd stops le = ground arith
name_loop-dest [] (c ∷ tail) d dest j nd stops le = ground (arith, stops)
name_loop-dest (c ∷ base) tail d dest j (c_no, nd) stops le =
    let rest =
      name_loop-dest base tail (d + 1) (update dest d (upper c)) j nd stops (omega arith) in
    let e : j - (d + 1) ≡ j - d - 1 = omega arith in ground (arith, c_no, rest, ap (char_at base) e)

ext_loop_lem :
    (src : List ℕ) (d : ℕ) (dest : ℕ → ℕ) (j : ℕ)
    → ext_loop src d dest j
      ≡ (if leb d j && ltb j 11 && ltb j (d + length src) then char_at src (j - d) else dest j)
unfolding ext_loop
ext_loop_lem [] d dest j = ground arith
ext_loop_lem (c ∷ src) d dest j =
    let rest = ext_loop_lem src (d + 1) (update dest d (upper c)) j in
    let e : j - (d + 1) ≡ j - d - 1 = omega arith in ground (arith, rest, ap (char_at src) e)

char_at-end : (l : List ℕ) (i : ℕ) → length l ≤ i → char_at l i ≡ b' '
char_at-end [] i le = refl
char_at-end (c ∷ l) i le = ground (arith, char_at-end l (i - 1) (omega arith))

-- For a base of at most 8 characters without a dot, `to_fat_name` puts the base, in upper case and padded with
-- spaces, into the first 8 bytes; the other 3 are padded likewise from the first 3 characters behind the
-- dot, or are spaces where the name has no dot.
pub to_fat_name_lem :
    (base ext : List ℕ) (i : ℕ)
    → NoDot base
    → length base ≤ 8
    → i < 11
    → (to_fat_name (base ++ b'.' ∷ ext) i
        ≡ (if ltb i 8 then char_at base i else char_at ext (i - 8)))
      × (to_fat_name base i ≡ (if ltb i 8 then char_at base i else b' '))
unfolding to_fat_name
to_fat_name_lem base ext i nd le lt =
    let blank : ℕ → ℕ = λ j. b' ' in
    let small : 0 + length base ≤ 8 = omega arith in
    let same : i - 0 ≡ i = omega arith in
    let named = name_loop (base ++ b'.' ∷ ext) 0 blank in
    let r1 = name_loop-rest base (b'.' ∷ ext) 0 blank nd refl small in
    let d1 = name_loop-dest base (b'.' ∷ ext) 0 blank i nd refl small in
    let end = char_at-end base i in
    let first = ap (char_at base) same in
    (
      ap (λ r. add_ext r named.1 i) r1
          ∙ ext_loop_lem ext 8 named.1 i
          ∙ ground (arith, d1, end, first, char_at-end ext (i - 8)),
      sym (ap (λ b. to_fat_name b i) (append-nil base))
          ∙ ap (λ r. add_ext r (name_loop (base ++ []) 0 blank).1 i)
              (name_loop-rest base [] 0 blank nd tt small)
          ∙ name_loop-dest base [] 0 blank i nd tt small
          ∙ ground (arith, end, first),
    )
