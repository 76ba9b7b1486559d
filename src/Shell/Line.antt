-- ===== src/Shell/Line.antt =====
-- `shell_input` of src/kernel/shell.cpp edits a line and executes it.
use mathlib.Core.Path.{ap₂}
use trieternal_x_os.Base.{
  ℕ, zero, suc, ◌+◌, ◌-◌, ◌≤◌, ◌≡◌, refl, sym, ◌∙◌, ap, true, false, List, [], ◌∷◌, ◌++◌, inl, inr,
  arith, ltb, ◌==◌, if◌then◌else◌, Bool-cases, length, length-window, take, take-window, update,
  window, window-congr,
}
use trieternal_x_os.Shell.{Commands, Shell, shell_input}

-- What a character other than the newline makes of a line.
abbrev pub edit : List ℕ → ℕ → List ℕ
edit line c =
    if c == 8
    then take (length line - 1) line
    else if ltb (length line) 255
    then line ++ c ∷ []
    else line

unfoldable pub edited : List ℕ → List ℕ → List ℕ
edited line [] = line
edited line (c ∷ typed) = edited (edit line c) typed

abbrev pub NoNewline : List ℕ → Type 0
NoNewline [] = Unit {0}
NoNewline (c ∷ typed) = ((c == 10) ≡ false) × NoNewline typed

-- The characters one after the other.
unfoldable pub type_line : {S : Type 0} → Commands S → List ℕ → Shell S → Shell S
type_line ops [] s = s
type_line ops (c ∷ typed) s = type_line ops typed (shell_input ops c s)

-- The buffer holds the line, which fits with its terminating 0.
record IsLine {S : Type 0} (s : Shell S) (line : List ℕ) : Type 0 where
  fits : s.shell_buffer_index ≤ 255
  held : window s.shell_buffer 0 s.shell_buffer_index ≡ line

take-empty : (line : List ℕ) → length line ≡ 0 → line ≡ take (length line - 1) line
take-empty [] e = refl
take-empty (c ∷ line) e = absurd (omega (arith, e))

window-suc : (a : ℕ → ℕ) (i n : ℕ) → window a i (suc n) ≡ window a i n ++ a (i + n) ∷ []
window-suc a i zero = let e : i + 0 ≡ i = omega arith in rw e refl
window-suc a i (suc n) =
    let e : i + 1 + n ≡ i + suc n = omega arith in
    ap (λ r. a i ∷ r) (window-suc a (i + 1) n ∙ ap (λ j. window a (i + 1) n ++ a j ∷ []) e)

window-update : (a : ℕ → ℕ) (n i v : ℕ) → n ≤ i → window (update a i v) 0 n ≡ window a 0 n
window-update a n i v le = window-congr (update a i v) a 0 n (λ j lo hi. ground arith)

module _ {S : Type 0} (ops : Commands S) where
  shell_input-IsLine :
      (c : ℕ) (s : Shell S) (line : List ℕ)
      → (c == 10) ≡ false
      → IsLine s line
      → IsLine (shell_input ops c s) (edit line c)
  unfolding shell_input
  shell_input-IsLine c s line other l =
      let a = s.shell_buffer in
      let n = s.shell_buffer_index in
      let len : length line ≡ n = sym (ap length l.held) ∙ length-window a 0 n in
      elim (Bool-cases (c == 8)) [
        | inl e ↦ elim (Bool-cases (ltb 0 n)) [
          | inl some_left ↦
              let back : n - 1 ≡ length line - 1 = omega (arith, len) in
              rw (other, shell_input)
                (rw (e, shell_input)
                  (rw (some_left, shell_input)
                    (record {
                      fits = omega (arith, l.fits);
                      held =
                          window-update a (n - 1) (n - 1) 0 (omega arith)
                          ∙ sym (take-window a 0 (n - 1) n (omega arith))
                          ∙ ap (take (n - 1)) l.held
                          ∙ ap (λ k. take k line) back;
                    })))
          | inr empty ↦
              let zero_long : length line ≡ 0 = ground (arith, len, empty) in
              rw (other, shell_input)
                (rw (e, shell_input)
                  (rw (empty, shell_input)
                    (record { fits = l.fits; held = l.held ∙ take-empty line zero_long })))
        ]
        | inr e ↦ elim (Bool-cases (ltb n 255)) [
          | inl room ↦
              let fits : ltb (length line) 255 ≡ true = ground (arith, len, room) in
              let next : n + 1 ≡ suc n = omega arith in
              rw (other, shell_input)
                (rw (e, shell_input)
                  (rw (room, shell_input)
                    (rw fits (record {
                      fits = ground arith;
                      held =
                          ap (window (update a n c) 0) next
                          ∙ window-suc (update a n c) 0 n
                          ∙ ap₂ ◌++◌ (window-update a n n c (omega arith) ∙ l.held) (ground arith);
                    }))))
          | inr full ↦
              let fits : ltb (length line) 255 ≡ false = ground (arith, len, full) in
              rw (other, shell_input) (rw (e, shell_input) (rw (full, shell_input) (rw fits l)))
        ]
      ]

  type_line-IsLine :
      (typed : List ℕ) (s : Shell S) (line : List ℕ)
      → NoNewline typed
      → IsLine s line
      → IsLine (type_line ops typed s) (edited line typed)
  unfolding type_line edited
  type_line-IsLine [] s line other l = l
  type_line-IsLine (c ∷ typed) s line (c_other, other) l =
      type_line-IsLine typed (shell_input ops c s) (edit line c) other
        (shell_input-IsLine c s line c_other l)

-- Characters that are typed at the prompt and then the enter key make the shell execute its buffer, which holds the
-- edited line, each character but the backspace added while fewer than 255 are there, with a terminating
-- 0; then the prompt is written and the next line is empty.
pub shell_input-edited :
    {S : Type 0} (ops : Commands S) (typed : List ℕ) (s : Shell S)
    → NoNewline typed
    → s.shell_buffer_index ≡ 0
    → (buffer : ℕ → ℕ) × (sys : S) × (shell_input ops 10 (type_line ops typed s) ≡ record {
      shell_buffer = buffer;
      shell_buffer_index = 0;
      sys = ops.prompt (ops.execute buffer (ops.putchar 10 sys));
    })
      × (window buffer 0 (length (edited [] typed)) ≡ edited [] typed)
      × (buffer (length (edited [] typed)) ≡ 0)
      × (length (edited [] typed) ≤ 255)
unfolding shell_input
shell_input-edited {S} ops typed s other start =
    let t = type_line ops typed s in
    let a = t.shell_buffer in
    let n = t.shell_buffer_index in
    let begun : IsLine s [] = record {
      fits = omega (arith, start);
      held = ap (window s.shell_buffer 0) start;
    } in
    let l = type_line-IsLine ops typed s [] other begun in
    let len : length (edited [] typed) ≡ n = sym (ap length l.held) ∙ length-window a 0 n in
    (
      update a n 0,
      t.sys,
      refl,
      ap (window (update a n 0) 0) len ∙ window-update a n n 0 (omega arith) ∙ l.held,
      ground (arith, len),
      omega (arith, len, l.fits),
    )
