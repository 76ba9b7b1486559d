-- ===== src/Gui/Bounds.antt =====
-- The bounds of the arrays of the desktop, src/kernel/gui.cpp, and of its selections, and the operations that keep
-- them.
use trieternal_x_os.Base.{
  ℕ, zero, suc, ◌+◌, ◌-◌, ◌≤◌, ◌<◌, ◌≡◌, ◌≢◌, refl, Bool, true, false, List, [], ◌∷◌, ◌++◌, arith,
  leb, ◌==◌, if◌then◌else◌, Bool-cases, inl, inr, length, take, update,
}
use trieternal_x_os.Base.Text.{codes, same_text}
use trieternal_x_os.Fs.Listing.{VirtualFile}
use trieternal_x_os.Services.{SystemService}
use trieternal_x_os.Gui.{Gui, System, refresh_file_list, refresh_services_list, show}
use trieternal_x_os.Gui.Console.{
  empty_lines, answer, move_lines, term_clear, term_execute, term_init, term_print, term_print_all,
}

-- Each line of the terminal window fits its 56 bytes.
abbrev pub IsNarrow : (ℕ → List ℕ) → Type 0
IsNarrow lines = (j : ℕ) → length (lines j) ≤ 55

abbrev pub HasShortNames : (ℕ → VirtualFile) → Type 0
HasShortNames files = (j : ℕ) → length (files j).name ≤ 62

-- A directory that is shown: its path fits `current_dir` with its end, and the files fit `dir_files`.
pub record IsShown (count : ℕ) (path : List ℕ) (files : ℕ → VirtualFile) : Type 0 where
  pub few : count ≤ 12
  pub dir : length path < 64
  pub names : HasShortNames files

-- `api_list_files` and `api_get_services` give no more than the array has room for, and names of at most 62 bytes.
pub record IsRoomy {S : Type 0} (ops : System S) : Type 0 where
  pub files :
      (sys : S) (dir : List ℕ) (out : ℕ → VirtualFile) (room : ℕ)
      → (ops.list_files sys dir out room).0 ≤ room
  pub names :
      (sys : S) (dir : List ℕ) (out : ℕ → VirtualFile) (room : ℕ)
      → HasShortNames out
      → HasShortNames (ops.list_files sys dir out room).1
  pub services :
      (sys : S) (out : ℕ → SystemService) (room : ℕ) → (ops.get_services sys out room).0 ≤ room

length-take : (n : ℕ) (xs : List ℕ) → length (take n xs) ≤ n
length-take zero xs = omega arith
length-take (suc n) [] = omega arith
length-take (suc n) (x ∷ xs) = omega (arith, length-take n xs)

pub take-le : (n : ℕ) (xs : List ℕ) → length (take n xs) ≤ length xs
take-le zero xs = omega arith
take-le (suc n) [] = omega arith
take-le (suc n) (x ∷ xs) = omega (arith, take-le n xs)

update-IsNarrow :
    (lines : ℕ → List ℕ) (i : ℕ) (l : List ℕ)
    → IsNarrow lines
    → length l ≤ 55
    → IsNarrow (update lines i l)
update-IsNarrow lines i l narrow le j = elim (Bool-cases (j == i)) [
  | inl e ↦ rw e le
  | inr e ↦ rw e (narrow j)
]

move_lines-IsNarrow :
    (n i : ℕ) (lines : ℕ → List ℕ) → IsNarrow lines → IsNarrow (move_lines n i lines)
unfolding move_lines
move_lines-IsNarrow zero i lines narrow = narrow
move_lines-IsNarrow (suc n) i lines narrow =
    move_lines-IsNarrow n (i + 1) (update lines (i - 1) (lines i))
      (update-IsNarrow lines (i - 1) (lines i) narrow (narrow i))

empty_lines-IsNarrow :
    (n i : ℕ) (lines : ℕ → List ℕ) → IsNarrow lines → IsNarrow (empty_lines n i lines)
unfolding empty_lines
empty_lines-IsNarrow zero i lines narrow = narrow
empty_lines-IsNarrow (suc n) i lines narrow =
    empty_lines-IsNarrow n (i + 1) (update lines i [])
      (update-IsNarrow lines i [] narrow (omega arith))

module _ {S : Type 0} where
  -- The active window is one of the five, the chosen entry of the menu one of the six, the selected lines are
  -- in their arrays, the path of the directory fits, and the terminal window has at most nine lines that fit, and at most 40 typed characters.
  abbrev pub Fits : Gui S → Type 0
  Fits g =
      (g.active_window < 5)
      × ((g.start_menu_selected < 7) × (g.start_menu_selected ≢ 4))
      × ((g.file_selected_index < 12) × IsShown g.file_count g.current_dir g.dir_files)
      × ((g.service_selected_index < 10) × (g.service_count ≤ 10))
      × ((g.term_line_count ≤ 9) × IsNarrow g.term_lines)
      × (length g.term_input ≤ 40)

  Fits-if :
      (b : Bool) (x y : Gui S)
      → (b ≡ true → Fits x)
      → (b ≡ false → Fits y)
      → Fits (if b then x else y)
  Fits-if true x y p q = p refl
  Fits-if false x y p q = q refl

  term_print-Fits : (text : List ℕ) (g : Gui S) → Fits g → Fits (term_print text g)
  unfolding term_print
  term_print-Fits text g (w, m, f, s, (few, narrow), i) =
      elim (Bool-cases (leb 9 g.term_line_count)) [
        | inl e ↦ (
          w,
          m,
          f,
          s,
          (
            rw e (omega arith),
            rw e (
                update-IsNarrow (move_lines 8 1 g.term_lines) 8 (take 55 text)
                  (move_lines-IsNarrow 8 1 g.term_lines narrow) (length-take 55 text)),
          ),
          i,
        )
        | inr e ↦ (
          w,
          m,
          f,
          s,
          (
            rw e (ground arith),
            rw e (
                update-IsNarrow g.term_lines g.term_line_count (take 55 text) narrow
                  (length-take 55 text)),
          ),
          i,
        )
      ]

  term_clear-Fits : (g : Gui S) → Fits g → Fits (term_clear g)
  unfolding term_clear
  term_clear-Fits g (w, m, f, s, (few, narrow), i) =
      (w, m, f, s, (omega arith, empty_lines-IsNarrow 9 0 g.term_lines narrow), i)

  term_print_all-Fits : (texts : List (List ℕ)) (g : Gui S) → Fits g → Fits (term_print_all texts g)
  unfolding term_print_all
  term_print_all-Fits [] g v = v
  term_print_all-Fits (text ∷ texts) g v =
      term_print_all-Fits texts (term_print text g) (term_print-Fits text g v)

  pub term_execute-Fits :
      (ops : System S) (cmd : List ℕ) (g : Gui S) → Fits g → Fits (term_execute ops cmd g)
  unfolding term_execute
  term_execute-Fits ops cmd g v =
      let asked = term_print (codes "ariel@trieternalx:~$ " ++ cmd) g in
      let answered = term_print_all (answer cmd) asked in
      let off = record answered { sys = ops.shutdown answered.sys } in
      let v1 = term_print-Fits (codes "ariel@trieternalx:~$ " ++ cmd) g v in
      let v2 = term_print_all-Fits (answer cmd) asked v1 in
      Fits-if (same_text cmd (codes "clear")) (term_clear asked)
        (if same_text cmd (codes "shutdown") then off else answered) (λ e. term_clear-Fits asked v1)
        (λ e. Fits-if (same_text cmd (codes "shutdown")) off answered (λ e. v2) (λ e. v2))

  pub term_init-Fits : (g : Gui S) → Fits g → Fits (term_init g)
  unfolding term_init
  term_init-Fits g v =
      let greeted = term_print (codes "Linux Bash Shell Emulator v3.0") (term_clear g) in
      let helped =
        term_print (codes "Ketik 'help' untuk bantuan, 'neofetch' untuk info.") greeted in
      let (w, m, f, s, t, i) = term_print-Fits [] helped (
        term_print-Fits (codes "Ketik 'help' untuk bantuan, 'neofetch' untuk info.") greeted (
          term_print-Fits (codes "Linux Bash Shell Emulator v3.0") (term_clear g)
            (term_clear-Fits g v))) in
      (w, m, f, s, t, omega arith)

  module _ (ops : System S) (roomy : IsRoomy ops) where
    pub refresh_file_list-Fits : (g : Gui S) → Fits g → Fits (refresh_file_list ops g)
    unfolding refresh_file_list
    refresh_file_list-Fits g (w, m, (f, n), s, t, i) = (
      w,
      m,
      (
        f,
        record {
          few = roomy.files g.sys g.current_dir g.dir_files 12;
          dir = n.dir;
          names = roomy.names g.sys g.current_dir g.dir_files 12 n.names;
        },
      ),
      s,
      t,
      i,
    )

    -- The desktop with another directory is in its bounds too, where its path fits.
    pub moved-Fits :
        (dir : List ℕ) (g : Gui S)
        → length dir < 64
        → Fits g
        → Fits (record g { current_dir = dir })
    moved-Fits dir g fits (w, m, (f, n), s, t, i) =
        (w, m, (f, record { few = n.few; dir = fits; names = n.names }), s, t, i)

    pub refresh_services_list-Fits : (g : Gui S) → Fits g → Fits (refresh_services_list ops g)
    unfolding refresh_services_list
    refresh_services_list-Fits g (w, m, f, (s, n), t, i) =
        (w, m, f, (s, roomy.services g.sys g.sys_services 10), t, i)

    pub show-Fits : (w : ℕ) (g : Gui S) → w < 5 → Fits g → Fits (show w g)
    show-Fits w g lt (old, m, f, s, t, i) = (lt, m, f, s, t, i)
