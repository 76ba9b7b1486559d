-- ===== src/Gui/Console.antt =====
-- The lines of the terminal window of src/kernel/gui.cpp, and its commands.
use trieternal_x_os.Base.{
  ℕ, zero, suc, ◌+◌, ◌-◌, true, false, ◌||◌, List, [], ◌∷◌, ◌++◌, leb, if◌then◌else◌, update, take,
}
use trieternal_x_os.Base.Text.{codes, same_text}
use trieternal_x_os.Gui.{Gui, System, refresh_file_list, refresh_services_list, render}

-- The loop that moves the lines up, for `n` lines from `i` on.
unfoldable pub move_lines : ℕ → ℕ → (ℕ → List ℕ) → ℕ → List ℕ
move_lines zero i lines = lines
move_lines (suc n) i lines = move_lines n (i + 1) (update lines (i - 1) (lines i))

-- `for (; n > 0; n--, i++) term_lines[i][0] = '\0';`
unfoldable pub empty_lines : ℕ → ℕ → (ℕ → List ℕ) → ℕ → List ℕ
empty_lines zero i lines = lines
empty_lines (suc n) i lines = empty_lines n (i + 1) (update lines i [])

unfoldable pub err_msg : List ℕ → List ℕ
err_msg cmd = codes "bash: " ++ take 54 cmd ++ codes ": " ++ codes "command not found"

-- What a command prints; `clear` prints nothing.
unfoldable pub answer : List ℕ → List (List ℕ)
unfolding err_msg
answer cmd =
    if same_text cmd [] || same_text cmd (codes "clear")
    then []
    else if same_text cmd (codes "help")
    then codes "Perintah tersedia: help, clear, neofetch, ls, uname, shutdown" ∷ []
    else if same_text cmd (codes "uname")
    then codes "Linux trieternalx 3.0-hybrid-i686 i386 GNU/Linux" ∷ []
    else if same_text cmd (codes "ls")
    then codes "documents/   system/   games/   welcome.txt" ∷ []
    else if same_text cmd (codes "shutdown")
    then codes "Mematikan sistem via shell..." ∷ []
    else if same_text cmd (codes "neofetch")
    then codes "   /\\_/\\     ariel@trieternalx"
      ∷ codes "  ( o.o )    -----------------"
      ∷ codes "   > ^ <     OS: TrieternalX-OS (VBE GUI & Window Manager)"
      ∷ codes "  /     \\    Kernel: x86 freestanding C++"
      ∷ codes "  \\_|_|_/    Uptime: 10 mins"
      ∷ codes "             RAM: 24 MB / 128 MB"
      ∷ []
    else err_msg cmd ∷ []

module _ {S : Type 0} where
  unfoldable pub term_print : List ℕ → Gui S → Gui S
  unfolding move_lines
  term_print text g =
      let full = leb 9 g.term_line_count in
      let lines = if full then move_lines 8 1 g.term_lines else g.term_lines in
      let count = if full then 8 else g.term_line_count in
      record g { term_lines = update lines count (take 55 text); term_line_count = count + 1 }

  unfoldable pub term_clear : Gui S → Gui S
  unfolding empty_lines
  term_clear g = record g { term_lines = empty_lines 9 0 g.term_lines; term_line_count = 0 }

  unfoldable pub term_init : Gui S → Gui S
  unfolding term_print term_clear
  term_init g =
      let greeted = term_print (codes "Linux Bash Shell Emulator v3.0") (term_clear g) in
      let helped =
        term_print (codes "Ketik 'help' untuk bantuan, 'neofetch' untuk info.") greeted in
      record (term_print [] helped) { term_input = [] }

  unfoldable pub term_print_all : List (List ℕ) → Gui S → Gui S
  term_print_all [] g = g
  term_print_all (text ∷ texts) g = term_print_all texts (term_print text g)

  module _ (ops : System S) where
    unfoldable pub term_execute : List ℕ → Gui S → Gui S
    unfolding term_print term_clear term_print_all answer
    term_execute cmd g =
        let asked = term_print (codes "ariel@trieternalx:~$ " ++ cmd) g in
        let answered = term_print_all (answer cmd) asked in
        if same_text cmd (codes "clear")
        then term_clear asked
        else if same_text cmd (codes "shutdown")
        then record answered { sys = ops.shutdown answered.sys }
        else answered

    -- `gui_start`
    unfoldable pub start : Gui S → Gui S
    unfolding term_init
    start g =
        let shown =
          update (update (update (update (update g.window_visible 0 true) 1 false) 2 false) 3 false)
            4 false in
        let begun = record g {
          gui_active = true;
          active_window = 0;
          window_visible = shown;
          start_menu_open = false;
          start_menu_selected = 0;
        } in
        render ops (refresh_services_list ops (refresh_file_list ops (term_init begun)))
