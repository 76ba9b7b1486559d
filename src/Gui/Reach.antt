-- ===== src/Gui/Reach.antt =====
-- `gui_start` and sequences of keys in src/kernel/gui.cpp.
use trieternal_x_os.Base.{
  ℕ, ◌+◌, ◌≤◌, ◌<◌, ◌≡◌, ◌∙◌, ap, ◌++◌, Bool, true, false, List, [], ◌∷◌, arith, update, length,
  length-append, if◌then◌else◌,
}
use trieternal_x_os.Base.Text.{codes}
use trieternal_x_os.Gui.{Gui, System, refresh_file_list}
use trieternal_x_os.Gui.Console.{start, term_init}
use trieternal_x_os.Gui.Keys.{ends_in_slash, full_path, handle_key}
use trieternal_x_os.Gui.Bounds.{
  Fits, IsRoomy, refresh_file_list-Fits, refresh_services_list-Fits, term_init-Fits,
}
use trieternal_x_os.Gui.Windows.{IsValid, ok}
use trieternal_x_os.Gui.Safe.{handle_key-IsValid}

-- Keys one after the other, each a scancode with the character that it types.
unfoldable pub type_keys : {S : Type 0} → System S → List (ℕ × ℕ) → Gui S → Gui S
type_keys ops [] g = g
type_keys ops ((scancode, c) ∷ keys) g = type_keys ops keys (handle_key ops scancode c g)

module _ {S : Type 0} where
  module _ (ops : System S) (roomy : IsRoomy ops) where
    start-IsValid : (g : Gui S) → Fits g → IsValid (start ops g)
    unfolding start
    start-IsValid g (w, m, f, s, t, i) =
        let shown =
          update (update (update (update (update g.window_visible 0 true) 1 false) 2 false) 3 false)
            4 false in
        let begun = record g {
          gui_active = true;
          active_window = 0;
          window_visible = shown;
          start_menu_open = false;
          start_menu_selected = 0;
        } in
        let v1 = term_init-Fits begun (omega arith, (omega arith, omega arith), f, s, t, i) in
        let v2 = refresh_file_list-Fits ops roomy (term_init begun) v1 in
        ok (refresh_services_list-Fits ops roomy (refresh_file_list ops (term_init begun)) v2)

    type_keys-IsValid :
        (keys : List (ℕ × ℕ)) (g : Gui S) → IsValid g → IsValid (type_keys ops keys g)
    unfolding type_keys
    type_keys-IsValid [] g v = v
    type_keys-IsValid ((scancode, c) ∷ keys) g v =
        type_keys-IsValid keys (handle_key ops scancode c g)
          (handle_key-IsValid ops roomy scancode c g v)

-- The path with which `api_read_file` is called for any listed file fits the 128 bytes it is built in.
abbrev pub IsOpenable : {S : Type 0} → Gui S → Type 0
IsOpenable g = (j : ℕ) → length (full_path (g.dir_files j) g) < 128

slash-le : (b : Bool) → length (if b then [] else codes "/") ≤ 1
slash-le true = omega arith
slash-le false = omega arith

Fits-IsOpenable : {S : Type 0} (g : Gui S) → Fits g → IsOpenable g
Fits-IsOpenable g (w, m, (f, n), s, t, i) j =
    let slash = if ends_in_slash g.current_dir then [] else codes "/" in
    let name = (g.dir_files j).name in
    let cur = g.current_dir in
    let e : length (full_path (g.dir_files j) g) ≡ length cur + length slash + length name =
      length-append (cur ++ slash) name ∙ ap (λ k. k + length name) (length-append cur slash) in
    omega (arith, e, slash-le (ends_in_slash g.current_dir), n.dir, n.names j)

-- Where the files and services listed are no more than asked for, in arrays of names of at most 62 bytes, and the
-- desktop is in its bounds before, after `gui_start` and any keys the active window is one of the five, the
-- chosen entry of the start menu one of its six, the selected file and service and their counts are in their
-- arrays, the path of the directory is shorter than its 64 bytes and the path of every listed file shorter than
-- the 128 bytes it is built in, and the terminal window has at most nine lines that fit and at most 40 typed
-- characters.
pub type_keys-start :
    {S : Type 0} (ops : System S) (keys : List (ℕ × ℕ)) (g : Gui S)
    → IsRoomy ops
    → Fits g
    → IsValid (type_keys ops keys (start ops g)) × IsOpenable (type_keys ops keys (start ops g))
type_keys-start ops keys g roomy v =
    let valid = type_keys-IsValid ops roomy keys (start ops g) (start-IsValid ops roomy g v) in
    (valid, Fits-IsOpenable (type_keys ops keys (start ops g)) valid.fits)
