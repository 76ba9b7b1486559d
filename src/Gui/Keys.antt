-- ===== src/Gui/Keys.antt =====
-- `gui_handle_key` of src/kernel/gui.cpp. A key is a scancode and the character that it types, or 0.
use trieternal_x_os.Base.{
  ℕ, ◌+◌, ◌-◌, Bool, false, not, ◌&&◌, ◌||◌, none, some, List, [], ◌∷◌, ◌++◌, ltb, ◌==◌,
  if◌then◌else◌, length, take,
}
use trieternal_x_os.Base.Text.{codes, same_text}
use trieternal_x_os.Fs.Listing.{VirtualFile}
use trieternal_x_os.Gui.{
  Gui, System, hide_viewer, refresh_file_list, refresh_services_list, render, show, stop,
}
use trieternal_x_os.Gui.Console.{term_execute}

-- The last character of a path is a slash.
abbrev pub ends_in_slash : List ℕ → Bool
ends_in_slash [] = false
ends_in_slash (c ∷ []) = c == b'/'
ends_in_slash (c ∷ d ∷ l) = ends_in_slash (d ∷ l)

-- The line between the entries 3 and 5 is passed over, and the ends meet.
abbrev pub next_entry : ℕ → ℕ
next_entry i = let j = if i + 1 == 4 then i + 2 else i + 1 in if ltb 6 j then 0 else j

abbrev pub previous_entry : ℕ → ℕ
previous_entry i = if i == 0 then 6 else if i - 1 == 4 then i - 2 else i - 1

-- The path of a file of the directory that is shown.
abbrev pub full_path : {S : Type 0} → VirtualFile → Gui S → List ℕ
full_path selected g =
    g.current_dir ++ (if ends_in_slash g.current_dir then [] else codes "/") ++ selected.name

module _ {S : Type 0} (ops : System S) where
  -- The entry of the start menu that is chosen with the enter key.
  unfoldable pub choose : Gui S → Gui S
  choose g =
      if g.start_menu_selected == 0
      then show 4 g
      else if g.start_menu_selected == 1
      then refresh_file_list ops (show 1 g)
      else if g.start_menu_selected == 2
      then refresh_services_list ops (show 2 g)
      else if g.start_menu_selected == 3
      then show 0 g
      else if g.start_menu_selected == 5
      then record g { sys = ops.reboot g.sys }
      else if g.start_menu_selected == 6
      then record g { sys = ops.shutdown g.sys }
      else g

  -- The keys of the open start menu; the other keys go on to `rest`.
  unfoldable pub menu_key : ℕ → ℕ → Gui S → Gui S → Gui S
  unfolding choose
  menu_key scancode c g rest =
      if scancode == 0x50
      then render ops (record g { start_menu_selected = next_entry g.start_menu_selected })
      else if scancode == 0x48
      then render ops (record g { start_menu_selected = previous_entry g.start_menu_selected })
      else if c == 27 || scancode == 0x01
      then render ops (record g { start_menu_open = false })
      else if c == 10
      then render ops (choose (record g { start_menu_open = false }))
      else rest

  -- The file at the selected line is opened: a directory below the root, or the viewer.
  unfoldable pub enter_dir : VirtualFile → Gui S → Gui S
  enter_dir selected g =
      let entered =
        if same_text g.current_dir (codes "/")
        then record g { current_dir = codes "/" ++ selected.name }
        else g in
      render ops (record (refresh_file_list ops entered) { file_selected_index = 0 })

  unfoldable pub view_file : VirtualFile → Gui S → Gui S
  view_file selected g = elim (ops.read_file g.sys (full_path selected g)) [
    | none ↦ g
    | some content ↦
        render ops (show 3 (record g { viewer_title = selected.name; viewer_content = content }))
  ]

  unfoldable pub files_key : ℕ → ℕ → Gui S → Gui S
  unfolding enter_dir view_file
  files_key scancode c g =
      let selected = g.dir_files g.file_selected_index in
      if scancode == 0x50
      then if ltb (g.file_selected_index + 1) g.file_count
        then render ops (record g { file_selected_index = g.file_selected_index + 1 })
        else g
      else if scancode == 0x48
      then if ltb 0 g.file_selected_index
        then render ops (record g { file_selected_index = g.file_selected_index - 1 })
        else g
      else if c == 10
      then if ltb 0 g.file_count
        then if selected.is_dir then enter_dir selected g else view_file selected g
        else g
      else if c == 8
      then if not (same_text g.current_dir (codes "/"))
        then render ops (record (refresh_file_list ops (record g { current_dir = codes "/" })) {
          file_selected_index = 0;
        })
        else g
      else g

  unfoldable pub services_key : ℕ → ℕ → Gui S → Gui S
  services_key scancode c g =
      let selected = g.sys_services g.service_selected_index in
      if scancode == 0x50
      then if ltb (g.service_selected_index + 1) g.service_count
        then render ops (record g { service_selected_index = g.service_selected_index + 1 })
        else g
      else if scancode == 0x48
      then if ltb 0 g.service_selected_index
        then render ops (record g { service_selected_index = g.service_selected_index - 1 })
        else g
      else if c == 10
      then if ltb 0 g.service_count
        then render ops
            (refresh_services_list ops (record g { sys = ops.toggle_service selected.name g.sys }))
        else g
      else g

  unfoldable pub input_key : ℕ → Gui S → Gui S
  input_key c g =
      if c == 10
      then render ops (record (term_execute ops g.term_input g) { term_input = [] })
      else if c == 8
      then if ltb 0 (length g.term_input)
        then render ops (record g { term_input = take (length g.term_input - 1) g.term_input })
        else g
      else if not (c == 0) && ltb (length g.term_input) 40
      then render ops (record g { term_input = g.term_input ++ c ∷ [] })
      else g

  -- The keys of the active window, if it is visible.
  unfoldable pub window_key : ℕ → ℕ → Gui S → Gui S
  unfolding files_key services_key input_key
  window_key scancode c g =
      if not (g.window_visible g.active_window)
      then g
      else if g.active_window == 1
      then files_key scancode c g
      else if g.active_window == 2
      then services_key scancode c g
      else if g.active_window == 3
      then if c == 8 || (c == 27 || scancode == 0x01) then render ops (hide_viewer g) else g
      else if g.active_window == 4
      then input_key c g
      else g

  -- The function keys, and the escape key that leaves the desktop.
  unfoldable pub function_key : ℕ → ℕ → Gui S → Gui S
  function_key scancode c g =
      let left = stop ops g in
      if scancode == 0x3B
      then render ops (show 0 g)
      else if scancode == 0x3C
      then render ops (refresh_file_list ops (show 1 g))
      else if scancode == 0x3D
      then render ops (refresh_services_list ops (show 2 g))
      else if scancode == 0x3E
      then render ops (if g.active_window == 3 then hide_viewer g else show 3 g)
      else if scancode == 0x01
      then record left {
        sys =
            ops.write (codes "TrieternalXOS > ")
              (ops.write (codes "Keluar dari GUI. Kembali ke kernel shell.\n") left.sys);
      }
      else window_key scancode c g

  unfoldable pub handle_key : ℕ → ℕ → Gui S → Gui S
  unfolding menu_key function_key
  handle_key scancode c g =
      let opening = not g.start_menu_open in
      let rest = function_key scancode c g in
      if scancode == 0x3F
      then render ops (record g {
        start_menu_open = opening;
        start_menu_selected = if opening then 0 else g.start_menu_selected;
      })
      else if g.start_menu_open
      then menu_key scancode c g rest
      else rest
