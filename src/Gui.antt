-- ===== src/Gui.antt =====
-- The desktop, src/kernel/gui.cpp: its windows, its start menu and what its keys do. What it draws and
-- the rest of the system are the record `System`; a C string is the list of its bytes, so that `term_input` holds
-- its `term_input_len` too.
pub mod Console
pub mod Keys
pub mod Bounds
pub mod Windows
pub mod Safe
pub mod Reach
mod Examples
use trieternal_x_os.Base.{
  ℕ, zero, suc, ◌+◌, ◌-◌, Bool, true, false, Option, List, [], ◌∷◌, ◌==◌, if◌then◌else◌, update,
}
use trieternal_x_os.Base.Text.{codes}
use trieternal_x_os.Fs.Listing.{VirtualFile}
use trieternal_x_os.Services.{SystemService}

-- The static variables; `sys` is the state of the rest of the system.
pub record Gui (S : Type 0) : Type 0 where
  pub gui_active : Bool
  pub active_window : ℕ
  pub window_visible : ℕ → Bool
  pub start_menu_open : Bool
  pub start_menu_selected : ℕ
  pub current_dir : List ℕ
  pub file_selected_index : ℕ
  pub file_count : ℕ
  pub dir_files : ℕ → VirtualFile
  pub service_selected_index : ℕ
  pub service_count : ℕ
  pub sys_services : ℕ → SystemService
  pub viewer_title : List ℕ
  pub viewer_content : List ℕ
  pub term_lines : ℕ → List ℕ
  pub term_line_count : ℕ
  pub term_input : List ℕ
  pub sys : S

-- What the desktop calls: `api_list_files` and `api_get_services` with the room in the array,
-- `api_read_file`, `api_toggle_service`, `api_reboot`, `api_shutdown`, `gui_render`, and the terminal.
pub record System (S : Type 0) : Type 0 where
  pub list_files : S → List ℕ → (ℕ → VirtualFile) → ℕ → ℕ × (ℕ → VirtualFile)
  pub get_services : S → (ℕ → SystemService) → ℕ → ℕ × (ℕ → SystemService)
  pub read_file : S → List ℕ → Option (List ℕ)
  pub toggle_service : List ℕ → S → S
  pub reboot : S → S
  pub shutdown : S → S
  pub draw : Gui S → S
  pub clear : S → S
  pub write : List ℕ → S → S

module _ {S : Type 0} (ops : System S) where
  abbrev pub render : Gui S → Gui S
  render g = record g { sys = ops.draw g }

  unfoldable pub refresh_file_list : Gui S → Gui S
  refresh_file_list g =
      let (count, files) = ops.list_files g.sys g.current_dir g.dir_files 12 in
      record g { file_count = count; dir_files = files }

  unfoldable pub refresh_services_list : Gui S → Gui S
  refresh_services_list g =
      let (count, services) = ops.get_services g.sys g.sys_services 10 in
      record g { service_count = count; sys_services = services }

  unfoldable pub stop : Gui S → Gui S
  stop g = record g { gui_active = false; sys = ops.clear g.sys }

  unfoldable pub is_in_gui_mode : Gui S → Bool
  is_in_gui_mode g = g.gui_active

module _ {S : Type 0} where
  -- A window comes to the front.
  abbrev pub show : ℕ → Gui S → Gui S
  show w g = record g { active_window = w; window_visible = update g.window_visible w true }

  -- The viewer is closed.
  abbrev pub hide_viewer : Gui S → Gui S
  hide_viewer g = record g { window_visible = update g.window_visible 3 false; active_window = 1 }
