-- ===== src/Gui/Examples.antt =====
-- The desktop of src/kernel/gui.cpp over the table of services, and test runs.
use trieternal_x_os.Base.{ℕ, ◌≡◌, refl, false, none, List, [], ◌∷◌, arith, ◌==◌}
use trieternal_x_os.Base.Text.{codes, same_text}
use trieternal_x_os.Services.{
  Services, SystemService, copy_services, get_services, services_init, toggle_from, toggle_service,
}
use trieternal_x_os.Services.Room.{get_services-le}
use trieternal_x_os.Gui.{Gui, System, refresh_file_list, refresh_services_list}
use trieternal_x_os.Gui.Console.{
  answer, empty_lines, move_lines, start, term_clear, term_execute, term_init, term_print,
  term_print_all,
}
use trieternal_x_os.Gui.Keys.{
  choose, function_key, handle_key, input_key, menu_key, services_key, window_key,
}
use trieternal_x_os.Gui.Bounds.{Fits, IsRoomy}
use trieternal_x_os.Gui.Windows.{IsValid}
use trieternal_x_os.Gui.Reach.{IsOpenable, type_keys, type_keys-start}

-- No files; the services are those of src/kernel/services.cpp.
abbrev desk_ops : System Services
desk_ops = record {
  list_files = λ sys dir out room. (0, out);
  get_services = get_services;
  read_file = λ sys path. none;
  toggle_service = toggle_service;
  reboot = λ sys. sys;
  shutdown = λ sys. sys;
  draw = λ g. g.sys;
  clear = λ sys. sys;
  write = λ text sys. sys;
}

desk_ops-IsRoomy : IsRoomy desk_ops
desk_ops-IsRoomy = record {
  files = λ sys dir out room. omega arith;
  names = λ sys dir out room short. short;
  services = get_services-le;
}

abbrev unnamed : SystemService
unnamed = record { name = []; description = []; is_running = false }

abbrev table : Services
table =
    services_init
      (record { services_list = λ i. unnamed; services_count = 0; simulated_used_mem = 24110592 })

abbrev boot_desk : Gui Services
boot_desk = record {
  gui_active = false;
  active_window = 0;
  window_visible = λ w. w == 0;
  start_menu_open = false;
  start_menu_selected = 0;
  current_dir = codes "/";
  file_selected_index = 0;
  file_count = 0;
  dir_files = λ i. record { path = []; name = []; block = 0; is_dir = false; size = 0 };
  service_selected_index = 0;
  service_count = 0;
  sys_services = λ i. unnamed;
  viewer_title = codes "Notepad - Dokumen";
  viewer_content = [];
  term_lines = λ i. [];
  term_line_count = 0;
  term_input = [];
  sys = table;
}

boot_desk-Fits : Fits boot_desk
boot_desk-Fits = (
  omega arith,
  (omega arith, omega arith),
  (omega arith, record { few = omega arith; dir = omega arith; names = λ j. omega arith }),
  (omega arith, omega arith),
  (omega arith, λ j. omega arith),
  omega arith,
)

-- F3, down, enter: the second service is switched off.
abbrev off_keys : List (ℕ × ℕ)
off_keys = (0x3D, 0) ∷ (0x50, 0) ∷ (0x1C, 10) ∷ []

type_keys-start_example :
    IsValid (type_keys desk_ops off_keys (start desk_ops boot_desk))
    × IsOpenable (type_keys desk_ops off_keys (start desk_ops boot_desk))
type_keys-start_example =
    type_keys-start desk_ops off_keys boot_desk desk_ops-IsRoomy boot_desk-Fits

keyboard_off :
    ((type_keys desk_ops off_keys (start desk_ops boot_desk)).sys.services_list 1).is_running
    ≡ false
unfolding type_keys handle_key function_key window_key services_key start term_init term_print
    term_clear empty_lines move_lines refresh_file_list refresh_services_list get_services
    copy_services toggle_service toggle_from services_init same_text
keyboard_off = refl

-- F5, enter: the terminal window; then "ls" with the enter key.
abbrev ls_keys : List (ℕ × ℕ)
ls_keys = (0x3F, 0) ∷ (0x1C, 10) ∷ (0x26, b'l') ∷ (0x1F, b's') ∷ (0x1C, 10) ∷ []

ls_line :
    (type_keys desk_ops ls_keys (start desk_ops boot_desk)).term_lines 4
    ≡ codes "documents/   system/   games/   welcome.txt"
unfolding type_keys handle_key menu_key choose function_key window_key input_key start term_init
    term_print term_print_all term_execute answer term_clear empty_lines move_lines
    refresh_file_list refresh_services_list get_services copy_services services_init same_text
ls_line = refl
