-- ===== src/Services.antt =====
-- The table of services, src/kernel/services.cpp, and the calls of src/kernel/api.cpp on it.
pub mod Room
use trieternal_x_os.Base.{
  ℕ, zero, suc, ◌+◌, Bool, true, false, not, List, [], ◌∷◌, ltb, if◌then◌else◌, update,
}
use trieternal_x_os.Base.Text.{codes, same_text}
use trieternal_x_os.Base.Words.{add32, sub32, mul32}
use trieternal_x_os.Pmm.{Pmm, get_used_frames}

pub record SystemService : Type 0 where
  pub name : List ℕ
  pub description : List ℕ
  pub is_running : Bool

pub record Services : Type 0 where
  pub services_list : ℕ → SystemService
  pub services_count : ℕ
  pub simulated_used_mem : ℕ

abbrev running : List ℕ → List ℕ → SystemService
running name description = record { name = name; description = description; is_running = true }

unfoldable pub services_init : Services → Services
services_init s =
    let list0 =
      update s.services_list 0
        (running (codes "VGA Console Driver") (codes "Menangani visual keluaran teks 80x25")) in
    let list1 = update list0 1 (
      running (codes "PS/2 Keyboard Driver")
        (codes "Mengatur input papan ketik & pemetaan tombol")) in
    let list2 =
      update list1 2
        (running (codes "Virtual Filesystem") (codes "Mengatur berkas virtual RAM-based")) in
    let list3 = update list2 3 (
      running (codes "TUI Desktop GUI Engine")
        (codes "Menggambar jendela dan mengatur fokus UI")) in
    let list4 =
      update list3 4
        (running (codes "Process Scheduler") (codes "Mengatur eksekusi multitasking proses")) in
    let list5 =
      update list4 5
        (running (codes "ACPI Power Manager") (codes "Menangani reboot dan shutdown sistem")) in
    record s { services_list = list5; services_count = 6 }

-- The loop of `get_services`, for `n` services from `i` on.
unfoldable pub copy_services :
    ℕ → ℕ → ℕ → ℕ → (ℕ → SystemService) → (ℕ → SystemService) → ℕ × (ℕ → SystemService)
copy_services zero i count max list out = (count, out)
copy_services (suc n) i count max list out =
    copy_services n (i + 1) (if ltb count max then count + 1 else count) max list
      (if ltb count max then update out count (list i) else out)

unfoldable pub get_services : Services → (ℕ → SystemService) → ℕ → ℕ × (ℕ → SystemService)
unfolding copy_services
get_services s out max = copy_services s.services_count 0 0 max s.services_list out

-- One service is switched over, with the memory that it seems to use.
abbrev pub switched : Services → ℕ → Services
switched s i =
    let service = s.services_list i in
    record s {
      services_list =
          update s.services_list i (record service { is_running = not service.is_running });
      simulated_used_mem =
          if not service.is_running
          then add32 s.simulated_used_mem 524288
          else sub32 s.simulated_used_mem 524288;
    }

-- The loop of `toggle_service`, for `n` services from `i` on.
unfoldable pub toggle_from : ℕ → ℕ → List ℕ → Services → Services
toggle_from zero i name s = s
toggle_from (suc n) i name s =
    let rest = toggle_from n (i + 1) name s in
    if same_text (s.services_list i).name name then switched s i else rest

unfoldable pub toggle_service : List ℕ → Services → Services
unfolding toggle_from
toggle_service name s = toggle_from s.services_count 0 name s

unfoldable pub get_used_memory : Pmm → ℕ
get_used_memory p = mul32 (get_used_frames p) 4096
