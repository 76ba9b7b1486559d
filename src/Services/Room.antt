-- ===== src/Services/Room.antt =====
-- `get_services` of src/kernel/services.cpp keeps to the room that it is given.
use trieternal_x_os.Base.{ℕ, zero, suc, ◌+◌, ◌≤◌, arith, ltb, if◌then◌else◌, update}
use trieternal_x_os.Services.{Services, SystemService, copy_services, get_services}

copy_services-le :
    (n i count max : ℕ) (list out : ℕ → SystemService)
    → count ≤ max
    → (copy_services n i count max list out).0 ≤ max
unfolding copy_services
copy_services-le zero i count max list out le = le
copy_services-le (suc n) i count max list out le =
    copy_services-le n (i + 1) (if ltb count max then count + 1 else count) max list
      (if ltb count max then update out count (list i) else out) (ground arith)

pub get_services-le :
    (s : Services) (out : ℕ → SystemService) (max : ℕ) → (get_services s out max).0 ≤ max
unfolding get_services
get_services-le s out max =
    copy_services-le s.services_count 0 0 max s.services_list out (omega arith)
