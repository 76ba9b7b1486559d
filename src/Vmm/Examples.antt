-- ===== src/Vmm/Examples.antt =====
-- The theorems about src/kernel/vmm.cpp at concrete page tables.
use trieternal_x_os.Base.{ℕ, ◌+◌, ◌*◌, ◌≡◌, none, some, arith, ◌==◌, if◌then◌else◌}
use trieternal_x_os.Vmm.{Frames, Vmm, get_phys_addr, map_page, unmap_page}
use trieternal_x_os.Vmm.Tables.{IsPaged, IsFresh}
use trieternal_x_os.Vmm.Translate.{map_page_lem, map_page-IsPaged}
use trieternal_x_os.Vmm.Unmap.{unmap_page_lem}
use trieternal_x_os.Vmm.Boot.{init, IsIdentity, init-IsIdentity}

-- The frames from a number on.
abbrev bump : Frames ℕ
bump = record { alloc_frame = λ n. (n * 4096, n + 1); free_frame = λ frame n. n }

-- One page table, at the frame 50, for the addresses from 0x10000000 on; the next frame is 60.
abbrev one_table : Vmm ℕ
one_table = record {
  directory = λ x. if x == 64 then 50 * 4096 + 3 else 0;
  words = λ a. 0;
  cr3 = 0;
  frames = 60;
}

one_table-IsPaged : IsPaged one_table
one_table-IsPaged = record { apart = λ x y lx ly ne px py z. absurd (ground arith) }

one_table-IsFresh : IsFresh bump one_table
one_table-IsFresh = record { aligned = omega arith; fresh = λ x lx p z. absurd (ground arith) }

-- A page of another table, which is made.
map_page_lem_example :
    get_phys_addr 0x20000123 (map_page bump 0x20000000 0x345000 3 one_table) ≡ 0x345123
map_page_lem_example =
    map_page_lem bump one_table 0x20000000 0x345000 3 0x20000123 (omega arith) (omega arith)
      (omega arith) one_table-IsPaged one_table-IsFresh

map_page-IsPaged_example : IsPaged (map_page bump 0x20000000 0x345000 3 one_table)
map_page-IsPaged_example =
    map_page-IsPaged bump one_table 0x20000000 0x345000 3 (omega arith) (omega arith)
      one_table-IsPaged one_table-IsFresh

unmap_page_lem_example : get_phys_addr 0x10000123 (unmap_page 0x10000000 one_table) ≡ 0
unmap_page_lem_example =
    unmap_page_lem one_table 0x10000000 0x10000123 (omega arith) (omega arith) one_table-IsPaged

init-IsIdentity_example :
    (out : Vmm ℕ) × (init bump (record { directory_at = 4096; tables_at = 8192 }) 9 none one_table
      ≡ some out)
    × IsIdentity out
init-IsIdentity_example =
    init-IsIdentity bump (record { directory_at = 4096; tables_at = 8192 }) 9 one_table
      (omega arith)
