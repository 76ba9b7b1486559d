-- ===== src/Vmm/Entries.antt =====
-- What `vmm_get_phys_addr` of src/kernel/vmm.cpp makes of the entries that it reads.
use trieternal_x_os.Base.{
  ℕ, ◌+◌, ◌*◌, ◌/◌, ◌%◌, bit_or, ◌≡◌, ◌≢◌, refl, not, arith, eq→==, ne→==, if◌then◌else◌,
}
use trieternal_x_os.Base.Masks.{bit_or-offset}
use trieternal_x_os.Vmm.{Vmm, is_present, page_of, pd_idx, pt_idx, unmapped, get_phys_addr}

-- The address that the entries of the directory and of the table give for `virt`.
abbrev pub translate : ℕ → ℕ → ℕ → ℕ
translate entry page virt =
    if not (is_present entry)
    then unmapped virt
    else if not (is_present page)
    then unmapped virt
    else bit_or (page_of page) (virt % 4096)

-- Where the entry for `virt` stands in memory.
abbrev pub slot : {V : Type 0} → Vmm V → ℕ → ℕ
slot s virt = page_of (s.directory (pd_idx virt)) + 4 * pt_idx virt

pub get_phys_addr-translate :
    {V : Type 0} (s : Vmm V) (virt : ℕ)
    → get_phys_addr virt s ≡ translate (s.directory (pd_idx virt)) (s.words (slot s virt)) virt
unfolding get_phys_addr
get_phys_addr-translate s virt = refl

pub translate-absent :
    (entry page virt : ℕ) → entry % 2 ≢ 1 → translate entry page virt ≡ unmapped virt
translate-absent entry page virt e = rw (ne→== (entry % 2) 1 e) refl

pub translate-hole :
    (entry page virt : ℕ) → entry % 2 ≡ 1 → page % 2 ≢ 1 → translate entry page virt ≡ unmapped virt
translate-hole entry page virt e h = rw (eq→== (entry % 2) 1 e) (rw (ne→== (page % 2) 1 h) refl)

pub translate-page :
    (entry page virt : ℕ)
    → entry % 2 ≡ 1
    → page % 2 ≡ 1
    → translate entry page virt ≡ page / 4096 * 4096 + virt % 4096
translate-page entry page virt e h =
    rw (eq→== (entry % 2) 1 e)
      (rw (eq→== (page % 2) 1 h) (bit_or-offset (page / 4096) (virt % 4096) (omega arith)))

-- The entry of the directory counts only by whether it is present.
pub translate-entry :
    (entry entry' page virt : ℕ)
    → entry % 2 ≡ 1
    → entry' % 2 ≡ 1
    → translate entry page virt ≡ translate entry' page virt
translate-entry entry entry' page virt e e' =
    rw (eq→== (entry % 2) 1 e) (rw (eq→== (entry' % 2) 1 e') refl)
