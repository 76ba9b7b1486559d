-- ===== src/Vmm/Unmap.antt =====
-- `vmm_get_phys_addr` of src/kernel/vmm.cpp after `vmm_unmap_page`.
use trieternal_x_os.Base.{
  ℕ, ◌+◌, ◌*◌, ◌/◌, ◌%◌, ◌^◌, ◌<◌, ◌≡◌, ◌≢◌, inl, inr, refl, sym, ◌∙◌, ap, arith, ◌==◌, ==→eq,
  eq→==, ne→==, if◌then◌else◌, Bool-cases,
}
use trieternal_x_os.Vmm.{
  Vmm, is_present, page_of, pd_idx, pt_idx, unmapped, unmap_page, get_phys_addr,
}
use trieternal_x_os.Vmm.Entries.{
  translate, slot, get_phys_addr-translate, translate-absent, translate-hole,
}
use trieternal_x_os.Vmm.Tables.{IsPaged}

module _ {V : Type 0} (s : Vmm V) (virt : ℕ) where
  unmapped_state-absent : s.directory (pd_idx virt) % 2 ≢ 1 → unmap_page virt s ≡ s
  unfolding unmap_page
  unmapped_state-absent gone = rw (ne→== (s.directory (pd_idx virt) % 2) 1 gone) refl

  unmap_page-directory : (x : ℕ) → (unmap_page virt s).directory x ≡ s.directory x
  unfolding unmap_page
  unmap_page-directory x = ground arith

  unmap_page-words :
      s.directory (pd_idx virt) % 2 ≡ 1
      → (a : ℕ) → (unmap_page virt s).words a ≡ (if a == slot s virt then 0 else s.words a)
  unfolding unmap_page
  unmap_page-words there a = rw (eq→== (s.directory (pd_idx virt) % 2) 1 there) refl

  -- Where the directory has a table for `virt`.
  module _ (there : s.directory (pd_idx virt) % 2 ≡ 1) where
    abbrev out : Vmm V
    out = unmap_page virt s

    slot-out : (virt' : ℕ) → slot out virt' ≡ slot s virt'
    slot-out virt' = ap (λ e. page_of e + 4 * pt_idx virt') (unmap_page-directory (pd_idx virt'))

    through :
        (virt' : ℕ)
        → get_phys_addr virt' out
          ≡ translate (s.directory (pd_idx virt')) (out.words (slot s virt')) virt'
    through virt' =
        get_phys_addr-translate out virt'
        ∙ ap (λ e. translate e (out.words (slot out virt')) virt')
            (unmap_page-directory (pd_idx virt'))
        ∙ ap (λ a. translate (s.directory (pd_idx virt')) (out.words a) virt') (slot-out virt')

    unmap_page-same :
        (virt' : ℕ) → virt' / 4096 ≡ virt / 4096 → get_phys_addr virt' out ≡ unmapped virt'
    unmap_page-same virt' e =
        let dir : pd_idx virt' ≡ pd_idx virt = omega arith in
        let tab : pt_idx virt' ≡ pt_idx virt = omega arith in
        let entry = ap s.directory dir in
        let at : slot s virt' ≡ slot s virt = omega (arith, entry, tab) in
        let gone : out.words (slot s virt') ≡ 0 =
          unmap_page-words there (slot s virt') ∙ rw (eq→== (slot s virt') (slot s virt) at) refl in
        through virt'
        ∙ translate-hole (s.directory (pd_idx virt')) (out.words (slot s virt')) virt'
            (ap (λ n. n % 2) entry ∙ there) (λ z. absurd (omega (arith, gone, z)))

    unmap_page-miss :
        (virt' : ℕ) → slot s virt' ≢ slot s virt → get_phys_addr virt' out ≡ get_phys_addr virt' s
    unmap_page-miss virt' ne =
        through virt'
        ∙ ap (λ w. translate (s.directory (pd_idx virt')) w virt')
            (unmap_page-words there (slot s virt')
              ∙ rw (ne→== (slot s virt') (slot s virt) ne) refl)
        ∙ sym (get_phys_addr-translate s virt')

    unmap_page-other :
        (virt' : ℕ)
        → virt < 2 ^ 32
        → virt' < 2 ^ 32
        → IsPaged s
        → virt' / 4096 ≢ virt / 4096
        → get_phys_addr virt' out ≡ get_phys_addr virt' s
    unmap_page-other virt' small small' paged ne = elim (Bool-cases (pd_idx virt' == pd_idx virt)) [
      | inl d ↦
          let dir = ==→eq (pd_idx virt') (pd_idx virt) d in
          let entry = ap s.directory dir in
          unmap_page-miss virt' (λ e. ne (omega (arith, dir, entry, e)))
      | inr d ↦
          let dir : pd_idx virt' ≢ pd_idx virt = λ e. absurd (ground (arith, d, e)) in
          elim (Bool-cases (is_present (s.directory (pd_idx virt')))) [
            | inl p ↦
                let present : s.directory (pd_idx virt') % 2 ≡ 1 =
                  ==→eq (s.directory (pd_idx virt') % 2) 1 p in
                let apart =
                  paged.apart (pd_idx virt') (pd_idx virt) (omega arith) (omega arith) dir present
                    there in
                unmap_page-miss virt' (λ e. apart (omega (arith, e)))
            | inr p ↦
                let absent : s.directory (pd_idx virt') % 2 ≢ 1 =
                  λ z. absurd (ground (arith, p, z)) in
                through virt'
                ∙ translate-absent (s.directory (pd_idx virt')) (out.words (slot s virt')) virt'
                    absent
                ∙ sym (
                    translate-absent (s.directory (pd_idx virt')) (s.words (slot s virt')) virt'
                      absent)
                ∙ sym (get_phys_addr-translate s virt')
          ]
    ]

-- For 32-bit addresses, after `vmm_unmap_page`, where different entries of the directory name different tables,
-- `vmm_get_phys_addr` gives for the addresses of the page what it gives where nothing is mapped, the
-- address itself below 128 MB and else 0, and for every other address what it gave before.
pub unmap_page_lem :
    {V : Type 0} (s : Vmm V) (virt virt' : ℕ)
    → virt < 2 ^ 32
    → virt' < 2 ^ 32
    → IsPaged s
    → get_phys_addr virt' (unmap_page virt s)
      ≡ (if virt' / 4096 == virt / 4096 then unmapped virt' else get_phys_addr virt' s)
unmap_page_lem s virt virt' small small' paged =
    elim (Bool-cases (is_present (s.directory (pd_idx virt)))) [
      | inl p ↦
          let there = ==→eq (s.directory (pd_idx virt) % 2) 1 p in
          elim (Bool-cases (virt' / 4096 == virt / 4096)) [
            | inl same ↦
                unmap_page-same s virt there virt' (==→eq (virt' / 4096) (virt / 4096) same)
                ∙ rw same refl
            | inr other ↦
                unmap_page-other s virt there virt' small small' paged
                  (λ z. absurd (ground (arith, other, z)))
                ∙ rw other refl
          ]
      | inr p ↦
          let gone : s.directory (pd_idx virt) % 2 ≢ 1 = λ z. absurd (ground (arith, p, z)) in
          let stay = ap (get_phys_addr virt') (unmapped_state-absent s virt gone) in
          elim (Bool-cases (virt' / 4096 == virt / 4096)) [
            | inl same ↦
                let dir : pd_idx virt' ≡ pd_idx virt =
                  let e = ==→eq (virt' / 4096) (virt / 4096) same in omega arith in
                stay
                ∙ get_phys_addr-translate s virt'
                ∙ translate-absent (s.directory (pd_idx virt')) (s.words (slot s virt')) virt'
                    (λ z. gone (ap (λ x. s.directory x % 2) (sym dir) ∙ z))
                ∙ rw same refl
            | inr other ↦ stay ∙ rw other refl
          ]
    ]
