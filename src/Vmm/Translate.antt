-- ===== src/Vmm/Translate.antt =====
-- `vmm_get_phys_addr` of src/kernel/vmm.cpp after `vmm_map_page`.
use trieternal_x_os.Base.{
  ℕ, ◌+◌, ◌*◌, ◌/◌, ◌%◌, ◌^◌, ◌≤◌, ◌<◌, ◌≡◌, ◌≢◌, ◌⊎◌, inl, inr, refl, sym, ◌∙◌, ap, arith, ◌==◌,
  ==→eq, eq→==, ne→==, if◌then◌else◌, Bool-cases,
}
use trieternal_x_os.Vmm.{
  Frames, Vmm, is_present, page_of, pd_idx, pt_idx, zero_words, open_table, map_page, get_phys_addr,
}
use trieternal_x_os.Vmm.Entries.{
  translate, slot, get_phys_addr-translate, translate-absent, translate-hole, translate-page,
  translate-entry,
}
use trieternal_x_os.Vmm.Tables.{
  zero_words-in, zero_words-out, entry_of, entry_of-page, entry_of-present, IsPaged, IsFresh,
  IsOpened, open_table_lem,
}

module _ {V : Type 0} (ops : Frames V) (s : Vmm V) (virt phys flags : ℕ) (lf : flags < 4096)
    (small : virt < 2 ^ 32) where
  abbrev opened : Vmm V
  opened = open_table ops virt flags s

  abbrev mapped : Vmm V
  mapped = map_page ops virt phys flags s

  is_opened : IsOpened ops (pd_idx virt) s opened
  is_opened = open_table_lem ops virt flags s lf

  mapped-directory : (x : ℕ) → mapped.directory x ≡ opened.directory x
  unfolding map_page
  mapped-directory x = refl

  mapped-words :
      (a : ℕ)
      → mapped.words a
        ≡ (if a == slot opened virt then entry_of (page_of phys) flags else opened.words a)
  unfolding map_page
  mapped-words a = refl

  map_page-same :
      (virt' : ℕ)
      → virt' / 4096 ≡ virt / 4096
      → get_phys_addr virt' mapped ≡ phys / 4096 * 4096 + virt' % 4096
  map_page-same virt' e =
      let dir : pd_idx virt' ≡ pd_idx virt = omega arith in
      let tab : pt_idx virt' ≡ pt_idx virt = omega arith in
      let entry : mapped.directory (pd_idx virt') ≡ opened.directory (pd_idx virt) =
        mapped-directory (pd_idx virt') ∙ ap opened.directory dir in
      let at : slot mapped virt' ≡ slot opened virt = omega (arith, entry, tab) in
      let page : mapped.words (slot mapped virt') ≡ entry_of (page_of phys) flags =
        mapped-words (slot mapped virt')
        ∙ rw (eq→== (slot mapped virt') (slot opened virt) at) refl in
      get_phys_addr-translate mapped virt'
      ∙ translate-page (mapped.directory (pd_idx virt')) (mapped.words (slot mapped virt')) virt'
          (ap (λ n. n % 2) entry ∙ is_opened.present)
          (ap (λ n. n % 2) page ∙ entry_of-present (page_of phys) flags)
      ∙ omega (arith, ap (λ n. n / 4096) page, entry_of-page (page_of phys) flags lf)

  module _ (paged : IsPaged s) (f : IsFresh ops s) where
    -- Through another entry of the directory.
    other_table :
        (virt' : ℕ)
        → virt' < 2 ^ 32
        → pd_idx virt' ≢ pd_idx virt
        → s.directory (pd_idx virt') % 2 ≡ 1
        → (slot s virt' ≢ slot opened virt) × (opened.words (slot s virt') ≡ s.words (slot s virt'))
    other_table virt' small' ne there = elim (Bool-cases (is_present (s.directory (pd_idx virt)))) [
      | inl old ↦
          let here : s.directory (pd_idx virt) % 2 ≡ 1 =
            ==→eq (s.directory (pd_idx virt) % 2) 1 old in
          let apart =
            paged.apart (pd_idx virt') (pd_idx virt) (omega arith) (omega arith) ne there here in
          let kept = is_opened.old here in
          (λ e. apart (omega arith), is_opened.old_words here (slot s virt'))
      | inr new ↦
          let here : s.directory (pd_idx virt) % 2 ≢ 1 = λ z. absurd (ground arith) in
          let fresh = f.fresh (pd_idx virt') (omega arith) there in
          let page = is_opened.new here in
          let aligned = f.aligned in
          let page_start = (ops.alloc_frame s.frames).0 in
          (
            λ e. fresh (omega arith),
            is_opened.new_words here (slot s virt')
                ∙ zero_words-out 1024 page_start s.words (slot s virt') (
                    beside (s.directory (pd_idx virt')) page_start (pt_idx virt') (omega arith)
                      aligned fresh),
          )
    ]
      where
        beside :
            (entry start i : ℕ)
            → i < 1024
            → start % 4096 ≡ 0
            → entry / 4096 ≢ start / 4096
            → (page_of entry + 4 * i < start) ⊎ (start + 4 * 1024 ≤ page_of entry + 4 * i)
        beside entry start i below aligned ne = omega arith

    -- At another entry of the same page table.
    same_table :
        (virt' : ℕ)
        → pd_idx virt' ≡ pd_idx virt
        → pt_idx virt' ≢ pt_idx virt
        → get_phys_addr virt' mapped ≡ get_phys_addr virt' s
    same_table virt' dir ne =
        let entry : mapped.directory (pd_idx virt') ≡ opened.directory (pd_idx virt) =
          mapped-directory (pd_idx virt') ∙ ap opened.directory dir in
        let miss : slot mapped virt' ≢ slot opened virt = λ z. ne (omega (arith, entry)) in
        let page : mapped.words (slot mapped virt') ≡ opened.words (slot mapped virt') =
          mapped-words (slot mapped virt')
          ∙ rw (ne→== (slot mapped virt') (slot opened virt) miss) refl in
        let present : mapped.directory (pd_idx virt') % 2 ≡ 1 =
          ap (λ n. n % 2) entry ∙ is_opened.present in
        get_phys_addr-translate mapped virt'
        ∙ ap (λ w. translate (mapped.directory (pd_idx virt')) w virt') page
        ∙ elim (Bool-cases (is_present (s.directory (pd_idx virt)))) [
          | inl old ↦
              let here : s.directory (pd_idx virt) % 2 ≡ 1 =
                ==→eq (s.directory (pd_idx virt) % 2) 1 old in
              let here' : s.directory (pd_idx virt') % 2 ≡ 1 =
                ap (λ x. s.directory x % 2) dir ∙ here in
              let kept = is_opened.old here in
              let back = ap s.directory dir in
              let at : slot mapped virt' ≡ slot s virt' = omega (arith, entry) in
              translate-entry (mapped.directory (pd_idx virt')) (s.directory (pd_idx virt'))
                (opened.words (slot mapped virt')) virt' present here'
              ∙ ap (λ w. translate (s.directory (pd_idx virt')) w virt')
                  (is_opened.old_words here (slot mapped virt') ∙ ap s.words at)
              ∙ sym (get_phys_addr-translate s virt')
          | inr new ↦
              let here : s.directory (pd_idx virt) % 2 ≢ 1 = λ z. absurd (ground arith) in
              let here' : s.directory (pd_idx virt') % 2 ≢ 1 =
                λ z. here (ap (λ x. s.directory x % 2) (sym dir) ∙ z) in
              let page_start = (ops.alloc_frame s.frames).0 in
              let made = is_opened.new here in
              let aligned = f.aligned in
              let at : slot mapped virt' ≡ page_start + 4 * pt_idx virt' = omega (arith, entry) in
              let zero_word : opened.words (slot mapped virt') ≡ 0 =
                is_opened.new_words here (slot mapped virt')
                ∙ ap (zero_words 1024 page_start s.words) at
                ∙ zero_words-in 1024 page_start s.words (pt_idx virt') (omega arith) in
              translate-hole (mapped.directory (pd_idx virt')) (opened.words (slot mapped virt'))
                virt' present (λ z. absurd (omega (arith, zero_word, z)))
              ∙ sym (
                  translate-absent (s.directory (pd_idx virt')) (s.words (slot s virt')) virt'
                    here')
              ∙ sym (get_phys_addr-translate s virt')
        ]

    through_other :
        (virt' : ℕ)
        → virt' < 2 ^ 32
        → pd_idx virt' ≢ pd_idx virt
        → get_phys_addr virt' mapped ≡ get_phys_addr virt' s
    through_other virt' small' ne =
        let entry : mapped.directory (pd_idx virt') ≡ s.directory (pd_idx virt') =
          mapped-directory (pd_idx virt') ∙ is_opened.others (pd_idx virt') ne in
        let start =
          get_phys_addr-translate mapped virt'
          ∙ ap (λ e. translate e (mapped.words (slot mapped virt')) virt') entry in
        elim (Bool-cases (is_present (s.directory (pd_idx virt')))) [
          | inr gone ↦
              let absent : s.directory (pd_idx virt') % 2 ≢ 1 = λ z. absurd (ground arith) in
              start
              ∙ translate-absent (s.directory (pd_idx virt')) (mapped.words (slot mapped virt'))
                  virt' absent
              ∙ sym (
                  translate-absent (s.directory (pd_idx virt')) (s.words (slot s virt')) virt'
                    absent)
              ∙ sym (get_phys_addr-translate s virt')
          | inl there ↦
              let present : s.directory (pd_idx virt') % 2 ≡ 1 =
                ==→eq (s.directory (pd_idx virt') % 2) 1 there in
              let (miss, kept) = other_table virt' small' ne present in
              let at : slot mapped virt' ≡ slot s virt' =
                ap (λ e. page_of e + 4 * pt_idx virt') entry in
              start
              ∙ ap (λ w. translate (s.directory (pd_idx virt')) w virt')
                  (ap mapped.words at
                    ∙ mapped-words (slot s virt')
                    ∙ rw (ne→== (slot s virt') (slot opened virt) miss) kept)
              ∙ sym (get_phys_addr-translate s virt')
        ]

    mapped-IsPaged : IsPaged mapped
    mapped-IsPaged = record {
      apart = λ x y lx ly ne px py. elim (Bool-cases (x == pd_idx virt)) [
        | inl ex ↦
            let isx = ==→eq x (pd_idx virt) ex in
            let other : y ≢ pd_idx virt = λ z. ne (isx ∙ sym z) in
            let ey = mapped-directory y ∙ is_opened.others y other in
            let ey2 = ap (λ n. n / 4096) ey in
            let py2 = ap (λ n. n % 2) ey in
            let exx = ap (λ z. mapped.directory z / 4096) isx in
            λ z. new_apart y ly other (sym py2 ∙ py) (sym exx ∙ z ∙ ey2)
        | inr nx ↦
            let othx : x ≢ pd_idx virt = λ z. absurd (ground (arith, nx, z)) in
            let ex = mapped-directory x ∙ is_opened.others x othx in
            let ex2 = ap (λ n. n / 4096) ex in
            let px2 = ap (λ n. n % 2) ex in
            elim (Bool-cases (y == pd_idx virt)) [
              | inl ey ↦
                  let isy = ==→eq y (pd_idx virt) ey in
                  let eyy = ap (λ z. mapped.directory z / 4096) isy in
                  λ z. new_apart x lx othx (sym px2 ∙ px) (sym (sym ex2 ∙ z ∙ eyy))
              | inr ny ↦
                  let othy : y ≢ pd_idx virt = λ z. absurd (ground (arith, ny, z)) in
                  let ey = mapped-directory y ∙ is_opened.others y othy in
                  λ z.
                    paged.apart x y lx ly ne (sym px2 ∙ px) (sym (ap (λ n. n % 2) ey) ∙ py)
                      (sym ex2 ∙ z ∙ ap (λ n. n / 4096) ey)
            ]
      ];
    }
      where
        -- The table of `virt` is none of the other ones.
        new_apart :
            (y : ℕ)
            → y < 1024
            → y ≢ pd_idx virt
            → s.directory y % 2 ≡ 1
            → mapped.directory (pd_idx virt) / 4096 ≢ s.directory y / 4096
        new_apart y ly ne py = elim (Bool-cases (is_present (s.directory (pd_idx virt)))) [
          | inl old ↦
              let here : s.directory (pd_idx virt) % 2 ≡ 1 =
                ==→eq (s.directory (pd_idx virt) % 2) 1 old in
              let same = ap (λ n. n / 4096) (mapped-directory (pd_idx virt)) ∙ is_opened.old here in
              λ z.
                paged.apart (pd_idx virt) y (omega arith) ly (λ e. ne (sym e)) here py
                  (sym same ∙ z)
          | inr new ↦
              let here : s.directory (pd_idx virt) % 2 ≢ 1 = λ z. absurd (ground arith) in
              let same = ap (λ n. n / 4096) (mapped-directory (pd_idx virt)) ∙ is_opened.new here in
              λ z. f.fresh y ly py (sym z ∙ same)
        ]

-- For 32-bit addresses, where different entries of the directory name different tables: after
-- `vmm_map_page`, with flags below 4096 and a frame for a new page table that begins a page and is none of
-- the others, `vmm_get_phys_addr` gives for the addresses of the page the page of `phys`, with the offset,
-- and for every other address what it gave before.
pub map_page_lem :
    {V : Type 0} (ops : Frames V) (s : Vmm V) (virt phys flags virt' : ℕ)
    → flags < 4096
    → virt < 2 ^ 32
    → virt' < 2 ^ 32
    → IsPaged s
    → IsFresh ops s
    → get_phys_addr virt' (map_page ops virt phys flags s) ≡ (
        if virt' / 4096 == virt / 4096
        then phys / 4096 * 4096 + virt' % 4096
        else get_phys_addr virt' s)
map_page_lem ops s virt phys flags virt' lf small small' paged f =
    elim (Bool-cases (virt' / 4096 == virt / 4096)) [
      | inl same ↦
          map_page-same ops s virt phys flags lf small virt'
            (==→eq (virt' / 4096) (virt / 4096) same)
          ∙ rw same refl
      | inr other ↦
          let ne : virt' / 4096 ≢ virt / 4096 = λ z. absurd (ground arith) in
          elim (Bool-cases (pd_idx virt' == pd_idx virt)) [
            | inl d ↦
                let dir = ==→eq (pd_idx virt') (pd_idx virt) d in
                same_table ops s virt phys flags lf small paged f virt' dir
                  (λ e. ne (omega (arith, dir, e)))
                ∙ rw other refl
            | inr d ↦
                through_other ops s virt phys flags lf small paged f virt' small'
                  (λ e. absurd (ground (arith, d, e)))
                ∙ rw other refl
          ]
    ]

-- `vmm_map_page` keeps the page tables of different entries of the directory apart, under the same
-- conditions.
pub map_page-IsPaged :
    {V : Type 0} (ops : Frames V) (s : Vmm V) (virt phys flags : ℕ)
    → flags < 4096
    → virt < 2 ^ 32
    → IsPaged s
    → IsFresh ops s
    → IsPaged (map_page ops virt phys flags s)
map_page-IsPaged ops s virt phys flags lf small paged f =
    mapped-IsPaged ops s virt phys flags lf small paged f
