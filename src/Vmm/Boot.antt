-- ===== src/Vmm/Boot.antt =====
-- `vmm_init` of src/kernel/vmm.cpp: the first 128 MB at their own addresses, then the framebuffer.
use trieternal_x_os.Base.{
  ℕ, zero, suc, ◌+◌, ◌*◌, ◌/◌, ◌%◌, ◌^◌, ◌≤◌, ◌<◌, bit_or, ◌≡◌, ◌⊎◌, inl, inr, refl, ◌∙◌, ap, true,
  false, not, ◌&&◌, Option, none, some, arith, ltb, ◌==◌, ==→eq, if◌then◌else◌, Bool-cases, update,
}
use trieternal_x_os.Base.Words.{add32, mul32}
use trieternal_x_os.Base.Masks.{bit_or-page, bit_or-odd}
use trieternal_x_os.Vmm.{Frames, Framebuffer, Vmm, Places, pd_idx, pt_idx, map_page, get_phys_addr}
use trieternal_x_os.Vmm.Entries.{slot, get_phys_addr-translate, translate-absent, translate-page}
use trieternal_x_os.Vmm.Tables.{IsPaged}

-- The inner loop for the table `t`, at the address `tables`.
unfoldable pub fill_table : ℕ → ℕ → ℕ → (ℕ → ℕ) → ℕ → ℕ
fill_table zero t tables words = words
fill_table (suc p) t tables words =
    update (fill_table p t tables words) (tables + 4 * (t * 1024 + p))
      (bit_or ((t * 1024 + p) * 4096) 3)

module _ {V : Type 0} where
  unfoldable pub fill_tables : ℕ → ℕ → Vmm V → Vmm V
  unfolding fill_table
  fill_tables zero tables s = s
  fill_tables (suc t) tables s =
      let s1 = fill_tables t tables s in
      record s1 {
        words = fill_table 1024 t tables s1.words;
        directory = update s1.directory t (bit_or (tables + 4096 * t) 3);
      }

  -- The entries from 32 on.
  unfoldable pub clear_entries : ℕ → Vmm V → Vmm V
  clear_entries zero s = s
  clear_entries (suc n) s =
      let s1 = clear_entries n s in record s1 { directory = update s1.directory (32 + n) 0 }

  -- The loop over the framebuffer; the fuel bounds its rounds.
  unfoldable pub map_framebuffer : Frames V → ℕ → ℕ → ℕ → Vmm V → Option (Vmm V)
  map_framebuffer ops zero addr end s = none
  map_framebuffer ops (suc fuel) addr end s = elim (ltb addr end) [
    | false ↦ some s
    | true ↦ map_framebuffer ops fuel (add32 addr 4096) end (map_page ops addr addr 3 s)
  ]

  unfoldable pub identity : Places → Vmm V → Vmm V
  unfolding fill_tables clear_entries
  identity at s = clear_entries 992 (fill_tables 32 at.tables_at s)

  unfoldable pub init : Frames V → Places → ℕ → Option Framebuffer → Vmm V → Option (Vmm V)
  init ops at fuel none s = some (record (identity at s) { cr3 = at.directory_at })
  init ops at fuel (some fb) s =
      elim (map_framebuffer ops fuel fb.address (add32 fb.address (mul32 fb.height fb.pitch))
        (identity at s)) [ none ↦ none | some s1 ↦ some (record s1 { cr3 = at.directory_at }) ]

fill_table-in :
    (n t tables : ℕ) (words : ℕ → ℕ) (p : ℕ)
    → p < n
    → fill_table n t tables words (tables + 4 * (t * 1024 + p)) ≡ bit_or ((t * 1024 + p) * 4096) 3
unfolding fill_table
fill_table-in zero t tables words p lt = absurd (omega arith)
fill_table-in (suc n) t tables words p lt = elim (Bool-cases (p == n)) [
  | inl last ↦ let e = ==→eq p n last in rw e (ground arith)
  | inr before ↦ ground (arith, fill_table-in n t tables words p)
]

fill_table-out :
    (n t tables : ℕ) (words : ℕ → ℕ) (a : ℕ)
    → ((a < tables + 4096 * t) ⊎ (tables + 4 * (t * 1024 + n) ≤ a))
    → fill_table n t tables words a ≡ words a
unfolding fill_table
fill_table-out zero t tables words a out = refl
fill_table-out (suc n) t tables words a out = ground (arith, fill_table-out n t tables words a)

module _ {V : Type 0} (s : Vmm V) where
  fill_tables-words :
      (n tables t p : ℕ)
      → t < n
      → p < 1024
      → (fill_tables n tables s).words (tables + 4 * (t * 1024 + p))
        ≡ bit_or ((t * 1024 + p) * 4096) 3
  unfolding fill_tables
  fill_tables-words zero tables t p lt lp = absurd (omega arith)
  fill_tables-words (suc n) tables t p lt lp = elim (Bool-cases (t == n)) [
    | inl last ↦
        let e = ==→eq t n last in
        rw e (fill_table-in 1024 n tables (fill_tables n tables s).words p lp)
    | inr before ↦
        let lt' : t < n = ground arith in
        fill_table-out 1024 n tables (fill_tables n tables s).words (tables + 4 * (t * 1024 + p))
          (inl (omega arith))
        ∙ fill_tables-words n tables t p lt' lp
  ]

  fill_tables-directory :
      (n tables x : ℕ)
      → (fill_tables n tables s).directory x
        ≡ (if ltb x n then bit_or (tables + 4096 * x) 3 else s.directory x)
  unfolding fill_tables
  fill_tables-directory zero tables x = ground arith
  fill_tables-directory (suc n) tables x = elim (Bool-cases (x == n)) [
    | inl last ↦ let e = ==→eq x n last in rw e (ground arith)
    | inr before ↦ ground (arith, fill_tables-directory n tables x)
  ]

  clear_entries-directory :
      (n x : ℕ)
      → (clear_entries n s).directory x
        ≡ (if not (ltb x 32) && ltb x (32 + n) then 0 else s.directory x)
  unfolding clear_entries
  clear_entries-directory zero x = ground arith
  clear_entries-directory (suc n) x = ground (arith, clear_entries-directory n x)

  clear_entries-words : (n a : ℕ) → (clear_entries n s).words a ≡ s.words a
  unfolding clear_entries
  clear_entries-words zero a = refl
  clear_entries-words (suc n) a = clear_entries-words n a

-- The page of `virt` is mapped, at its own address.
pub record IsOwnPage {V : Type 0} (out : Vmm V) (virt : ℕ) : Type 0 where
  pub present : out.directory (pd_idx virt) % 2 ≡ 1
  pub mapped : out.words (slot out virt) % 2 ≡ 1
  pub same : get_phys_addr virt out ≡ virt

module _ {V : Type 0} (at : Places) (s : Vmm V) (aligned : at.tables_at % 4096 ≡ 0) where
  abbrev out : Vmm V
  out = identity at s

  out-directory :
      (x : ℕ)
      → x < 1024
      → out.directory x ≡ (if ltb x 32 then bit_or (at.tables_at + 4096 * x) 3 else 0)
  unfolding identity
  out-directory x lx =
      clear_entries-directory (fill_tables 32 at.tables_at s) 992 x
      ∙ ground (arith, fill_tables-directory s 32 at.tables_at x)

  out-words :
      (t p : ℕ)
      → t < 32
      → p < 1024
      → out.words (at.tables_at + 4 * (t * 1024 + p)) ≡ bit_or ((t * 1024 + p) * 4096) 3
  unfolding identity
  out-words t p lt lp =
      clear_entries-words (fill_tables 32 at.tables_at s) 992 (at.tables_at + 4 * (t * 1024 + p))
      ∙ fill_tables-words s 32 at.tables_at t p lt lp

  -- An entry of the directory: a table where it is present.
  out-table :
      (x : ℕ)
      → x < 1024
      → out.directory x % 2 ≡ 1
      → (x < 32) × (out.directory x / 4096 ≡ at.tables_at / 4096 + x)
  out-table x lx present =
      let e = out-directory x lx in
      elim (Bool-cases (ltb x 32)) [
        | inl low ↦
            let e' : out.directory x ≡ bit_or (at.tables_at + 4096 * x) 3 = e ∙ rw low refl in
            (
              ground arith,
              ap (λ n. n / 4096) e'
                  ∙ bit_or-page (at.tables_at + 4096 * x) 3 (omega arith)
                  ∙ omega arith,
            )
        | inr high ↦
            let e' : out.directory x ≡ 0 = e ∙ rw high refl in absurd (omega (arith, e', present))
      ]

  identity-IsPaged : IsPaged out
  identity-IsPaged = record {
    apart = λ x y lx ly ne px py.
        let a = out-table x lx px in
        let b = out-table y ly py in λ z. ne (omega (arith, a.1, b.1, z));
  }

  identity-low : (virt : ℕ) → virt < 128 * 1024 * 1024 → IsOwnPage out virt
  identity-low virt low =
      let entry : out.directory (pd_idx virt) ≡ bit_or (at.tables_at + 4096 * pd_idx virt) 3 =
        out-directory (pd_idx virt) (omega arith) ∙ ground arith in
      let page_at =
        ap (λ n. n / 4096) entry
        ∙ bit_or-page (at.tables_at + 4096 * pd_idx virt) 3 (omega arith) in
      let present : out.directory (pd_idx virt) % 2 ≡ 1 =
        ap (λ n. n % 2) entry ∙ omega (arith, bit_or-odd (at.tables_at + 4096 * pd_idx virt) 3) in
      let where_it_is : slot out virt ≡ at.tables_at + 4 * (pd_idx virt * 1024 + pt_idx virt) =
        omega (arith, page_at) in
      let page : out.words (slot out virt) ≡ bit_or ((pd_idx virt * 1024 + pt_idx virt) * 4096) 3 =
        ap out.words where_it_is
        ∙ out-words (pd_idx virt) (pt_idx virt) (omega arith) (omega arith) in
      let number =
        ap (λ n. n / 4096) page
        ∙ bit_or-page ((pd_idx virt * 1024 + pt_idx virt) * 4096) 3 (omega arith) in
      let in_use : out.words (slot out virt) % 2 ≡ 1 =
        ap (λ n. n % 2) page
        ∙ omega (arith, bit_or-odd ((pd_idx virt * 1024 + pt_idx virt) * 4096) 3) in
      record {
        present = present;
        mapped = in_use;
        same =
            get_phys_addr-translate out virt
            ∙ translate-page (out.directory (pd_idx virt)) (out.words (slot out virt)) virt present
                in_use
            ∙ omega (arith, number);
      }

  identity-high : (virt : ℕ) → virt < 2 ^ 32 → 128 * 1024 * 1024 ≤ virt → get_phys_addr virt out ≡ 0
  identity-high virt small high =
      let entry : out.directory (pd_idx virt) ≡ 0 =
        out-directory (pd_idx virt) (omega arith) ∙ ground arith in
      get_phys_addr-translate out virt
      ∙ translate-absent (out.directory (pd_idx virt)) (out.words (slot out virt)) virt
          (λ z. absurd (omega (arith, entry, z)))
      ∙ ground arith

-- The page tables at the start: below 128 MB every address is its own, and nothing else is mapped.
pub record IsIdentity {V : Type 0} (out : Vmm V) : Type 0 where
  pub paged : IsPaged out
  pub low : (virt : ℕ) → virt < 128 * 1024 * 1024 → IsOwnPage out virt
  pub high : (virt : ℕ) → virt < 2 ^ 32 → 128 * 1024 * 1024 ≤ virt → get_phys_addr virt out ≡ 0

switched :
    {V : Type 0} (s : Vmm V) (root virt : ℕ)
    → get_phys_addr virt (record s { cr3 = root }) ≡ get_phys_addr virt s
unfolding get_phys_addr
switched s root virt = refl

-- Without a framebuffer, and with the tables at the start of a page, `vmm_init` maps exactly the first
-- 128 MB, each page at its own address, through page tables that are apart.
pub init-IsIdentity :
    {V : Type 0} (ops : Frames V) (at : Places) (fuel : ℕ) (s : Vmm V)
    → at.tables_at % 4096 ≡ 0
    → (out : Vmm V) × (init ops at fuel none s ≡ some out) × IsIdentity out
unfolding init
init-IsIdentity ops at fuel s aligned = (
  record (identity at s) { cr3 = at.directory_at },
  refl,
  record {
    paged = record { apart = (identity-IsPaged at s aligned).apart };
    low = λ virt below.
        let w = identity-low at s aligned virt below in
        record {
          present = w.present;
          mapped = w.mapped;
          same = switched (identity at s) at.directory_at virt ∙ w.same;
        };
    high = λ virt small above.
        switched (identity at s) at.directory_at virt ∙ identity-high at s aligned virt small above;
  },
)
