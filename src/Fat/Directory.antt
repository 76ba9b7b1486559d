-- ===== src/Fat/Directory.antt =====
-- The search for a name in the entries of a sector, in src/kernel/fat.cpp.
use trieternal_x_os.Base.{
  ◌≢◌, ℕ, zero, suc, ◌+◌, ◌≤◌, ◌<◌, ◌≡◌, ◌⊎◌, inl, inr, refl, ◌∙◌, ap, true, false, none, some,
  arith, ◌==◌, Bool-cases, ==→eq,
}
use trieternal_x_os.Fat.{entry_at, fat_name_match, is_deleted, is_end, match_from, scan_entries}

-- The entry is in use and has the name, byte by byte.
pub record IsNamed (entry name : ℕ → ℕ) : Type 0 where
  pub used : is_deleted entry ≡ false
  pub same : (i : ℕ) → i < 11 → entry i ≡ name i

-- What the search passes over: a deleted entry, or one with another name.
pub record IsPassed (entry name : ℕ → ℕ) : Type 0 where
  pub more : is_end entry ≡ false
  pub other : (is_deleted entry ≡ true) ⊎ ((i : ℕ) × (i < 11) × (entry i ≢ name i))

match_from-true :
    (n i : ℕ) (a b : ℕ → ℕ) → ((j : ℕ) → i ≤ j → j < i + n → a j ≡ b j) → match_from n i a b ≡ true
unfolding match_from
match_from-true zero i a b same = refl
match_from-true (suc n) i a b same =
    let rest = match_from-true n (i + 1) a b (λ j low high. same j (omega arith) (omega arith)) in
    ground (arith, same i, rest)

match_from-same :
    (n i : ℕ) (a b : ℕ → ℕ) → match_from n i a b ≡ true → (j : ℕ) → i ≤ j → j < i + n → a j ≡ b j
unfolding match_from
match_from-same zero i a b e j low high = absurd (omega arith)
match_from-same (suc n) i a b e j low high = elim (Bool-cases (a i == b i)) [
  | inr differ ↦ absurd (ground arith)
  | inl same ↦ elim (Bool-cases (j == i)) [
    | inl here ↦ let at = ==→eq j i here in rw at (==→eq (a i) (b i) same)
    | inr later ↦ match_from-same n (i + 1) a b (ground arith) j (ground arith) (omega arith)
  ]
]

match_from-differs :
    (n i : ℕ) (a b : ℕ → ℕ) → match_from n i a b ≡ false → (j : ℕ) × (j < i + n) × (a j ≢ b j)
unfolding match_from
match_from-differs zero i a b e = absurd (cc e)
match_from-differs (suc n) i a b e = elim (Bool-cases (a i == b i)) [
  | inr differ ↦ (i, omega arith, ground arith)
  | inl same ↦
      let (j, lt, ne) = match_from-differs n (i + 1) a b (ground arith) in (j, omega arith, ne)
]

fat_name_match-false :
    (entry name : ℕ → ℕ) (i : ℕ) → i < 11 → entry i ≢ name i → fat_name_match entry name ≡ false
unfolding fat_name_match
fat_name_match-false entry name i lt ne = elim (Bool-cases (fat_name_match entry name)) [
  | inl m ↦ absurd (ne (match_from-same 11 0 entry name m i (omega arith) lt))
  | inr m ↦ m
]

fat_name_match-differs :
    (entry name : ℕ → ℕ)
    → fat_name_match entry name ≡ false
    → (i : ℕ) × (i < 11) × (entry i ≢ name i)
unfolding fat_name_match
fat_name_match-differs entry name m =
    let (i, lt, ne) = match_from-differs 11 0 entry name m in (i, omega arith, ne)

IsPassed-cases :
    (entry name : ℕ → ℕ)
    → (is_end entry ≡ true)
      ⊎ (IsPassed entry name
          ⊎ ((is_end entry ≡ false)
              × (is_deleted entry ≡ false)
              × (fat_name_match entry name ≡ true)))
IsPassed-cases entry name = elim (Bool-cases (is_end entry)) [
  | inl e ↦ inl e
  | inr live ↦ inr (elim (Bool-cases (is_deleted entry)) [
    | inl d ↦ inl (record { more = live; other = inl d })
    | inr used ↦ elim (Bool-cases (fat_name_match entry name)) [
      | inl m ↦ inr (live, used, m)
      | inr m ↦ inl (record { more = live; other = inr (fat_name_match-differs entry name m) })
    ]
  ])
]

scan_entries-passed :
    (n i : ℕ) (sector name : ℕ → ℕ)
    → IsPassed (entry_at sector i) name
    → scan_entries (suc n) i sector name ≡ scan_entries n (i + 1) sector name
unfolding scan_entries
scan_entries-passed n i sector name p = elim p.other [
  | inl d ↦ ground (arith, p.more)
  | inr (j, lt, ne) ↦
      let m = fat_name_match-false (entry_at sector i) name j lt ne in ground (arith, p.more)
]

-- The first `k` entries from the entry `i` on are passed over.
abbrev pub Passes : (ℕ → ℕ) → (ℕ → ℕ) → ℕ → ℕ → Type 0
Passes sector name i k = (j : ℕ) → j < k → IsPassed (entry_at sector (i + j)) name

Passes-suc :
    (sector name : ℕ → ℕ) (i k : ℕ)
    → IsPassed (entry_at sector i) name
    → Passes sector name (i + 1) k
    → Passes sector name i (suc k)
Passes-suc sector name i k first rest zero lt = let e : i + 0 ≡ i = omega arith in rw e first
Passes-suc sector name i k first rest (suc j) lt =
    let e : i + suc j ≡ i + 1 + j = omega arith in rw e (rest j (omega arith))

-- The search in a sector gives its first entry in use with the name, if no end marker stands before it, or nothing,
-- just where all entries before the end marker, or all `n`, are deleted or have other names.
pub scan_entries_lem :
    (n i : ℕ) (sector name : ℕ → ℕ)
    → ((k : ℕ) × (k < n)
        × Passes sector name i k
        × IsNamed (entry_at sector (i + k)) name
        × (scan_entries n i sector name ≡ some (entry_at sector (i + k))))
      ⊎ ((k : ℕ) × (k ≤ n)
          × Passes sector name i k
          × ((k ≡ n) ⊎ (is_end (entry_at sector (i + k)) ≡ true))
          × (scan_entries n i sector name ≡ none))
unfolding scan_entries fat_name_match
scan_entries_lem zero i sector name =
    inr (0, omega arith, λ j lt. absurd (omega arith), inl refl, refl)
scan_entries_lem (suc n) i sector name = elim (IsPassed-cases (entry_at sector i) name) [
  | inl e ↦
      let at : i + 0 ≡ i = omega arith in
      inr (0, omega arith, λ j lt. absurd (omega arith), inr (rw at e), ground (arith, e))
  | inr (inr (live, used, m)) ↦
      let at : i + 0 ≡ i = omega arith in
      inl (
        0,
        omega arith,
        λ j lt. absurd (omega arith),
        rw at (record {
          used = used;
          same = λ j lt. match_from-same 11 0 (entry_at sector i) name m j (omega arith) lt;
        }),
        rw at (ground (arith, live, used, m)),
      )
  | inr (inl p) ↦
      let step = scan_entries-passed n i sector name p in
      elim (scan_entries_lem n (i + 1) sector name) [
        | inl (k, lt, passes, named, e) ↦
            let at : i + suc k ≡ i + 1 + k = omega arith in
            inl (
              suc k,
              omega arith,
              Passes-suc sector name i k p passes,
              rw at named,
              rw at (step ∙ e),
            )
        | inr (k, le, passes, why, e) ↦
            let at : i + suc k ≡ i + 1 + k = omega arith in
            inr (
              suc k,
              omega arith,
              Passes-suc sector name i k p passes,
              rw at (elim why [ inl all ↦ inl (ap suc all) | inr end ↦ inr end ]),
              step ∙ e,
            )
      ]
]
