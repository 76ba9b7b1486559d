-- ===== src/Vmm/Tables.antt =====
-- Opening a page table in src/kernel/vmm.cpp.
use trieternal_x_os.Base.{
  ℕ, zero, suc, ◌+◌, ◌*◌, ◌/◌, ◌%◌, ◌≤◌, ◌<◌, bit_or, ◌≡◌, ◌≢◌, ◌⊎◌, inl, inr, refl, ◌∙◌, arith,
  ◌==◌, ==→eq, Bool-cases,
}
use trieternal_x_os.Base.Masks.{bit_or-page, bit_or-odd}
use trieternal_x_os.Vmm.{Frames, Vmm, is_present, pd_idx, zero_words, open_table}

pub zero_words-in :
    (n pt : ℕ) (words : ℕ → ℕ) (k : ℕ) → k < n → zero_words n pt words (pt + 4 * k) ≡ 0
unfolding zero_words
zero_words-in zero pt words k lt = absurd (omega arith)
zero_words-in (suc n) pt words k lt = elim (Bool-cases (k == n)) [
  | inl last ↦ let e = ==→eq k n last in rw e (ground arith)
  | inr before ↦ ground (arith, zero_words-in n pt words k)
]

pub zero_words-out :
    (n pt : ℕ) (words : ℕ → ℕ) (a : ℕ)
    → ((a < pt) ⊎ (pt + 4 * n ≤ a))
    → zero_words n pt words a ≡ words a
unfolding zero_words
zero_words-out zero pt words a out = refl
zero_words-out (suc n) pt words a out = ground (arith, zero_words-out n pt words a)

-- An entry of a directory or a table.
abbrev pub entry_of : ℕ → ℕ → ℕ
entry_of page flags = bit_or (bit_or page flags) 1

pub entry_of-page : (page flags : ℕ) → flags < 4096 → entry_of page flags / 4096 ≡ page / 4096
entry_of-page page flags lf =
    bit_or-page (bit_or page flags) 1 (omega arith) ∙ bit_or-page page flags lf

pub entry_of-present : (page flags : ℕ) → entry_of page flags % 2 ≡ 1
entry_of-present page flags = omega (arith, bit_or-odd (bit_or page flags) 1)

-- Different entries of the directory that are present name different page tables.
pub record IsPaged {V : Type 0} (s : Vmm V) : Type 0 where
  pub apart :
      (x y : ℕ)
      → x < 1024
      → y < 1024
      → x ≢ y
      → s.directory x % 2 ≡ 1
      → s.directory y % 2 ≡ 1
      → s.directory x / 4096 ≢ s.directory y / 4096

-- The next frame begins a page, and is no page table.
pub record IsFresh {V : Type 0} (ops : Frames V) (s : Vmm V) : Type 0 where
  pub aligned : (ops.alloc_frame s.frames).0 % 4096 ≡ 0
  pub fresh :
      (x : ℕ)
      → x < 1024
      → s.directory x % 2 ≡ 1
      → s.directory x / 4096 ≢ (ops.alloc_frame s.frames).0 / 4096

-- What `open_table` comes to, for the table at `d`.
pub record IsOpened {V : Type 0} (ops : Frames V) (d : ℕ) (s out : Vmm V) : Type 0 where
  pub present : out.directory d % 2 ≡ 1
  pub others : (x : ℕ) → x ≢ d → out.directory x ≡ s.directory x
  pub old : s.directory d % 2 ≡ 1 → out.directory d / 4096 ≡ s.directory d / 4096
  pub old_words : s.directory d % 2 ≡ 1 → (a : ℕ) → out.words a ≡ s.words a
  pub new : s.directory d % 2 ≢ 1 → out.directory d / 4096 ≡ (ops.alloc_frame s.frames).0 / 4096
  pub new_words :
      s.directory d % 2 ≢ 1
      → (a : ℕ) → out.words a ≡ zero_words 1024 (ops.alloc_frame s.frames).0 s.words a

pub open_table_lem :
    {V : Type 0} (ops : Frames V) (virt flags : ℕ) (s : Vmm V)
    → flags < 4096
    → IsOpened ops (pd_idx virt) s (open_table ops virt flags s)
unfolding open_table
open_table_lem ops virt flags s lf =
    let d = pd_idx virt in
    let page = (ops.alloc_frame s.frames).0 in
    elim (Bool-cases (is_present (s.directory d))) [
      | inl there ↦ record {
        present = rw there (ground (arith, bit_or-odd (s.directory d) flags));
        others = λ x ne. rw there (ground arith);
        old = λ p. rw there (ground (arith, bit_or-page (s.directory d) flags lf));
        old_words = λ p a. rw there refl;
        new = λ p. absurd (ground arith);
        new_words = λ p a. absurd (ground arith);
      }
      | inr gone ↦ record {
        present = rw gone (ground (arith, entry_of-present page flags));
        others = λ x ne. rw gone (ground arith);
        old = λ p. absurd (ground arith);
        old_words = λ p a. absurd (ground arith);
        new = λ p. rw gone (ground (arith, entry_of-page page flags lf));
        new_words = λ p a. rw gone refl;
      }
    ]
