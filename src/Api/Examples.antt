-- ===== src/Api/Examples.antt =====
-- The theorems about src/kernel/api.cpp at concrete inputs, and test runs.
use trieternal_x_os.Base.{
  ℕ, suc, ◌+◌, ◌*◌, ◌≤◌, ◌<◌, ◌≡◌, refl, true, ◌&&◌, none, some, arith, ltb, ◌==◌, if◌then◌else◌,
  find_from, Bool-cases, inl, inr,
}
use trieternal_x_os.Base.Text.{codes, same_text}
use trieternal_x_os.Fs.{Allocator, Fs, is_used, find_node}
use trieternal_x_os.Fs.Tree.{IsTree}
use trieternal_x_os.Api.{read_file, write_file_legacy, cell, draw_columns, draw_rows, draw_rect}
use trieternal_x_os.Api.Files.{read_file-write_file_legacy}
use trieternal_x_os.Api.Rect.{is_within, draw_rect_lem}

-- Blocks 1000, 1001 and so on.
abbrev bump : Allocator ℕ
bump = record { kmalloc = λ size n. (n, suc n); kfree = λ block n. n }

-- A root and a file in it.
abbrev small : Fs ℕ
small = record {
  nodes = λ i.
      if i == 0
      then record {
        name = codes "/";
        path = codes "/";
        flags = 5;
        size = 0;
        block = 0;
        parent_idx = none;
        first_child = some 1;
        next_sibling = none;
      }
      else record {
        name = codes "a";
        path = codes "/a";
        flags = if i == 1 then 6 else 0;
        size = 2;
        block = 500;
        parent_idx = some 0;
        first_child = none;
        next_sibling = none;
      };
  vfs_count = 2;
  blocks = λ p j. 65;
  heap = 1000;
}

small-IsTree : IsTree small
small-IsTree = record {
  some_node = omega arith;
  fits = omega arith;
  used = λ i lt. used_lem i;
  parent = λ i p lt e. ground arith;
  child = λ i c lt e. ground arith;
  sibling = λ i s lt e. ground arith;
}
  where
    used_lem : (i : ℕ) → is_used (small.nodes i) ≡ ltb i 2
    used_lem i = elim (Bool-cases (i == 0)) [
      | inl e ↦ rw e (ground arith)
      | inr e ↦ elim (Bool-cases (i == 1)) [
        | inl one ↦ rw (e, one) (ground arith)
        | inr more ↦ rw (e, more) (ground arith)
      ]
    ]

small_a : find_node small (codes "/a") ≡ some 1
unfolding find_node find_from same_text
small_a = refl

read_file-write_file_legacy_example :
    ((write_file_legacy bump (codes "/a") (codes "new") small).0 ≡ true)
    × (read_file (write_file_legacy bump (codes "/a") (codes "new") small).1 (codes "/a")
        ≡ read_file small (codes "/a"))
read_file-write_file_legacy_example =
    read_file-write_file_legacy bump (codes "/a") (codes "new") small {k = 1} small-IsTree
      (omega arith) small_a

-- Three columns left of the screen and two lines above it.
draw_rect_lem_example :
    ((row column : ℕ)
      → row < 25
      → column < 80
      → draw_rect 4294967293 4294967294 10 5 32 7 (λ j. 0) (row * 80 + column)
        ≡ (if is_within row 4294967294 5 && is_within column 4294967293 10 then cell 32 7 else 0))
    × ((j : ℕ) → 2000 ≤ j → draw_rect 4294967293 4294967294 10 5 32 7 (λ j. 0) j ≡ 0)
draw_rect_lem_example =
    draw_rect_lem 4294967293 4294967294 10 5 32 7 (λ j. 0) (omega arith, omega arith, omega arith)
      (omega arith, omega arith, omega arith)

corner : draw_rect 4294967293 4294967294 10 5 32 7 (λ j. 0) 166 ≡ 1824
unfolding draw_rect draw_rows draw_columns cell
corner = refl

beside : draw_rect 4294967293 4294967294 10 5 32 7 (λ j. 0) 167 ≡ 0
unfolding draw_rect draw_rows draw_columns cell
beside = refl
