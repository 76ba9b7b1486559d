-- ===== src/Elf.antt =====
-- The program loader, src/kernel/elf.cpp. Memory is seen through the page tables: its bytes are read and
-- written by the operations of `Machine`, over their state `V`. `file` (`data`) and `phdr` are addresses, and the
-- fields of a header are read from the memory as it is at that time.
mod Range
mod Headers
mod Examples
use trieternal_x_os.Base.{
  ℕ, zero, suc, ◌+◌, ◌-◌, ◌*◌, ◌/◌, ◌%◌, ◌^◌, Bool, true, false, not, ◌&&◌, ◌||◌, Option, none,
  some, List, ltb, leb, ◌==◌, if◌then◌else◌,
}
use trieternal_x_os.Base.Words.{add32, sub32, mul32}

-- What the loader asks of memory, the frame allocator and the page tables.
pub record Machine (V : Type 0) : Type 0 where
  pub load : V → ℕ → ℕ
  pub store : ℕ → ℕ → V → V
  pub alloc_frame : V → ℕ × V
  pub map_page : ℕ → ℕ → ℕ → V → V

-- What it asks of the disk file system and of the heap.
pub record Disk (V : Type 0) : Type 0 where
  pub is_active : V → Bool
  pub get_file_size : List ℕ → V → ℕ
  pub read_file : List ℕ → ℕ → ℕ → V → Bool × V
  pub kmalloc : ℕ → V → ℕ × V
  pub kfree : ℕ → V → V

pub record LoadResult : Type 0 where
  pub entry_point : ℕ
  pub load_base : ℕ
  pub load_size : ℕ
  pub success : Bool

abbrev pub failed : LoadResult
failed = record { entry_point = 0; load_base = 0; load_size = 0; success = false }

abbrev pub null : ℕ
null = 0

-- `sizeof(ELF32_Ehdr)` and `sizeof(ELF32_Phdr)`
abbrev pub ehdr_size : ℕ
ehdr_size = 52

abbrev pub phdr_size : ℕ
phdr_size = 32

module _ {V : Type 0} (ops : Machine V) where
  -- A field of two bytes, and one of four.
  abbrev pub half_at : V → ℕ → ℕ
  half_at v a = ops.load v a + 256 * ops.load v (add32 a 1)

  abbrev pub word_at : V → ℕ → ℕ
  word_at v a = half_at v a + 2 ^ 16 * half_at v (add32 a 2)

  abbrev pub p_type : V → ℕ → ℕ
  p_type v phdr = word_at v phdr

  abbrev pub p_offset : V → ℕ → ℕ
  p_offset v phdr = word_at v (add32 phdr 4)

  abbrev pub p_vaddr : V → ℕ → ℕ
  p_vaddr v phdr = word_at v (add32 phdr 8)

  abbrev pub p_filesz : V → ℕ → ℕ
  p_filesz v phdr = word_at v (add32 phdr 16)

  abbrev pub p_memsz : V → ℕ → ℕ
  p_memsz v phdr = word_at v (add32 phdr 20)

  abbrev pub is_load : V → ℕ → Bool
  is_load v phdr = p_type v phdr == 1

  unfoldable pub validate : V → ℕ → Bool
  validate v hdr =
      ops.load v hdr == 0x7F
      && ops.load v (add32 hdr 1) == b'E'
      && ops.load v (add32 hdr 2) == b'L'
      && ops.load v (add32 hdr 3) == b'F'
      && ops.load v (add32 hdr 4) == 1
      && ops.load v (add32 hdr 5) == 1
      && half_at v (add32 hdr 16) == 2
      && half_at v (add32 hdr 18) == 3

  -- `off`, for the program header `i`.
  abbrev pub header_offset : V → ℕ → ℕ → ℕ
  header_offset v file i = add32 (word_at v (add32 file 28)) (mul32 i (half_at v (add32 file 42)))

  -- The first pass, from the header `i` on: the lowest and the highest address, or `none` for a header
  -- behind the end of the file.
  unfoldable pub scan : ℕ → ℕ → V → ℕ → ℕ → ℕ → ℕ → Option (ℕ × ℕ)
  scan zero i v file size lowest highest = some (lowest, highest)
  scan (suc n) i v file size lowest highest =
      let off = header_offset v file i in
      let phdr = add32 file off in
      let end = add32 (p_vaddr v phdr) (p_memsz v phdr) in
      elim (ltb size (add32 off phdr_size)) [
        | true ↦ none
        | false ↦ elim (is_load v phdr) [
          | false ↦ scan n (i + 1) v file size lowest highest
          | true ↦
              scan n (i + 1) v file size
                (if ltb (p_vaddr v phdr) lowest then p_vaddr v phdr else lowest)
                (if ltb highest end then end else highest)
        ]
      ]

  unfoldable pub store_zeros : ℕ → ℕ → ℕ → V → V
  store_zeros zero b at v = v
  store_zeros (suc n) b at v = store_zeros n (b + 1) at (ops.store (add32 at b) 0 v)

  unfoldable pub copy_bytes : ℕ → ℕ → ℕ → ℕ → V → V
  copy_bytes zero b src dest v = v
  copy_bytes (suc n) b src dest v =
      copy_bytes n (b + 1) src dest (ops.store (add32 dest b) (ops.load v (add32 src b)) v)

  -- The loop that makes the pages of a segment: `false` where no frame is left. `flags` is 7 already, so
  -- that `PF_X` adds nothing.
  unfoldable pub map_segment : ℕ → ℕ → ℕ → V → Option (Bool × V)
  unfolding store_zeros
  map_segment zero page_off phdr v = none
  map_segment (suc fuel) page_off phdr v = elim (ltb page_off (p_memsz v phdr)) [
    | false ↦ some (true, v)
    | true ↦
        let virt = add32 (p_vaddr v phdr) page_off / 4096 * 4096 in
        let (phys, v1) = ops.alloc_frame v in
        elim (phys == null) [
          | true ↦ some (false, v1)
          | false ↦
              map_segment fuel (add32 page_off 4096) phdr
                (ops.map_page virt phys 7 (store_zeros 4096 0 phys v1))
        ]
  ]

  -- The content of a segment, and the zeros behind it.
  unfoldable pub fill_segment : ℕ → ℕ → ℕ → V → V
  unfolding copy_bytes store_zeros
  fill_segment file size phdr v =
      let dest = p_vaddr v phdr in
      let copy_filesz =
        if ltb (p_memsz v phdr) (p_filesz v phdr) then p_memsz v phdr else p_filesz v phdr in
      let v1 =
        if ltb 0 copy_filesz && leb (add32 (p_offset v phdr) copy_filesz) size
        then copy_bytes copy_filesz 0 (add32 file (p_offset v phdr)) dest v
        else v in
      let remaining = sub32 (p_memsz v1 phdr) (p_filesz v1 phdr) in
      store_zeros remaining 0 (add32 dest (p_filesz v1 phdr)) v1

  -- The second pass.
  unfoldable pub load_segments : ℕ → ℕ → ℕ → ℕ → ℕ → ℕ → ℕ → V → Option (Bool × V)
  load_segments fuel zero i ph_offset ph_entsize file size v = some (true, v)
  load_segments fuel (suc n) i ph_offset ph_entsize file size v =
      let phdr = add32 file (add32 ph_offset (mul32 i ph_entsize)) in
      elim (is_load v phdr) [
        | false ↦ load_segments fuel n (i + 1) ph_offset ph_entsize file size v
        | true ↦ elim (map_segment fuel 0 phdr v) [
          | none ↦ none
          | some (false, v1) ↦ some (false, v1)
          | some (true, v1) ↦
              load_segments fuel n (i + 1) ph_offset ph_entsize file size
                (fill_segment file size phdr v1)
        ]
      ]

  unfoldable pub load_from_memory : ℕ → ℕ → ℕ → V → Option (LoadResult × V)
  load_from_memory fuel file size v =
      let entry = word_at v (add32 file 24) in
      let count = half_at v (add32 file 44) in
      if ltb size ehdr_size || not (validate v file)
      then some (failed, v)
      else elim (scan count 0 v file size 0xFFFFFFFF 0) [
        | none ↦ some (failed, v)
        | some (lowest, highest) ↦ elim (leb highest lowest) [
          | true ↦ some (failed, v)
          | false ↦
              elim (load_segments fuel count 0 (word_at v (add32 file 28))
                (half_at v (add32 file 42)) file size v) [
                  | none ↦ none
                  | some (false, v1) ↦ some (failed, v1)
                  | some (true, v1) ↦ some (
                    record {
                      entry_point = entry;
                      load_base = lowest;
                      load_size = highest - lowest;
                      success = true;
                    },
                    v1,
                  )
                ]
        ]
      ]

  unfoldable pub load_from_disk : Disk V → ℕ → List ℕ → V → Option (LoadResult × V)
  load_from_disk disk fuel filename v =
      let file_size = disk.get_file_size filename v in
      let (buf, v1) = disk.kmalloc file_size v in
      let (ok, v2) = disk.read_file filename buf file_size v1 in
      if not (disk.is_active v) || file_size == 0
      then some (failed, v)
      else if buf == null
      then some (failed, v1)
      else if not ok
      then some (failed, disk.kfree buf v2)
      else elim (load_from_memory fuel buf file_size v2) [
        | none ↦ none
        | some (result, v3) ↦ some (result, disk.kfree buf v3)
      ]
