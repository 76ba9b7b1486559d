-- ===== src/Vmm.antt =====
-- Virtual memory, src/kernel/vmm.cpp: the kernel's page directory and its page tables. `words a` is the
-- word at the physical address `a` of memory outside the directory; page tables are frames of it.
-- `x & 0xFFFFF000` is written `x / 4096 * 4096`, and `x & 1` is `x % 2`.
pub mod Tables
pub mod Entries
pub mod Translate
pub mod Unmap
pub mod Boot
mod Examples
use trieternal_x_os.Base.{
  ℕ, zero, suc, ◌+◌, ◌-◌, ◌*◌, ◌/◌, ◌%◌, ◌^◌, bit_or, Bool, true, false, not, ◌&&◌, Option, none,
  some, ltb, leb, ◌==◌, if◌then◌else◌, update,
}
use trieternal_x_os.Base.Words.{add32, mul32}

-- What the page tables ask of the frame allocator, over its state `V`.
pub record Frames (V : Type 0) : Type 0 where
  pub alloc_frame : V → ℕ × V
  pub free_frame : ℕ → V → V

-- The framebuffer, where the graphics driver has one.
pub record Framebuffer : Type 0 where
  pub address : ℕ
  pub height : ℕ
  pub pitch : ℕ

-- `kernel_page_directory`, the words of memory, the directory in use and the state of the frames.
pub record Vmm (V : Type 0) : Type 0 where
  pub directory : ℕ → ℕ
  pub words : ℕ → ℕ
  pub cr3 : ℕ
  pub frames : V

-- The addresses of `kernel_page_directory` and of `identity_page_tables`.
pub record Places : Type 0 where
  pub directory_at : ℕ
  pub tables_at : ℕ

abbrev pub null : ℕ
null = 0

-- `virt >> 22` and `(virt >> 12) & 0x3FF`
abbrev pub pd_idx : ℕ → ℕ
pd_idx virt = virt / 2 ^ 22

abbrev pub pt_idx : ℕ → ℕ
pt_idx virt = virt / 2 ^ 12 % 1024

abbrev pub is_present : ℕ → Bool
is_present entry = entry % 2 == 1

abbrev pub page_of : ℕ → ℕ
page_of entry = entry / 4096 * 4096

-- `for (int i = 0; i < n; i++) pt[i] = 0;`.
unfoldable pub zero_words : ℕ → ℕ → (ℕ → ℕ) → ℕ → ℕ
zero_words zero pt words = words
zero_words (suc n) pt words = update (zero_words n pt words) (pt + 4 * n) 0

-- `for (int j = 0; j < n; j++) to[j] = from[j];`
unfoldable pub copy_words : ℕ → ℕ → ℕ → (ℕ → ℕ) → ℕ → ℕ
copy_words zero from to words = words
copy_words (suc n) from to words =
    let copied = copy_words n from to words in update copied (to + 4 * n) (copied (from + 4 * n))

-- `vmm_get_phys_addr` where no page is mapped.
abbrev pub unmapped : ℕ → ℕ
unmapped virt = if ltb virt (128 * 1024 * 1024) then virt else 0

module _ {V : Type 0} where
  unfoldable pub get_phys_addr : ℕ → Vmm V → ℕ
  get_phys_addr virt s =
      let entry = s.directory (pd_idx virt) in
      let page = s.words (page_of entry + 4 * pt_idx virt) in
      if not (is_present entry)
      then unmapped virt
      else if not (is_present page)
      then unmapped virt
      else bit_or (page_of page) (virt % 4096)

  unfoldable pub unmap_page : ℕ → Vmm V → Vmm V
  unmap_page virt s =
      let entry = s.directory (pd_idx virt) in
      if is_present entry
      then record s { words = update s.words (page_of entry + 4 * pt_idx virt) 0 }
      else s

  unfoldable pub switch_page_dir : Places → ℕ → Vmm V → Vmm V
  switch_page_dir at page_dir s = record s {
    cr3 = if page_dir == null then at.directory_at else page_dir;
  }

  module _ (ops : Frames V) where
    -- The page table for `virt` in the directory, made where there is none.
    unfoldable pub open_table : ℕ → ℕ → Vmm V → Vmm V
    open_table virt flags s =
        let entry = s.directory (pd_idx virt) in
        let (new_pt, v) = ops.alloc_frame s.frames in
        if is_present entry
        then record s { directory = update s.directory (pd_idx virt) (bit_or entry flags) }
        else record s {
          directory = update s.directory (pd_idx virt) (bit_or (bit_or new_pt flags) 1);
          words = zero_words 1024 new_pt s.words;
          frames = v;
        }

    unfoldable pub map_page : ℕ → ℕ → ℕ → Vmm V → Vmm V
    map_page virt phys flags s =
        let s1 = open_table virt flags s in
        let pt = page_of (s1.directory (pd_idx virt)) in
        record s1 {
          words = update s1.words (pt + 4 * pt_idx virt) (bit_or (bit_or (page_of phys) flags) 1);
        }

    -- The round `i` of the loop of `vmm_copy_kernel_pages`.
    unfoldable pub copy_entry : ℕ → ℕ → Vmm V → Vmm V
    copy_entry new_pd i s =
        let entry = s.directory i in
        let (new_pt, v) = ops.alloc_frame s.frames in
        let words = copy_words 1024 (page_of entry) new_pt s.words in
        if leb 768 i
        then record s { words = update s.words (new_pd + 4 * i) entry }
        else if not (is_present entry)
        then s
        else if new_pt == null
        then record s { frames = v }
        else record s {
          words = update words (new_pd + 4 * i) (bit_or new_pt (entry % 4096));
          frames = v;
        }

    unfoldable pub copy_entries : ℕ → ℕ → Vmm V → Vmm V
    unfolding copy_entry
    copy_entries zero new_pd s = s
    copy_entries (suc n) new_pd s = copy_entry new_pd n (copy_entries n new_pd s)

    unfoldable pub copy_kernel_pages : ℕ → Vmm V → Vmm V
    unfolding copy_entries
    copy_kernel_pages new_pd s = copy_entries 1024 new_pd s

    unfoldable pub create_user_page_dir : Vmm V → ℕ × Vmm V
    create_user_page_dir s =
        let (new_pd, v) = ops.alloc_frame s.frames in
        if new_pd == null then (null, record s { frames = v }) else (
          new_pd,
          copy_kernel_pages new_pd
              (record s { words = zero_words 1024 new_pd s.words; frames = v }),
        )

    -- Frees the frames that `n` entries of a page table name.
    unfoldable pub free_table : ℕ → ℕ → (ℕ → ℕ) → V → V
    free_table zero pt words v = v
    free_table (suc n) pt words v =
        let freed = free_table n pt words v in
        let entry = words (pt + 4 * n) in
        if is_present entry then ops.free_frame (page_of entry) freed else freed

    -- The round `i` of the loop of `vmm_free_user_pages`.
    unfoldable pub free_entry : ℕ → ℕ → Vmm V → Vmm V
    unfolding free_table
    free_entry page_dir i s =
        let entry = s.words (page_dir + 4 * i) in
        if is_present entry
        then record s {
          words = update s.words (page_dir + 4 * i) 0;
          frames =
              ops.free_frame (page_of entry) (free_table 1024 (page_of entry) s.words s.frames);
        }
        else s

    unfoldable pub free_entries : ℕ → ℕ → Vmm V → Vmm V
    unfolding free_entry
    free_entries zero page_dir s = s
    free_entries (suc n) page_dir s = free_entry page_dir n (free_entries n page_dir s)

    unfoldable pub free_user_pages : ℕ → Vmm V → Vmm V
    unfolding free_entries
    free_user_pages page_dir s = if page_dir == null then s else free_entries 768 page_dir s
