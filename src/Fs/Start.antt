-- ===== src/Fs/Start.antt =====
-- `fs_init` of src/kernel/fs.cpp.
use trieternal_x_os.Base.{
  ℕ, zero, suc, ◌+◌, none, some, List, ◌==◌, if◌then◌else◌, update, length, append_from,
}
use trieternal_x_os.Base.Text.{codes}
use trieternal_x_os.Fs.{
  Allocator, Fs, max_nodes, flag_dir, null, byte_at, node_init, find_node, mkdir, create,
}

module _ {V : Type 0} where
  unfoldable pub clear_nodes : ℕ → Fs V → Fs V
  clear_nodes zero fs = fs
  clear_nodes (suc n) fs =
      let fs' = clear_nodes n fs in
      record fs' { nodes = update fs'.nodes n (record (fs'.nodes n) { flags = 0 }) }

  module _ (ops : Allocator V) where
    -- One of the four texts that `fs_init` puts into a file that it has just created.
    unfoldable pub fill_file : List ℕ → List ℕ → Fs V → Fs V
    fill_file path content fs = elim (find_node fs path) [
      | none ↦ fs
      | some idx ↦
          let (block, heap) = ops.kmalloc (length content + 1) fs.heap in
          if block == null
          then record fs {
            nodes = update fs.nodes idx (record (fs.nodes idx) { block = null });
            heap = heap;
          }
          else record fs {
            nodes =
                update fs.nodes idx
                  (record (fs.nodes idx) { block = block; size = length content });
            blocks =
                update fs.blocks block
                  (append_from (length content + 1) 0 0 (byte_at content) (fs.blocks block));
            heap = heap;
          }
    ]

    unfoldable pub new_file : List ℕ → List ℕ → Fs V → Fs V
    new_file path content fs = fill_file path content (create path fs).1

    unfoldable pub init : Fs V → Fs V
    unfolding clear_nodes node_init mkdir new_file
    init fs =
        let root =
          record (node_init 0 (codes "/") (codes "/") flag_dir none
            (record (clear_nodes max_nodes fs) { vfs_count = 0 })) { vfs_count = 1 } in
        let dirs =
          (mkdir (codes "/games")
            (mkdir (codes "/system") (mkdir (codes "/documents") root).1).1).1 in
        new_file (codes "/system/config.cfg") (codes "boot_delay=3\nresolution=80x25\n") (
          new_file (codes "/system/kernel.sys")
            (codes "TrieternalX Kernel v2.5\nProtected Mode: Enabled\n")
            (new_file (codes "/documents/note.txt")
              (codes "Tugas Akhir: Membangun microkernel OS.\n")
              (new_file (codes "/welcome.txt") (codes "Selamat datang di TrieternalX-OS!\n") dirs)))
