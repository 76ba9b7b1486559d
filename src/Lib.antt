-- ===== src/Lib.antt =====
-- TrieternalX-OS, a 32-bit kernel with a frame allocator, a heap, tasks, files, message passing and
-- a text desktop: a model of its parts and what makes them correct.
--
-- The files, each for a part of the repository:
-- - Base: shared helpers. C arrays are functions of the index (Base/Arrays), the scans of the
--   kernel's tables one function with its laws (Base/Search), 32-bit arithmetic is written with its
--   wrap-around (Base/Words), a signed result is an integer (Base/Int), the bits of a byte are
--   checked over all bytes (Base/Bytes), those of an entry of a page table by induction on the digits
--   (Base/Masks), a C string is the list of its bytes (Base/Text), and the printing of a number is
--   that of `write_dec` in src/kernel/scheduler.cpp (Base/Decimal).
-- - Pmm: src/kernel/pmm.cpp. The state is the memory from `pmm_bitmap` on, by offset, with the two
--   counters; each function has its name without the prefix `pmm_`. Reach is about sequences of calls. A failed
--   `pmm_alloc_frame` returns the null pointer, which is the address 0.
-- - Ipc: src/kernel/ipc.cpp. The state is the message pool and the mailboxes; a pointer into the
--   pool is an index. The caller's pid, which the code asks the scheduler for, is an argument, and
--   so are the bytes at the caller's pointers. `ipc_receive` and `ipc_mailbox_recv` have the same
--   text; the model writes it once.
-- - Kheap: src/kernel/kheap.cpp. The state is the memory of block headers, by address, with
--   `heap_start_block`, `heap_current_end` and the state of the frame allocator and the page tables,
--   which the heap reaches through the record `Pages` (`pmm_alloc_frame`, `vmm_map_page`). The proofs
--   go by the list of blocks in address order (Kheap/Chain): Scan is the search, Carve the split,
--   Grow the growth, Extend the block made of it, Alloc and Malloc the whole of `kmalloc`; Merge and
--   Free are the two merges, Release, Kfree and Apart the whole of `kfree`, and RoundTrip puts
--   both together.
-- - Vga: src/kernel/vga.cpp. The state is `VGA::Terminal` with the memory of the display, by cell,
--   its two cursor registers and the state of the graphics console, which takes the calls while it is
--   active (the record `Console`). Scroll goes through the loops, Screen and Write compare `putchar`
--   and `write` with typing on a tape of 2000 cells.
-- - Vbe: src/drivers/vbe.cpp. The state is its static variables with the 32-bit words of memory, by
--   address; Font is the table of glyphs, Terminal the graphics console, which fills the record
--   `Console`. Safe is about where pixels are written, Cursor about the console; Lines, Steep and
--   DrawLine about `vbe_draw_line`, whose fuel bounds its rounds.
-- - Fat: src/kernel/fat.cpp, over a disk that gives each sector or fails (the record `Disk`). The searches
--   in the root directory, whose text the code repeats, are written once (`find_entry`), and Listing is
--   `fat_list_root`. Name is about the names of entries, Directory about the search in a sector, Content
--   about the end of `fat_read_file`, Chain about the sectors that it reads, Volume about those that the table
--   on the disk names, and Listed about the listing.
-- - Vmm: src/kernel/vmm.cpp. The state is `kernel_page_directory`, the words of memory, in which the page
--   tables are frames, the directory in use and the state of the frame allocator, which is reached
--   through the record `Frames`. Boot is `vmm_init`; Tables is about opening a page table, Entries about
--   what `vmm_get_phys_addr` reads, Translate and Unmap about it after a page is mapped or unmapped.
-- - Elf: src/kernel/elf.cpp, over memory as it is seen through the page tables (the record `Machine`)
--   and the disk with its file system (`Disk`). The fuel bounds the pages of a segment. Range is about
--   the first pass over the program headers, as the code tests them, and Headers about it by sums that do not
--   wrap around.
-- - Mouse: the interrupt handler of src/drivers/mouse.cpp, a state machine over the bytes of a
--   packet, with what the two ports hold as its arguments; drawing the pointer and acknowledging the
--   interrupt are operations of the record `Desktop`.
-- - Fs: src/kernel/fs.cpp. The state is the table `vfs_nodes` with `vfs_count`, the bytes of the blocks
--   that nodes point to, and the state of the heap, which the operations reach through the record
--   `Allocator`. `vfs_mkdir` and `vfs_create`, whose text differs in a flag, are `add_node`. Tree, Grown
--   and Siblings are about the order of the nodes and their links, Parents about the directory that a new node
--   is linked to, Rooted about tables whose nodes all hang on the root, Lookup about paths, Content about reading
--   and writing, Listing and Listed about `vfs_list` and `api_list_files`; Start is `fs_init`, and Init about it.
-- - Api: the calls of src/kernel/api.cpp on files (Api/Files) and on the text screen (Api/Rect), over Fs.
-- - Services: src/kernel/services.cpp, the table of services.
-- - Gui: the windows and the keys of src/kernel/gui.cpp. The state is its static variables with the state of the
--   rest of the system, which it reaches through the record `System`; drawing is one of its operations.
--   Console is the terminal window with its commands, Keys is `gui_handle_key`, Bounds, Windows and Safe
--   are about one key, and Reach about sequences of keys.
-- - Shell: the input line of src/kernel/shell.cpp and its reading of numbers; the commands are an operation
--   of the record `Commands`. Line is about the editing of a line. Shell/Keyboard is
--   src/drivers/keyboard.cpp, which hands its keys to the desktop or the shell (the record `Typing`).
-- - Scheduler: src/kernel/scheduler.cpp. The state is the memory of `Task`s, by address, with the
--   static variables and the words of the stacks; the heap, the page tables, the frame allocator, the
--   clock and the task segment are the record `Kernel`. Create makes tasks, Tick is `timer_handler`,
--   Process what tasks do to themselves and to others, Report the lines of `process_list`. The proofs go
--   by the list of tasks (Links): Wake and Reap are the two loops of the handler, Unlink takes a task
--   out, Next is `get_next_task`, Round the end of the handler, Timer the whole of it; Append puts a
--   task in, and Created is the making of the list.
--
-- The loops over tables are recursions on the rounds left. A walk over the heap's list takes its
-- fuel from `walk`, and the call of `kmalloc` by itself from `depth`: a walk longer than the list and
-- two calls are enough, and the theorems on `kmalloc` say that it returns then.
-- A walk over the task list or over the children of a node takes fuel too; more than there are tasks, or
-- nodes in the table, is enough, and the theorems on the handler and the listings say so. A walk along the
-- clusters of a file or of a directory takes fuel above the size of the file and the clusters of the directory.
-- Not modelled are the screen of the page fault handler, the commands of the shell, the drawing of the
-- desktop, the system calls, the other drivers, what only prints, and the assembly files.
pub mod Base
pub mod Pmm
pub mod Ipc
pub mod Kheap
pub mod Vga
pub mod Services
pub mod Gui
pub mod Shell
pub mod Vmm
pub mod Elf
pub mod Vbe
pub mod Mouse
pub mod Fs
pub mod Fat
pub mod Api
pub mod Scheduler
