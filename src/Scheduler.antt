-- ===== src/Scheduler.antt =====
-- Tasks and their scheduling, src/kernel/scheduler.cpp. `tasks p` is the `Task` at the address `p`, and
-- the null pointer is 0; memory given back keeps its content. `words a` is the word at the address `a`
-- of a stack. A walk over the task list takes fuel, and `none` means that it ran out.
pub mod Create
pub mod Links
pub mod Wake
pub mod Process
pub mod Unlink
pub mod Append
pub mod Reap
pub mod Next
pub mod Tick
pub mod Round
pub mod Timer
pub mod Created
pub mod Report
mod Examples
use trieternal_x_os.Base.{
  ℕ, zero, suc, ◌+◌, ◌-◌, ◌*◌, ◌/◌, ◌%◌, ◌^◌, bit_or, Bool, true, false, not, ◌&&◌, ◌||◌, Option,
  none, some, List, ltb, leb, ◌==◌, if◌then◌else◌, update,
}
use trieternal_x_os.Base.Words.{add32, sub32}
use trieternal_x_os.Base.Int.{ℤ, pos, negsuc, minus_one, eq_ℤ, to_int32}
use trieternal_x_os.Base.Text.{codes}

pub data TaskState : Type 0 where
  running sleeping zombie terminated : TaskState

pub record FileDescriptor : Type 0 where
  pub flags : ℕ
  pub inode : ℕ
  pub offset : ℕ

pub record Task : Type 0 where
  pub id : ℕ
  pub esp : ℕ
  pub stack_base : ℕ
  pub user_stack_base : ℕ
  pub sleep_ticks : ℕ
  pub is_sleeping : Bool
  pub is_terminated : Bool
  pub is_user : Bool
  pub name : List ℕ
  pub next : ℕ
  pub state : TaskState
  pub parent_pid : ℤ
  pub exit_code : ℤ
  pub entry_point : ℕ
  pub fds : ℕ → FileDescriptor
  pub page_directory : ℕ

-- What the scheduler asks of the heap, the page tables, the frame allocator, the interrupt controller,
-- the clock and the task segment, over their state `V`.
pub record Kernel (V : Type 0) : Type 0 where
  pub kmalloc : ℕ → V → ℕ × V
  pub kfree : ℕ → V → V
  pub create_user_page_dir : V → ℕ × V
  pub free_user_pages : ℕ → V → V
  pub free_frame : ℕ → V → V
  pub read_cr3 : V → ℕ
  pub switch_page_dir : ℕ → V → V
  pub get_phys_addr : ℕ → V → ℕ
  pub map_page : ℕ → ℕ → ℕ → V → V
  pub send_eoi : ℕ → V → V
  pub increment_tick : V → V
  pub set_esp0 : ℕ → V → V

pub record Scheduler (V : Type 0) : Type 0 where
  pub tasks : ℕ → Task
  pub task_list_head : ℕ
  pub task_list_tail : ℕ
  pub current_task : ℕ
  pub idle_task : ℕ
  pub main_kernel_task : ℕ
  pub next_task_id : ℕ
  pub scheduler_active : Bool
  pub words : ℕ → ℕ
  pub kernel : V

abbrev pub null : ℕ
null = 0

-- `sizeof(Task)`
abbrev pub task_size : ℕ
task_size = 272

-- The addresses of two functions that tasks are made of.
pub record Entries : Type 0 where
  pub idle_function : ℕ
  pub exit_function : ℕ

abbrev pub no_descriptor : FileDescriptor
no_descriptor = record { flags = 0; inode = 0; offset = 0 }

-- `FD_FLAG_USED | FD_FLAG_CONSOLE`
abbrev pub console : ℕ → FileDescriptor
console inode = record { flags = 3; inode = inode; offset = 0 }

abbrev pub is_runnable : Task → Bool
is_runnable t = not t.is_sleeping && not t.is_terminated

-- `stack--; *stack = v;`
abbrev pub push : ℕ → ℕ × (ℕ → ℕ) → ℕ × (ℕ → ℕ)
push v (stack, words) = (sub32 stack 4, update words (sub32 stack 4) v)

unfoldable pub push_zeros : ℕ → ℕ × (ℕ → ℕ) → ℕ × (ℕ → ℕ)
push_zeros zero st = st
push_zeros (suc n) st = push_zeros n (push 0 st)

-- The first frame of a task that runs in user mode, and of one that runs in the kernel.
unfoldable pub user_frame : ℕ → ℕ → ℕ → (ℕ → ℕ) → ℕ × (ℕ → ℕ)
unfolding push_zeros
user_frame entry stack_base user_stack_base words = push_zeros 8 (
    push entry (
      push 0x1B (
        push 0x202 (push (add32 user_stack_base 4096) (push 0x23 (add32 stack_base 4096, words))))))

unfoldable pub kernel_frame : ℕ → ℕ → ℕ → (ℕ → ℕ) → ℕ × (ℕ → ℕ)
unfolding push_zeros
kernel_frame entry exit stack_base words =
    push_zeros 8 (push entry (push 0x08 (push 0x202 (push exit (add32 stack_base 4096, words)))))

-- The loop of `timer_handler` that wakes tasks: one task, and the walk over the list.
unfoldable pub wake_task : Task → Task
wake_task t =
    let ticks = if ltb 0 t.sleep_ticks then sub32 t.sleep_ticks 1 else t.sleep_ticks in
    if t.is_sleeping then record t { sleep_ticks = ticks; is_sleeping = not (ticks == 0) } else t

unfoldable pub wake : ℕ → ℕ → (ℕ → Task) → Option (ℕ → Task)
wake zero t tasks = none
wake (suc fuel) t tasks = elim (t == null) [
  | true ↦ some tasks
  | false ↦ wake fuel (tasks t).next (update tasks t (wake_task (tasks t)))
]

module _ {V : Type 0} where
  -- The fields that `scheduler_create_task` sets before it makes the stack.
  unfoldable pub new_task : ℕ → List ℕ → Bool → Scheduler V → Task
  new_task entry name is_user s = record {
    id = s.next_task_id;
    esp = 0;
    stack_base = 0;
    user_stack_base = 0;
    sleep_ticks = 0;
    is_sleeping = false;
    is_terminated = false;
    is_user = is_user;
    name = name;
    next = null;
    state = running;
    parent_pid = if s.current_task == null then minus_one else to_int32 (s.tasks s.current_task).id;
    exit_code = pos 0;
    entry_point = entry;
    fds = λ i. if i == 0 then console 0 else if i == 1 then console 1 else no_descriptor;
    page_directory = null;
  }

  -- The new task at the end of the list.
  unfoldable pub link_task : ℕ → Scheduler V → Scheduler V
  link_task t s =
      if s.task_list_tail == null
      then record s { task_list_head = t; task_list_tail = t }
      else record s {
        tasks = update s.tasks s.task_list_tail (record (s.tasks s.task_list_tail) { next = t });
        task_list_tail = t;
      }

  -- The search of `get_next_task` behind the current task: `some none` where it came round to it.
  unfoldable pub search_next : ℕ → ℕ → Scheduler V → Option (Option ℕ)
  search_next zero next s = none
  search_next (suc fuel) next s = elim (next == s.current_task) [
    | true ↦ some none
    | false ↦ elim (is_runnable (s.tasks next)) [
      | true ↦ some (some next)
      | false ↦
          search_next fuel
            (if (s.tasks next).next == null then s.task_list_head else (s.tasks next).next) s
    ]
  ]

  unfoldable pub get_next_task : ℕ → Scheduler V → Option ℕ
  get_next_task fuel s =
      let after = (s.tasks s.current_task).next in
      elim (s.current_task == null) [
        | true ↦ some null
        | false ↦ elim (search_next fuel (if after == null then s.task_list_head else after) s) [
          | none ↦ none
          | some (some t) ↦ some t
          | some none ↦
              some (if is_runnable (s.tasks s.current_task) then s.current_task else s.idle_task)
        ]
      ]
