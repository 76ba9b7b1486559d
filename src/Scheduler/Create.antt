-- ===== src/Scheduler/Create.antt =====
-- `scheduler_create_task` and `scheduler_init` of src/kernel/scheduler.cpp.
use trieternal_x_os.Base.{ℕ, ◌*◌, ◌/◌, Bool, false, ◌==◌, if◌then◌else◌, update, List}
use trieternal_x_os.Base.Words.{add32}
use trieternal_x_os.Base.Int.{pos, minus_one}
use trieternal_x_os.Base.Text.{codes}
use trieternal_x_os.Scheduler.{
  running, Task, Kernel, Scheduler, Entries, null, task_size, no_descriptor, user_frame,
  kernel_frame, new_task, link_task,
}

-- The task that `scheduler_init` makes of the code that runs already, at the address `t`.
unfoldable pub add_main : {V : Type 0} → ℕ → V → Scheduler V → Scheduler V
add_main t v s =
    let main : Task = record {
      id = s.next_task_id;
      esp = 0;
      stack_base = 0;
      user_stack_base = 0;
      sleep_ticks = 0;
      is_sleeping = false;
      is_terminated = false;
      is_user = false;
      name = codes "kernel_main";
      next = null;
      state = running;
      parent_pid = minus_one;
      exit_code = pos 0;
      entry_point = 0;
      fds = λ i. no_descriptor;
      page_directory = null;
    } in
    record s {
      scheduler_active = false;
      tasks = update s.tasks t main;
      main_kernel_task = t;
      next_task_id = add32 s.next_task_id 1;
      task_list_head = t;
      task_list_tail = t;
      current_task = t;
      kernel = v;
    }

module _ {V : Type 0} (ops : Kernel V) (fns : Entries) where
  -- `if (phys) vmm_map_page(virt, phys, 7);`
  unfoldable pub map_user : ℕ → V → V
  map_user virt v =
      if ops.get_phys_addr virt v == null
      then v
      else ops.map_page virt (ops.get_phys_addr virt v) 7 v

  -- Maps the stack and the page of the code, in the page tables of the task where it has its own.
  unfoldable pub map_task : ℕ → ℕ → ℕ → V → V
  unfolding map_user
  map_task entry page_directory user_stack_base v =
      let saved_pd = if page_directory == null then null else ops.read_cr3 v in
      let v1 = if page_directory == null then v else ops.switch_page_dir page_directory v in
      let v2 = map_user (entry / 4096 * 4096) (map_user user_stack_base v1) in
      if saved_pd == null then v2 else ops.switch_page_dir null v2

  -- The stacks of a task, and its first frame.
  unfoldable pub user_task : ℕ → ℕ → Scheduler V → Scheduler V
  unfolding map_task
  user_task entry t s =
      let (page_directory, v1) = ops.create_user_page_dir s.kernel in
      let (stack_base, v2) = ops.kmalloc 4096 v1 in
      let (user_stack_base, v3) = ops.kmalloc 4096 v2 in
      let (esp, words) = user_frame entry stack_base user_stack_base s.words in
      record s {
        tasks = update s.tasks t (record (s.tasks t) {
          page_directory = page_directory;
          stack_base = stack_base;
          user_stack_base = user_stack_base;
          esp = esp;
        });
        words = words;
        kernel = map_task entry page_directory user_stack_base v3;
      }

  unfoldable pub kernel_task : ℕ → ℕ → Scheduler V → Scheduler V
  kernel_task entry t s =
      let (stack_base, v1) = ops.kmalloc 4096 s.kernel in
      let (esp, words) = kernel_frame entry fns.exit_function stack_base s.words in
      record s {
        tasks =
            update s.tasks t
              (record (s.tasks t) { user_stack_base = 0; stack_base = stack_base; esp = esp });
        words = words;
        kernel = v1;
      }

  unfoldable pub create_task : ℕ → List ℕ → Bool → Scheduler V → ℕ × Scheduler V
  create_task entry name is_user s =
      let (t, v) = ops.kmalloc task_size s.kernel in
      let s1 = record s {
        tasks = update s.tasks t (new_task entry name is_user s);
        next_task_id = add32 s.next_task_id 1;
        kernel = v;
      } in
      (t, link_task t (if is_user then user_task entry t s1 else kernel_task entry t s1))

  unfoldable pub init : Scheduler V → Scheduler V
  init s =
      let (t, v) = ops.kmalloc task_size s.kernel in
      let (idle, s2) = create_task fns.idle_function (codes "idle") false (add_main t v s) in
      record s2 { idle_task = idle }
