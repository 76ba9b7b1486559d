-- ===== src/Scheduler/Examples.antt =====
-- The theorems about src/kernel/scheduler.cpp at concrete queues, and test runs.
use trieternal_x_os.Base.{
  ℕ, ◌+◌, ◌≡◌, refl, true, false, Bool, some, [], ◌∷◌, arith, ltb, ◌==◌, if◌then◌else◌,
}
use trieternal_x_os.Base.Int.{pos, minus_one}
use trieternal_x_os.Base.Text.{codes}
use trieternal_x_os.Scheduler.{Task, Kernel, Scheduler, Entries, null, running, no_descriptor}
use trieternal_x_os.Scheduler.Links.{IsQueue}
use trieternal_x_os.Scheduler.Wake.{wake_times, wake_times_lem}
use trieternal_x_os.Scheduler.Timer.{Ticked, timer_handler_lem}
use trieternal_x_os.Scheduler.Created.{IsCreated, create_task_lem, IsStarted, init_lem}
use trieternal_x_os.Scheduler.Create.{create_task, init}
use trieternal_x_os.Scheduler.Tick.{timer_handler}

-- A kernel whose heap hands out 1000, 5096, and so on, and that does nothing else.
abbrev plain : Kernel ℕ
plain = record {
  kmalloc = λ size v. (v, v + 4096);
  kfree = λ block v. v;
  create_user_page_dir = λ v. (0, v);
  free_user_pages = λ pd v. v;
  free_frame = λ frame v. v;
  read_cr3 = λ v. 0;
  switch_page_dir = λ pd v. v;
  get_phys_addr = λ virt v. virt;
  map_page = λ virt phys flags v. v;
  send_eoi = λ irq v. v;
  increment_tick = λ v. v;
  set_esp0 = λ esp v. v;
}

abbrev fns : Entries
fns = record { idle_function = 64; exit_function = 96 }

-- A task with its link, its stack pointer, its ticks to sleep and whether it has terminated.
abbrev task : ℕ → ℕ → ℕ → ℕ → Bool → Task
task id next esp ticks ended = record {
  id = id;
  esp = esp;
  stack_base = 0;
  user_stack_base = 0;
  sleep_ticks = ticks;
  is_sleeping = ltb 0 ticks;
  is_terminated = ended;
  is_user = false;
  name = codes "task";
  next = next;
  state = running;
  parent_pid = minus_one;
  exit_code = pos 0;
  entry_point = 0;
  fds = λ i. no_descriptor;
  page_directory = null;
}

-- The current task at 10, the idle task at 20, a terminated one at 30 and one at 40 that sleeps for one
-- more tick.
abbrev busy : Scheduler ℕ
busy = record {
  tasks = λ p.
      if p == 10
      then task 1 20 111 0 false
      else if p == 20
      then task 2 30 222 9 false
      else if p == 30
      then task 3 40 333 0 true
      else task 4 0 444 1 false;
  task_list_head = 10;
  task_list_tail = 40;
  current_task = 10;
  idle_task = 20;
  main_kernel_task = 10;
  next_task_id = 5;
  scheduler_active = true;
  words = λ a. 0;
  kernel = 1000;
}

busy-IsQueue : IsQueue busy (10 ∷ 20 ∷ 30 ∷ 40 ∷ [])
busy-IsQueue = record {
  links = (
    refl,
    (λ z. omega arith),
    (refl, (λ z. omega arith), (refl, (λ z. omega arith), (refl, (λ z. omega arith), refl))),
  );
  distinct = (refl, (refl, (refl, (refl, tt))));
  tail = refl;
}

timer_handler_lem_example :
    (out : ℕ × Scheduler ℕ) × (timer_handler plain 5 77 busy ≡ some out)
    × Ticked busy [] (20 ∷ 30 ∷ 40 ∷ []) 77 out
timer_handler_lem_example =
    timer_handler_lem plain 5 77 busy [] (20 ∷ 30 ∷ 40 ∷ []) busy-IsQueue refl (λ z. omega arith)
      refl (omega arith)

create_task_lem_example :
    IsCreated
      (create_task plain fns 4096 (codes "sh") true busy).0
      (10 ∷ 20 ∷ 30 ∷ 40 ∷ [])
      busy
      (create_task plain fns 4096 (codes "sh") true busy).1
create_task_lem_example =
    create_task_lem plain fns 4096 (codes "sh") true busy (10 ∷ 20 ∷ 30 ∷ 40 ∷ []) (omega arith)
      busy-IsQueue (λ z. omega arith) refl

init_lem_example : IsStarted 1000 5096 (init plain fns busy)
init_lem_example =
    init_lem plain fns busy 1000 5096 5096 9192 refl refl (λ z. omega arith) (λ z. omega arith)
      (λ z. omega arith)

wake_times_lem_example : (wake_times 3 (task 7 0 0 3 false)).is_sleeping ≡ false
wake_times_lem_example =
    wake_times_lem 3 (task 7 0 0 3 false) refl (omega arith) (omega arith) (omega arith)
