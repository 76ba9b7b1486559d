-- ===== src/Scheduler/Process.antt =====
-- What a task does to itself and to others in src/kernel/scheduler.cpp: sleeping, ending, waiting, killing.
use trieternal_x_os.Base.{
  ℕ, zero, suc, ◌/◌, Bool, true, false, not, ◌&&◌, Option, none, some, ◌==◌, if◌then◌else◌, update,
}
use trieternal_x_os.Base.Int.{ℤ, minus_one, eq_ℤ, to_int32}
use trieternal_x_os.Scheduler.{
  Task, running, sleeping, zombie, terminated, TaskState, Scheduler, null,
}

-- The loop of `process_kill`.
unfoldable pub kill_from : ℕ → ℤ → ℕ → (ℕ → Task) → Option (ℕ → Task)
kill_from zero pid t tasks = none
kill_from (suc fuel) pid t tasks = elim (t == null) [
  | true ↦ some tasks
  | false ↦ elim (eq_ℤ (to_int32 (tasks t).id) pid && not ((tasks t).id == 1)) [
    | true ↦ some (
        update tasks t
          (record (tasks t) { is_terminated = true; state = terminated; exit_code = minus_one }))
    | false ↦ kill_from fuel pid (tasks t).next tasks
  ]
]

module _ {V : Type 0} where
  unfoldable pub start : Scheduler V → Scheduler V
  start s = record s { scheduler_active = true }

  -- What `scheduler_sleep` does before it yields.
  unfoldable pub sleep : ℕ → Scheduler V → Scheduler V
  sleep ms s =
      let ticks = if ms / 10 == 0 then 1 else ms / 10 in
      if not (s.current_task == null) && s.scheduler_active
      then record s {
        tasks =
            update s.tasks s.current_task
              (record (s.tasks s.current_task) { sleep_ticks = ticks; is_sleeping = true });
      }
      else s

  -- What `scheduler_exit_task` does before it yields.
  unfoldable pub exit_task : Scheduler V → Scheduler V
  exit_task s = if s.current_task == null then s else record s {
    tasks =
        update s.tasks s.current_task (record (s.tasks s.current_task) { is_terminated = true });
  }

  -- What `process_exit` does before it yields.
  unfoldable pub exit_process : ℤ → Scheduler V → Scheduler V
  exit_process code s =
      let t = s.tasks s.current_task in
      if not (s.current_task == null) && not (t.id == 1)
      then record s {
        tasks =
            update s.tasks s.current_task
              (record t { exit_code = code; is_terminated = true; state = terminated });
      }
      else s

  unfoldable pub get_pid : Scheduler V → ℤ
  get_pid s = if s.current_task == null then minus_one else to_int32 (s.tasks s.current_task).id

  unfoldable pub kill : ℕ → ℤ → Scheduler V → Option (Scheduler V)
  kill fuel pid s = elim (kill_from fuel pid s.task_list_head s.tasks) [
    | none ↦ none
    | some tasks ↦ some (record s { tasks = tasks })
  ]

  -- The search of `process_wait`: the task, if there is one.
  unfoldable pub find_task : ℕ → ℤ → ℕ → Scheduler V → Option (Option ℕ)
  find_task zero pid t s = none
  find_task (suc fuel) pid t s = elim (t == null) [
    | true ↦ some none
    | false ↦ elim (eq_ℤ (to_int32 (s.tasks t).id) pid) [
      | true ↦ some (some t)
      | false ↦ find_task fuel pid (s.tasks t).next s
    ]
  ]

abbrev pub is_stopped : TaskState → Bool
is_stopped terminated = true
is_stopped running = false
is_stopped sleeping = false
is_stopped zombie = false

-- A round of the inner loop of `process_wait` on the task that it has found: the result, or `none`
-- where it yields.
unfoldable pub wait_round : {V : Type 0} → ℕ → Scheduler V → Option ℤ
wait_round t s = if is_stopped (s.tasks t).state then some (s.tasks t).exit_code else none
