-- ===== src/Scheduler/Tick.antt =====
-- `timer_handler` of src/kernel/scheduler.cpp.
use trieternal_x_os.Base.{
  ℕ, zero, suc, true, false, not, ◌&&◌, Option, none, some, ◌==◌, if◌then◌else◌, update,
}
use trieternal_x_os.Base.Words.{add32}
use trieternal_x_os.Scheduler.{Task, Kernel, Scheduler, null, wake, get_next_task}

module _ {V : Type 0} (ops : Kernel V) where
  -- Gives back the stacks and the page tables of a task, and then the task.
  unfoldable pub release : ℕ → Task → V → V
  release t task v =
      let v1 = if task.stack_base == 0 then v else ops.kfree task.stack_base v in
      let v2 = if task.user_stack_base == 0 then v1 else ops.kfree task.user_stack_base v1 in
      let v3 =
        if task.page_directory == null
        then v2
        else ops.free_frame task.page_directory (ops.free_user_pages task.page_directory v2) in
      ops.kfree t v3

  -- Takes the task `t` behind `prev` out of the list.
  unfoldable pub unlink : ℕ → ℕ → Scheduler V → Scheduler V
  unlink prev t s =
      let next = (s.tasks t).next in
      let s1 =
        if prev == null
        then record s { task_list_head = next }
        else record s { tasks = update s.tasks prev (record (s.tasks prev) { next = next }) } in
      if t == s1.task_list_tail then record s1 { task_list_tail = prev } else s1

  -- The loop that frees terminated tasks; the fields of a freed task are cleared first.
  unfoldable pub reap : ℕ → ℕ → ℕ → Scheduler V → Option (Scheduler V)
  unfolding release unlink
  reap zero prev t s = none
  reap (suc fuel) prev t s = elim (t == null) [
    | true ↦ some s
    | false ↦ elim ((s.tasks t).is_terminated && not (t == s.current_task)) [
      | false ↦ reap fuel t (s.tasks t).next s
      | true ↦
          let task = s.tasks t in
          let cleared = record s {
            tasks =
                update s.tasks t
                  (record task { stack_base = 0; user_stack_base = 0; page_directory = null });
            kernel = release t task s.kernel;
          } in
          reap fuel prev task.next (unlink prev t cleared)
    ]
  ]

  -- Goes over to the task `t`, on whose stack the handler returns.
  unfoldable pub switch_to : ℕ → Scheduler V → ℕ × Scheduler V
  switch_to t s =
      let task = s.tasks t in
      let v = ops.set_esp0 (add32 task.stack_base 4096) s.kernel in
      (task.esp, record s { current_task = t; kernel = ops.switch_page_dir task.page_directory v })

  -- The end of the handler, behind the two loops.
  unfoldable pub schedule : ℕ → ℕ → Scheduler V → Option (ℕ × Scheduler V)
  unfolding switch_to
  schedule fuel esp s =
      let saved = if s.current_task == null then s else record s {
        tasks = update s.tasks s.current_task (record (s.tasks s.current_task) { esp = esp });
      } in
      elim s.scheduler_active [
        | false ↦ some (esp, s)
        | true ↦ elim (get_next_task fuel saved) [
          | none ↦ none
          | some t ↦ some (if t == null then (esp, saved) else switch_to t saved)
        ]
      ]

  unfoldable pub timer_handler : ℕ → ℕ → Scheduler V → Option (ℕ × Scheduler V)
  timer_handler fuel esp s =
      let s1 = record s { kernel = ops.increment_tick s.kernel } in
      elim (wake fuel s1.task_list_head s1.tasks) [
        | none ↦ none
        | some tasks ↦ elim (reap fuel null s1.task_list_head (record s1 { tasks = tasks })) [
          | none ↦ none
          | some s2 ↦ schedule fuel esp (record s2 { kernel = ops.send_eoi 0 s2.kernel })
        ]
      ]

  -- What `switch_to_user_mode` does before it leaves for user mode.
  unfoldable pub enter_user : Scheduler V → Scheduler V
  enter_user s =
      let t = s.tasks s.current_task in
      if s.current_task == null then record s { kernel = ops.set_esp0 0 s.kernel } else record s {
        tasks = update s.tasks s.current_task (record t { is_user = true });
        kernel = ops.set_esp0 (add32 t.stack_base 4096) s.kernel;
      }
