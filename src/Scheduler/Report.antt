-- ===== src/Scheduler/Report.antt =====
-- The table that `process_list` of src/kernel/scheduler.cpp prints.
use trieternal_x_os.Base.{
  ℕ, zero, suc, ◌-◌, ◌^◌, true, false, Option, none, some, List, [], ◌∷◌, ◌++◌, ◌==◌, length,
}
use trieternal_x_os.Base.Int.{ℤ, pos, negsuc}
use trieternal_x_os.Base.Text.{codes}
use trieternal_x_os.Base.Decimal.{write_dec, num_digits}
use trieternal_x_os.Scheduler.{
  TaskState, running, sleeping, zombie, terminated, Task, Scheduler, null,
}

abbrev pub spaces : ℕ → List ℕ
spaces zero = []
spaces (suc n) = b' ' ∷ spaces n

-- `for (int i = 0; i < width - len; i++) putchar(' ')`
abbrev pub padding : ℕ → ℕ → List ℕ
padding width len = spaces (width - len)

unfoldable pub state_text : TaskState → List ℕ
state_text running = codes "RUNNING"
state_text sleeping = codes "SLEEPING"
state_text zombie = codes "ZOMBIE"
state_text terminated = codes "STOPPED"

-- An `int32_t` as the `uint32_t` that `write_dec` takes.
abbrev pub to_uint32 : ℤ → ℕ
to_uint32 (pos n) = n
to_uint32 (negsuc n) = 2 ^ 32 - 1 - n

unfoldable pub task_line : Task → List ℕ
task_line t =
    codes "  "
    ++ (write_dec t.id
        ++ (padding 7 (num_digits t.id)
            ++ (t.name
                ++ (padding 20 (length t.name)
                    ++ (state_text t.state
                        ++ (padding 12 (length (state_text t.state))
                            ++ (write_dec (to_uint32 t.parent_pid) ++ codes "\n")))))))

-- The lines for the tasks from `t` on.
unfoldable pub list_tasks : {V : Type 0} → ℕ → ℕ → Scheduler V → Option (List (List ℕ))
list_tasks zero t s = none
list_tasks (suc fuel) t s = elim (t == null) [
  | true ↦ some []
  | false ↦ elim (list_tasks fuel (s.tasks t).next s) [
    | none ↦ none
    | some rest ↦ some (task_line (s.tasks t) ∷ rest)
  ]
]
