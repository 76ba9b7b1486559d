-- ===== src/Scheduler/Timer.antt =====
-- `timer_handler` of src/kernel/scheduler.cpp as a whole.
use mathlib.Core.Path.{subst, fun_ext}
use trieternal_x_os.Base.{
  length-append, ℕ, ◌<◌, ◌≡◌, ◌≢◌, inl, inr, refl, sym, ◌∙◌, ap, true, false, not, ◌&&◌, some, List,
  [], ◌∷◌, ◌++◌, arith, ◌==◌, if◌then◌else◌, length,
}
use trieternal_x_os.Scheduler.{Task, Kernel, Scheduler, null, is_runnable, wake_task}
use trieternal_x_os.Scheduler.Links.{Links-congr, elem, IsQueue}
use trieternal_x_os.Scheduler.Wake.{wake_task-next, wake_lem}
use trieternal_x_os.Scheduler.Next.{first_runnable, next_in}
use trieternal_x_os.Scheduler.Reap.{is_dead, alive, alive-congr, reap_lem}
use trieternal_x_os.Scheduler.Unlink.{unlinked}
use trieternal_x_os.Scheduler.Round.{
  alive-append, alive-dead, length-alive, first_runnable-congr, next_in-cases, Scheduled,
  schedule_lem,
}
use trieternal_x_os.Scheduler.Tick.{reap, timer_handler}

-- The tasks of the list, each one tick further.
abbrev pub woken : {V : Type 0} → Scheduler V → List ℕ → ℕ → Task
woken s ts x = if elem x ts then wake_task (s.tasks x) else s.tasks x

wake_task-ended : (t : Task) → (wake_task t).is_terminated ≡ t.is_terminated
unfolding wake_task
wake_task-ended t = ground arith

woken-next :
    {V : Type 0} (s : Scheduler V) (ts : List ℕ) (x : ℕ) → (woken s ts x).next ≡ (s.tasks x).next
woken-next s ts x = ground (arith, wake_task-next (s.tasks x))

woken-ended :
    {V : Type 0} (s : Scheduler V) (ts : List ℕ) (x : ℕ)
    → (woken s ts x).is_terminated ≡ (s.tasks x).is_terminated
woken-ended s ts x = ground (arith, wake_task-ended (s.tasks x))

module _ {V : Type 0} (s : Scheduler V) (front back : List ℕ) where
  abbrev whole : List ℕ
  whole = front ++ s.current_task ∷ back

  abbrev now : ℕ → Task
  now = woken s whole

  -- The task that runs after the tick: the first one that can run behind the current one round the
  -- list of those that are left, else the current task if it can run, else the idle task.
  abbrev pub runs_next : ℕ
  runs_next =
      first_runnable now (if is_runnable (now s.current_task) then s.current_task else s.idle_task)
        (alive s back ++ alive s front)

  -- What a tick with the stack pointer `esp` comes to.
  pub record Ticked (esp : ℕ) (out : ℕ × Scheduler V) : Type 0 where
    pub queue : IsQueue out.1 (alive s front ++ s.current_task ∷ alive s back)
    pub current : out.1.current_task ≡ runs_next
    pub stack : out.0 ≡ (if runs_next == s.current_task then esp else (now runs_next).esp)
    pub own :
        unlinked (out.1.tasks s.current_task) ≡ record (unlinked (now s.current_task)) { esp = esp }
    pub others :
        (x : ℕ)
        → x ≢ s.current_task
        → is_dead s x ≡ false
        → unlinked (out.1.tasks x) ≡ unlinked (now x)

  -- Behind the two loops: the tasks are woken and the terminated ones are gone.
  record Swept (out : Scheduler V) : Type 0 where
    queue : IsQueue out (alive s front ++ s.current_task ∷ alive s back)
    current : out.current_task ≡ s.current_task
    idle : out.idle_task ≡ s.idle_task
    active : out.scheduler_active ≡ s.scheduler_active
    same : (x : ℕ) → is_dead s x ≡ false → unlinked (out.tasks x) ≡ unlinked (now x)

  current-alive : is_dead s s.current_task ≡ false
  current-alive = ground arith

  alive-whole : alive s whole ≡ alive s front ++ s.current_task ∷ alive s back
  alive-whole =
      alive-append s front (s.current_task ∷ back)
      ∙ ap (λ ts. alive s front ++ ts) (rw current-alive refl)

  sweep_lem :
      (ops : Kernel V) (fuel : ℕ) (v : V)
      → IsQueue s whole
      → length whole < fuel
      → (out : Scheduler V) × (reap ops fuel null s.task_list_head
            (record s { tasks = now; kernel = v })
          ≡ some out)
        × Swept out
  sweep_lem ops fuel v q f =
      let s2 : Scheduler V = record s { tasks = now; kernel = v } in
      let links =
        Links-congr s.tasks now s.task_list_head whole (λ x e. woken-next s whole x) q.links in
      let dead : (x : ℕ) → is_dead s2 x ≡ is_dead s x =
        λ x. ap (λ b. b && not (x == s.current_task)) (woken-ended s whole x) in
      let r =
        reap_lem ops fuel s.task_list_head [] whole s2
          (record { links = links; distinct = q.distinct; tail = q.tail }) links f in
      (
        r.0,
        r.1,
        record {
          queue = subst (IsQueue r.0) (alive-congr s s2 whole dead ∙ alive-whole) r.2.queue;
          current = r.2.current;
          idle = r.2.idle;
          active = r.2.active;
          same = λ x e. r.2.same x (dead x ∙ e);
        },
      )

  module _ (out : Scheduler V) (w : Swept out) where
    runnable-same : (x : ℕ) → is_dead s x ≡ false → is_runnable (out.tasks x) ≡ is_runnable (now x)
    runnable-same x e = ap is_runnable (w.same x e)

    in_list : (x : ℕ) → elem x (alive s back ++ alive s front) ≡ true → is_dead s x ≡ false
    in_list x e = alive-dead s (back ++ front) x (ap (elem x) (alive-append s back front) ∙ e)

    next-runs_next : next_in out (alive s front) (alive s back) ≡ runs_next
    next-runs_next =
        ap
          (λ c.
            first_runnable out.tasks (if is_runnable (out.tasks c) then c else out.idle_task)
              (alive s back ++ alive s front))
          w.current
        ∙ ap
            (λ i.
              first_runnable out.tasks
                (if is_runnable (out.tasks s.current_task) then s.current_task else i)
                (alive s back ++ alive s front))
            w.idle
        ∙ ap
            (λ b.
              first_runnable out.tasks (if b then s.current_task else s.idle_task)
                (alive s back ++ alive s front))
            (runnable-same s.current_task current-alive)
        ∙ first_runnable-congr now out.tasks
            (if is_runnable (now s.current_task) then s.current_task else s.idle_task)
            (alive s back ++ alive s front) (λ x e. runnable-same x (in_list x e))

    -- The next task has not been freed.
    next-alive :
        is_dead s s.idle_task ≡ false
        → is_dead s (next_in out (alive s front) (alive s back)) ≡ false
    next-alive idle = elim (next_in-cases out (alive s front) (alive s back)) [
      | inl e ↦ ap (is_dead s) (e ∙ w.current) ∙ current-alive
      | inr (inl e) ↦ ap (is_dead s) (e ∙ w.idle) ∙ idle
      | inr (inr e) ↦ in_list (next_in out (alive s front) (alive s back)) e
    ]

    Scheduled-Ticked :
        (esp : ℕ) (r : ℕ × Scheduler V)
        → is_dead s s.idle_task ≡ false
        → Scheduled out (alive s front) (alive s back) esp r
        → Ticked esp r
    Scheduled-Ticked esp r idle d =
        let n = next_in out (alive s front) (alive s back) in
        let same_esp : (out.tasks n).esp ≡ (now n).esp =
          ap (λ t. t.esp) (w.same n (next-alive idle)) in
        record {
          queue = subst (λ c. IsQueue r.1 (alive s front ++ c ∷ alive s back)) w.current d.queue;
          current = d.current ∙ next-runs_next;
          stack =
              d.stack
              ∙ ap (λ c. if n == c then esp else (out.tasks n).esp) w.current
              ∙ ap (λ e. if n == s.current_task then esp else e) same_esp
              ∙ ap (λ k. if k == s.current_task then esp else (now k).esp) next-runs_next;
          own =
              ap (λ c. unlinked (r.1.tasks c)) (sym w.current)
              ∙ ap unlinked d.own
              ∙ ap {A = ℕ} {B = Task} (λ c. record (unlinked (out.tasks c)) { esp = esp }) w.current
              ∙ ap {A = Task} {B = Task} (λ t. record t { esp = esp })
                  (w.same s.current_task current-alive);
          others = λ x ne l. ap unlinked (d.others x (λ e. ne (e ∙ w.current))) ∙ w.same x l;
        }

-- A tick of the running scheduler ends: with a well-formed list that holds the current task, and an idle
-- task that has not terminated, fuel above the length of the list is enough. Every task that stays is one
-- tick further and else as before, but for its link and for the stack pointer of the current task, which is saved;
-- the terminated ones but the current one are out of the list, whose order stays, and the handler returns on the stack of the first task behind the
-- current one round the list that can run, else of the current one if it can run, else of the idle task.
pub timer_handler_lem :
    {V : Type 0} (ops : Kernel V) (fuel esp : ℕ) (s : Scheduler V) (front back : List ℕ)
    → IsQueue s (front ++ s.current_task ∷ back)
    → s.scheduler_active ≡ true
    → s.idle_task ≢ null
    → is_dead s s.idle_task ≡ false
    → length (front ++ s.current_task ∷ back) < fuel
    → (out : ℕ × Scheduler V) × (timer_handler ops fuel esp s ≡ some out)
      × Ticked s front back esp out
unfolding timer_handler
timer_handler_lem ops fuel esp s front back q active nz idle f =
    let (tasks, woke, each) =
      wake_lem fuel s.task_list_head (front ++ s.current_task ∷ back) s.tasks q.links q.distinct
        f in
    let woke' = woke ∙ ap some (fun_ext each) in
    let (swept, reaped, w) = sweep_lem s front back ops fuel (ops.increment_tick s.kernel) q f in
    let s4 : Scheduler _ = record swept { kernel = ops.send_eoi 0 swept.kernel } in
    let room = length-append front (s.current_task ∷ back) in
    let r =
      schedule_lem ops fuel esp s4 (alive s front) (alive s back)
        (subst (λ c. IsQueue s4 (alive s front ++ c ∷ alive s back)) (sym w.current)
          (record { links = w.queue.links; distinct = w.queue.distinct; tail = w.queue.tail }))
        (w.active ∙ active) (λ z. nz (sym w.idle ∙ z))
        (omega (arith, length-alive s front, length-alive s back)) in
    (
      r.0,
      rw (woke', timer_handler) (rw (reaped, timer_handler) r.1),
      Scheduled-Ticked s front back s4
          (record {
            queue = record {
              links = w.queue.links;
              distinct = w.queue.distinct;
              tail = w.queue.tail;
            };
            current = w.current;
            idle = w.idle;
            active = w.active;
            same = w.same;
          })
          esp r.0 idle r.2,
    )
