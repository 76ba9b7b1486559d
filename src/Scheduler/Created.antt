-- ===== src/Scheduler/Created.antt =====
-- `scheduler_create_task` and `scheduler_init` of src/kernel/scheduler.cpp make the task list.
use mathlib.Core.Path.{subst}
use trieternal_x_os.Base.{
  length, ◌<◌, ℕ, ◌≡◌, ◌≢◌, inl, inr, refl, sym, ◌∙◌, ap, Bool, true, false, List, [], ◌∷◌, ◌++◌,
  arith, ◌==◌, if◌then◌else◌, Bool-cases, update, ==→eq, ne→==,
}
use trieternal_x_os.Base.Words.{add32}
use trieternal_x_os.Base.Text.{codes}
use trieternal_x_os.Scheduler.{
  Kernel, Scheduler, Entries, null, task_size, is_runnable, new_task, link_task,
}
use trieternal_x_os.Scheduler.Links.{Links, Links-congr, elem, IsQueue}
use trieternal_x_os.Scheduler.Unlink.{unlinked}
use trieternal_x_os.Scheduler.Create.{add_main, user_task, kernel_task, create_task, init}
use trieternal_x_os.Scheduler.Append.{link_task-IsQueue, link_task-others, link_task-kept}

module _ {V : Type 0} where
  -- The new task is the last of the list, it can run, and the other tasks stay.
  pub record IsCreated (t : ℕ) (ts : List ℕ) (s out : Scheduler V) : Type 0 where
    pub queue : IsQueue out (ts ++ t ∷ [])
    pub current : out.current_task ≡ s.current_task
    pub id : (out.tasks t).id ≡ s.next_task_id
    pub next_id : out.next_task_id ≡ add32 s.next_task_id 1
    pub runnable : is_runnable (out.tasks t) ≡ true
    pub others : (x : ℕ) → x ≢ t → unlinked (out.tasks x) ≡ unlinked (s.tasks x)

  -- What the two kinds of stack leave of the scheduler.
  record Stacked (t : ℕ) (s out : Scheduler V) : Type 0 where
    head : out.task_list_head ≡ s.task_list_head
    tail : out.task_list_tail ≡ s.task_list_tail
    current : out.current_task ≡ s.current_task
    next_id : out.next_task_id ≡ s.next_task_id
    next : (x : ℕ) → (out.tasks x).next ≡ (s.tasks x).next
    id : (out.tasks t).id ≡ (s.tasks t).id
    runnable : is_runnable (out.tasks t) ≡ is_runnable (s.tasks t)
    others : (x : ℕ) → x ≢ t → out.tasks x ≡ s.tasks x

  user_task-Stacked :
      (ops : Kernel V) (fns : Entries) (entry t : ℕ) (s : Scheduler V)
      → Stacked t s (user_task ops fns entry t s)
  unfolding user_task
  user_task-Stacked ops fns entry t s = record {
    head = refl;
    tail = refl;
    current = refl;
    next_id = refl;
    next = λ x. ground arith;
    id = ground arith;
    runnable = ground arith;
    others = λ x ne. ground arith;
  }

  kernel_task-Stacked :
      (ops : Kernel V) (fns : Entries) (entry t : ℕ) (s : Scheduler V)
      → Stacked t s (kernel_task ops fns entry t s)
  unfolding kernel_task
  kernel_task-Stacked ops fns entry t s = record {
    head = refl;
    tail = refl;
    current = refl;
    next_id = refl;
    next = λ x. ground arith;
    id = ground arith;
    runnable = ground arith;
    others = λ x ne. ground arith;
  }

  -- The new task in its place, before it has a stack.
  abbrev registered : ℕ → ℕ → List ℕ → Bool → V → Scheduler V → Scheduler V
  registered t entry name is_user v s = record s {
    tasks = update s.tasks t (new_task entry name is_user s);
    next_task_id = add32 s.next_task_id 1;
    kernel = v;
  }

  registered-next :
      (t entry : ℕ) (name : List ℕ) (is_user : Bool) (v : V) (s : Scheduler V) (x : ℕ)
      → ((registered t entry name is_user v s).tasks x).next
        ≡ (if x == t then null else (s.tasks x).next)
  unfolding new_task
  registered-next t entry name is_user v s x = ground arith

  registered-new :
      (t entry : ℕ) (name : List ℕ) (is_user : Bool) (v : V) (s : Scheduler V)
      → (((registered t entry name is_user v s).tasks t).id ≡ s.next_task_id)
        × (is_runnable ((registered t entry name is_user v s).tasks t) ≡ true)
  unfolding new_task
  registered-new t entry name is_user v s = (ground arith, ground arith)

  Stacked-IsCreated :
      (t : ℕ) (ts : List ℕ) (entry : ℕ) (name : List ℕ) (is_user : Bool) (v : V)
      (s s2 : Scheduler V)
      → IsQueue s ts
      → t ≢ null
      → elem t ts ≡ false
      → Stacked t (registered t entry name is_user v s) s2
      → IsCreated t ts s (link_task t s2)
  Stacked-IsCreated t ts entry name is_user v s s2 q nz e w =
      let s1 = registered t entry name is_user v s in
      let next = registered-next t entry name is_user v s in
      let (id, runnable) = registered-new t entry name is_user v s in
      let outside : (x : ℕ) → elem x ts ≡ true → (s2.tasks x).next ≡ (s.tasks x).next =
        λ x i. w.next x ∙ next x ∙ rw (apart x t ts i e) refl in
      let queue : IsQueue s2 ts = record {
        links =
            subst (λ p. Links s2.tasks p ts) (sym w.head)
              (Links-congr s.tasks s2.tasks s.task_list_head ts outside q.links);
        distinct = q.distinct;
        tail = w.tail ∙ q.tail;
      } in
      record {
        queue = link_task-IsQueue t ts s2 queue (w.next t ∙ next t ∙ ground arith) nz e;
        current = (link_task-kept t s2).0 ∙ w.current;
        id = ap (λ k. k.id) (link_task-others t s2 t) ∙ w.id ∙ id;
        next_id = (link_task-kept t s2).1 ∙ w.next_id;
        runnable = ap is_runnable (link_task-others t s2 t) ∙ w.runnable ∙ runnable;
        others = λ x ne.
            link_task-others t s2 x
            ∙ ap unlinked (w.others x ne)
            ∙ ap (λ b. unlinked (if b then new_task entry name is_user s else s.tasks x))
                (ne→== x t ne);
      }
    where
      apart : (x t : ℕ) (ts : List ℕ) → elem x ts ≡ true → elem t ts ≡ false → (x == t) ≡ false
      apart x t ts i e = elim (Bool-cases (x == t)) [
        | inl same ↦
            let inside : elem t ts ≡ true = subst (λ z. elem z ts ≡ true) (==→eq x t same) i in
            let clash : true ≡ false = sym inside ∙ e in absurd (cc clash)
        | inr other ↦ other
      ]

  -- `scheduler_create_task` of a name that fits its 32 bytes with the 0 behind it appends its task to the
  -- list, where `kmalloc` gives an address that is not null and not in the list: the list stays well formed, the task takes the next id and can run, the
  -- current task stays, and every other task keeps all but its link.
  pub create_task_lem :
      (ops : Kernel V) (fns : Entries) (entry : ℕ) (name : List ℕ) (is_user : Bool)
      (s : Scheduler V) (ts : List ℕ)
      → length name < 32
      → IsQueue s ts
      → (ops.kmalloc task_size s.kernel).0 ≢ null
      → elem (ops.kmalloc task_size s.kernel).0 ts ≡ false
      → IsCreated
          (create_task ops fns entry name is_user s).0
          ts
          s
          (create_task ops fns entry name is_user s).1
  unfolding create_task
  create_task_lem ops fns entry name true s ts short q nz e =
      let (t, v) = ops.kmalloc task_size s.kernel in
      Stacked-IsCreated t ts entry name true v s
        (user_task ops fns entry t (registered t entry name true v s)) q nz e
        (user_task-Stacked ops fns entry t (registered t entry name true v s))
  create_task_lem ops fns entry name false s ts short q nz e =
      let (t, v) = ops.kmalloc task_size s.kernel in
      Stacked-IsCreated t ts entry name false v s
        (kernel_task ops fns entry t (registered t entry name false v s)) q nz e
        (kernel_task-Stacked ops fns entry t (registered t entry name false v s))

  -- The two tasks at the start, `kernel_main` and the idle task.
  pub record IsStarted (main idle : ℕ) (out : Scheduler V) : Type 0 where
    pub queue : IsQueue out (main ∷ idle ∷ [])
    pub current : out.current_task ≡ main
    pub idle_task : out.idle_task ≡ idle
    pub runnable : is_runnable (out.tasks idle) ≡ true

  add_main-IsQueue :
      (t : ℕ) (v : V) (s : Scheduler V) → t ≢ null → IsQueue (add_main t v s) (t ∷ [])
  unfolding add_main
  add_main-IsQueue t v s nz = record {
    links = (refl, nz, ground arith);
    distinct = (refl, tt);
    tail = refl;
  }

  add_main-kept :
      (t : ℕ) (v : V) (s : Scheduler V)
      → ((add_main t v s).current_task ≡ t) × ((add_main t v s).kernel ≡ v)
  unfolding add_main
  add_main-kept t v s = (refl, refl)

  abbrev finished : ℕ × Scheduler V → Scheduler V
  finished r = record r.1 { idle_task = r.0 }

  create_task-address :
      (ops : Kernel V) (fns : Entries) (entry : ℕ) (name : List ℕ) (is_user : Bool)
      (s : Scheduler V)
      → (create_task ops fns entry name is_user s).0 ≡ (ops.kmalloc task_size s.kernel).0
  unfolding create_task
  create_task-address ops fns entry name is_user s = refl

  finished-IsStarted :
      (main idle : ℕ) (s : Scheduler V) (r : ℕ × Scheduler V)
      → r.0 ≡ idle
      → s.current_task ≡ main
      → IsCreated r.0 (main ∷ []) s r.1
      → IsStarted main idle (finished r)
  finished-IsStarted main idle s r at c w = record {
    queue =
        subst (λ t. IsQueue (finished r) (main ∷ t ∷ [])) at
          (record { links = w.queue.links; distinct = w.queue.distinct; tail = w.queue.tail });
    current = w.current ∙ c;
    idle_task = at;
    runnable = subst (λ t. is_runnable (r.1.tasks t) ≡ true) at w.runnable;
  }

  -- After `scheduler_init`, where its two calls of `kmalloc` for tasks give two different addresses that
  -- are not null, the list is the kernel's task and the idle task, which can run, and the kernel's task is
  -- the current one.
  pub init_lem :
      (ops : Kernel V) (fns : Entries) (s : Scheduler V) (main idle : ℕ) (v v' : V)
      → ops.kmalloc task_size s.kernel ≡ (main, v)
      → ops.kmalloc task_size v ≡ (idle, v')
      → main ≢ null
      → idle ≢ null
      → idle ≢ main
      → IsStarted main idle (init ops fns s)
  unfolding init
  init_lem ops fns s main idle v v' e e' nz nz' ne =
      let s1 = add_main main v s in
      let r = create_task ops fns fns.idle_function (codes "idle") false s1 in
      let (current, kernel) = add_main-kept main v s in
      let at : (ops.kmalloc task_size s1.kernel).0 ≡ idle =
        ap (λ w. (ops.kmalloc task_size w).0) kernel ∙ ap (λ k. k.0) e' in
      let other : elem idle (main ∷ []) ≡ false = ground arith in
      subst
        (λ k. IsStarted main idle (
          finished
            (create_task ops fns fns.idle_function (codes "idle") false (add_main k.0 k.1 s))))
        (sym e)
        (finished-IsStarted main idle s1 r
          (create_task-address ops fns fns.idle_function (codes "idle") false s1 ∙ at) current
          (create_task_lem ops fns fns.idle_function (codes "idle") false s1 (main ∷ [])
            (omega arith) (add_main-IsQueue main v s nz) (λ z. nz' (sym at ∙ z))
            (ap (λ t. elem t (main ∷ [])) at ∙ other)))
