-- ===== src/Scheduler/Round.antt =====
-- The end of `timer_handler` in src/kernel/scheduler.cpp: it saves the stack pointer of the current task and
-- goes over to the next one.
use mathlib.Core.Path.{subst}
use trieternal_x_os.Base.{
  ℕ, ◌+◌, ◌≤◌, ◌<◌, ◌≡◌, ◌≢◌, ◌⊎◌, inl, inr, refl, sym, ◌∙◌, ap, Bool, true, false, ◌||◌, Option,
  none, some, List, [], ◌∷◌, ◌++◌, arith, ◌==◌, ==→eq, if◌then◌else◌, Bool-cases, length, update,
  ne→==,
}
use trieternal_x_os.Scheduler.{Task, Kernel, Scheduler, null, is_runnable, get_next_task}
use trieternal_x_os.Scheduler.Links.{Links, Links-congr, Links-split, elem, elem-append, IsQueue}
use trieternal_x_os.Scheduler.Next.{first_runnable, next_in, get_next_task_lem}
use trieternal_x_os.Scheduler.Reap.{is_dead, alive}
use trieternal_x_os.Scheduler.Tick.{switch_to, schedule}

pub alive-append :
    {V : Type 0} (s : Scheduler V) (xs ys : List ℕ) → alive s (xs ++ ys) ≡ alive s xs ++ alive s ys
alive-append s [] ys = refl
alive-append s (x ∷ xs) ys = elim (Bool-cases (is_dead s x)) [
  | inl d ↦ rw d (alive-append s xs ys)
  | inr l ↦ rw l (ap (λ r. x ∷ r) (alive-append s xs ys))
]

pub alive-dead :
    {V : Type 0} (s : Scheduler V) (ts : List ℕ) (x : ℕ)
    → elem x (alive s ts) ≡ true
    → is_dead s x ≡ false
alive-dead s [] x e = cc e
alive-dead s (a ∷ ts) x e = elim (Bool-cases (is_dead s a)) [
  | inl d ↦ alive-dead s ts x (rw d at e)
  | inr l ↦ elim (Bool-cases (x == a)) [
    | inl same ↦ subst (λ z. is_dead s z ≡ false) (sym (==→eq x a same)) l
    | inr other ↦ alive-dead s ts x (later (rw l at e) other)
  ]
]
  where
    later : {rest : Bool} → ((x == a) || rest) ≡ true → (x == a) ≡ false → rest ≡ true
    later e f = ground arith

pub length-alive : {V : Type 0} (s : Scheduler V) (ts : List ℕ) → length (alive s ts) ≤ length ts
length-alive s [] = omega arith
length-alive s (a ∷ ts) = ground (arith, length-alive s ts)

pub first_runnable-congr :
    (tasks tasks' : ℕ → Task) (d : ℕ) (ts : List ℕ)
    → ((x : ℕ) → elem x ts ≡ true → is_runnable (tasks' x) ≡ is_runnable (tasks x))
    → first_runnable tasks' d ts ≡ first_runnable tasks d ts
first_runnable-congr tasks tasks' d [] same = refl
first_runnable-congr tasks tasks' d (a ∷ ts) same =
    rw
      (same a (ground arith), first_runnable-congr tasks tasks' d ts (λ x e. same x (ground arith)))
      refl

-- What is chosen is the default or one of the list.
pub first_runnable-cases :
    (tasks : ℕ → Task) (d : ℕ) (ts : List ℕ)
    → (first_runnable tasks d ts ≡ d) ⊎ (elem (first_runnable tasks d ts) ts ≡ true)
first_runnable-cases tasks d [] = inl refl
first_runnable-cases tasks d (a ∷ ts) = elim (Bool-cases (is_runnable (tasks a))) [
  | inl r ↦ rw r (inr (ground arith))
  | inr r ↦
      let skip : first_runnable tasks d (a ∷ ts) ≡ first_runnable tasks d ts = rw r refl in
      subst (λ k. (k ≡ d) ⊎ (elem k (a ∷ ts) ≡ true)) (sym skip)
        (longer (first_runnable tasks d ts) (first_runnable-cases tasks d ts))
]
  where
    longer : (k : ℕ) → (k ≡ d) ⊎ (elem k ts ≡ true) → (k ≡ d) ⊎ (elem k (a ∷ ts) ≡ true)
    longer k (inl e) = inl e
    longer k (inr e) = inr (ground (arith, e))

pub Links-ne :
    (tasks : ℕ → Task) (p : ℕ) (ts : List ℕ) (x : ℕ)
    → Links tasks p ts
    → elem x ts ≡ true
    → x ≢ null
Links-ne tasks p [] x l e = cc e
Links-ne tasks p (a ∷ ts) x l e = elim (Bool-cases (x == a)) [
  | inl same ↦ let eq : x ≡ a = ==→eq x a same in omega (arith, l.1)
  | inr other ↦ Links-ne tasks (tasks a).next ts x l.2 (ground arith)
]

module _ {V : Type 0} where
  -- The stack pointer of the current task is saved.
  abbrev save : ℕ → Scheduler V → Scheduler V
  save esp s = record s {
    tasks = update s.tasks s.current_task (record (s.tasks s.current_task) { esp = esp });
  }

  save-is_runnable :
      (esp : ℕ) (s : Scheduler V) (x : ℕ)
      → is_runnable ((save esp s).tasks x) ≡ is_runnable (s.tasks x)
  save-is_runnable esp s x = ground arith

  save-next : (esp : ℕ) (s : Scheduler V) (x : ℕ) → ((save esp s).tasks x).next ≡ (s.tasks x).next
  save-next esp s x = ground arith

  save-esp :
      (esp : ℕ) (s : Scheduler V) (x : ℕ)
      → ((save esp s).tasks x).esp ≡ (if x == s.current_task then esp else (s.tasks x).esp)
  save-esp esp s x = ground arith

  save-own :
      (esp : ℕ) (s : Scheduler V)
      → (save esp s).tasks s.current_task ≡ record (s.tasks s.current_task) { esp = esp }
  save-own esp s =
      let same : (s.current_task == s.current_task) ≡ true = ground arith in
      ap (λ b. if b then record (s.tasks s.current_task) { esp = esp } else s.tasks s.current_task)
        same

  save-next_in :
      (esp : ℕ) (s : Scheduler V) (front back : List ℕ)
      → next_in (save esp s) front back ≡ next_in s front back
  save-next_in esp s front back =
      ap (λ d. first_runnable (save esp s).tasks d (back ++ front))
        (ap (λ b. if b then s.current_task else s.idle_task)
          (save-is_runnable esp s s.current_task))
      ∙ first_runnable-congr s.tasks (save esp s).tasks
          (if is_runnable (s.tasks s.current_task) then s.current_task else s.idle_task)
          (back ++ front) (λ x e. save-is_runnable esp s x)

  -- What `schedule` comes to.
  pub record Scheduled (s : Scheduler V) (front back : List ℕ) (esp : ℕ) (out : ℕ × Scheduler V)
      : Type 0 where
    pub queue : IsQueue out.1 (front ++ s.current_task ∷ back)
    pub current : out.1.current_task ≡ next_in s front back
    pub stack : out.0 ≡ (
        if next_in s front back == s.current_task
        then esp
        else (s.tasks (next_in s front back)).esp)
    pub saved : (out.1.tasks s.current_task).esp ≡ esp
    pub own : out.1.tasks s.current_task ≡ record (s.tasks s.current_task) { esp = esp }
    pub others : (x : ℕ) → x ≢ s.current_task → out.1.tasks x ≡ s.tasks x

  -- The next task is the current one, the idle one or another of the list.
  pub next_in-cases :
      (s : Scheduler V) (front back : List ℕ)
      → (next_in s front back ≡ s.current_task)
        ⊎ ((next_in s front back ≡ s.idle_task)
            ⊎ (elem (next_in s front back) (back ++ front) ≡ true))
  next_in-cases s front back =
      elim (first_runnable-cases s.tasks
        (if is_runnable (s.tasks s.current_task) then s.current_task else s.idle_task)
        (back ++ front)) [
          | inl e ↦ elim (Bool-cases (is_runnable (s.tasks s.current_task))) [
            | inl r ↦ inl (e ∙ rw r refl)
            | inr r ↦ inr (inl (e ∙ rw r refl))
          ]
          | inr e ↦ inr (inr e)
        ]

  -- The end of the handler over the result of its search.
  abbrev pick :
      Kernel V → ℕ → Scheduler V → Scheduler V → Bool → Option ℕ → Option (ℕ × Scheduler V)
  pick ops esp s saved active o = elim active [
    | false ↦ some (esp, s)
    | true ↦ elim o [
      | none ↦ none
      | some t ↦ some (if t == null then (esp, saved) else switch_to ops t saved)
    ]
  ]

  abbrev kept : ℕ → Scheduler V → Bool → Scheduler V
  kept esp s no_task = if no_task then s else save esp s

  schedule-pick :
      (ops : Kernel V) (fuel esp : ℕ) (s : Scheduler V)
      → schedule ops fuel esp s
        ≡ pick ops esp s
            (kept esp s (s.current_task == null))
            s.scheduler_active
            (get_next_task fuel (kept esp s (s.current_task == null)))
  unfolding schedule
  schedule-pick ops fuel esp s = refl

  schedule-switch :
      (ops : Kernel V) (fuel esp t : ℕ) (s : Scheduler V)
      → s.current_task ≢ null
      → s.scheduler_active ≡ true
      → get_next_task fuel (save esp s) ≡ some t
      → t ≢ null
      → schedule ops fuel esp s ≡ some (switch_to ops t (save esp s))
  schedule-switch ops fuel esp t s nz active chosen found =
      schedule-pick ops fuel esp s
      ∙ ap
          (λ b.
            pick ops esp s (kept esp s b) s.scheduler_active (get_next_task fuel (kept esp s b)))
          (ne→== s.current_task null nz)
      ∙ ap (λ b. pick ops esp s (save esp s) b (get_next_task fuel (save esp s))) active
      ∙ ap (pick ops esp s (save esp s) true) chosen
      ∙ ap (λ b. some (if b then (esp, save esp s) else switch_to ops t (save esp s)))
          (ne→== t null found)

  pub schedule_lem :
      (ops : Kernel V) (fuel esp : ℕ) (s : Scheduler V) (front back : List ℕ)
      → IsQueue s (front ++ s.current_task ∷ back)
      → s.scheduler_active ≡ true
      → s.idle_task ≢ null
      → length back + length front < fuel
      → (out : ℕ × Scheduler V) × (schedule ops fuel esp s ≡ some out)
        × Scheduled s front back esp out
  unfolding switch_to
  schedule_lem ops fuel esp s front back q active idle f =
      let saved = save esp s in
      let (m, nz, b) = Links-split s.tasks s.task_list_head front s.current_task back q.links in
      let links =
        Links-congr s.tasks saved.tasks s.task_list_head (front ++ s.current_task ∷ back)
          (λ x e. save-next esp s x) q.links in
      let chosen =
        get_next_task_lem fuel saved front back links q.distinct f
        ∙ ap some (save-next_in esp s front back) in
      let member : elem (next_in s front back) (back ++ front) ≡ true
          → next_in s front back ≢ null =
        λ e.
          Links-ne s.tasks s.task_list_head (front ++ s.current_task ∷ back) (next_in s front back)
            q.links (around (next_in s front back) s.current_task front back e) in
      let found : next_in s front back ≢ null = elim (next_in-cases s front back) [
        | inl e ↦ λ z. nz (sym e ∙ z)
        | inr (inl e) ↦ λ z. idle (sym e ∙ z)
        | inr (inr e) ↦ member e
      ] in
      (
        switch_to ops (next_in s front back) saved,
        schedule-switch ops fuel esp (next_in s front back) s nz active chosen found,
        record {
          queue = record { links = links; distinct = q.distinct; tail = q.tail };
          current = refl;
          stack = save-esp esp s (next_in s front back);
          saved = save-esp esp s s.current_task ∙ ground arith;
          own = save-own esp s;
          others = λ x ne. ground arith;
        },
      )
    where
      around : (x a : ℕ) (xs ys : List ℕ) → elem x (ys ++ xs) ≡ true → elem x (xs ++ a ∷ ys) ≡ true
      around x a xs ys e =
          let e1 = elem-append x ys xs in let e2 = elem-append x xs (a ∷ ys) in ground arith
