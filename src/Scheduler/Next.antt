-- ===== src/Scheduler/Next.antt =====
-- `get_next_task` of src/kernel/scheduler.cpp goes round the list.
use trieternal_x_os.Base.{
  ℕ, zero, suc, ◌+◌, ◌<◌, ◌≡◌, ◌≢◌, inl, inr, refl, ◌∙◌, true, false, Option, none, some, List, [],
  ◌∷◌, ◌++◌, arith, ◌==◌, if◌then◌else◌, Bool-cases, length, eq→==, ne→==,
}
use trieternal_x_os.Scheduler.{Task, Scheduler, null, is_runnable, search_next, get_next_task}
use trieternal_x_os.Scheduler.Links.{Links, Leads, elem, Distinct, Distinct-IsApart, Links-split}

-- The first task of the list that can run, or `d`.
abbrev pub first_runnable : (ℕ → Task) → ℕ → List ℕ → ℕ
first_runnable tasks d [] = d
first_runnable tasks d (a ∷ rest) =
    let other = first_runnable tasks d rest in if is_runnable (tasks a) then a else other

-- The task that runs next: from behind the current one on round the list, then the current one, then
-- the idle task.
abbrev pub next_in : {V : Type 0} → Scheduler V → List ℕ → List ℕ → ℕ
next_in s front back =
    first_runnable s.tasks
      (if is_runnable (s.tasks s.current_task) then s.current_task else s.idle_task) (back ++ front)

module _ {V : Type 0} (s : Scheduler V) where
  abbrev finish : ℕ
  finish = if is_runnable (s.tasks s.current_task) then s.current_task else s.idle_task

  -- What `get_next_task` makes of the result of its search.
  abbrev chosen : Option (Option ℕ) → Option ℕ
  chosen o = elim o [ none ↦ none | some (some t) ↦ some t | some none ↦ some finish ]

  abbrev wrap : ℕ → ℕ
  wrap p = if p == null then s.task_list_head else p

  Leads-ne : (p : ℕ) (front : List ℕ) (a : ℕ) → a ≢ null → Leads s.tasks p front a → p ≢ null
  Leads-ne p [] a nz l = omega arith
  Leads-ne p (x ∷ front) a nz l = omega (arith, l.0, l.1)

  -- One step of the search.
  search-hit :
      (fuel a : ℕ)
      → a ≢ s.current_task
      → is_runnable (s.tasks a) ≡ true
      → search_next (suc fuel) a s ≡ some (some a)
  unfolding search_next
  search-hit fuel a ne r = rw (ne→== a s.current_task ne, search_next) (rw (r, search_next) refl)

  search-step :
      (fuel a : ℕ)
      → a ≢ s.current_task
      → is_runnable (s.tasks a) ≡ false
      → search_next (suc fuel) a s ≡ search_next fuel (wrap (s.tasks a).next) s
  unfolding search_next
  search-step fuel a ne r = rw (ne→== a s.current_task ne, search_next) (rw (r, search_next) refl)

  module _ (nz : s.current_task ≢ null) where
    -- In front of the current task.
    search-front :
        (front : List ℕ) (fuel p : ℕ)
        → Leads s.tasks p front s.current_task
        → elem s.current_task front ≡ false
        → length front < fuel
        → chosen (search_next fuel p s) ≡ some (first_runnable s.tasks finish front)
    unfolding search_next
    search-front front zero p l e f = absurd (omega arith)
    search-front [] (suc fuel) p l e f = rw (eq→== p s.current_task l, search_next) refl
    search-front (a ∷ front) (suc fuel) p l e f =
        let ne : a ≢ s.current_task = ground (arith, e) in
        let more = Leads-ne (s.tasks a).next front s.current_task nz l.2 in
        rw (l.0) (elim (Bool-cases (is_runnable (s.tasks a))) [
          | inl r ↦ rw (search-hit fuel a ne r) (rw r refl)
          | inr r ↦ rw (search-step fuel a ne r) (
              rw (ne→== (s.tasks a).next null more) (
                search-front front fuel (s.tasks a).next l.2 (ground (arith, e)) (omega arith)
                ∙ rw r refl))
        ])

    -- Behind the current task, and then from the head of the list on.
    search-back :
        (back front : List ℕ) (fuel p : ℕ)
        → Links s.tasks p back
        → elem s.current_task back ≡ false
        → Leads s.tasks s.task_list_head front s.current_task
        → elem s.current_task front ≡ false
        → length back + length front < fuel
        → chosen (search_next fuel (wrap p) s)
          ≡ some (first_runnable s.tasks finish (back ++ front))
    search-back [] front fuel p l e m e' f =
        rw (eq→== p null l) (search-front front fuel s.task_list_head m e' (omega arith))
    search-back (a ∷ back) front zero p l e m e' f = absurd (omega arith)
    search-back (a ∷ back) front (suc fuel) p l e m e' f =
        let ne : a ≢ s.current_task = ground (arith, e) in
        rw (l.0) (
          rw (ne→== a null l.1) (elim (Bool-cases (is_runnable (s.tasks a))) [
            | inl r ↦ rw (search-hit fuel a ne r) (rw r refl)
            | inr r ↦ rw (search-step fuel a ne r) (
                search-back back front fuel (s.tasks a).next l.2 (ground (arith, e)) m e'
                  (omega arith)
                ∙ rw r refl)
          ]))

-- With the current task in the list, `get_next_task` ends, and gives the first task behind it round the
-- list that can run, else the current task if it can run, else the idle task.
pub get_next_task_lem :
    {V : Type 0} (fuel : ℕ) (s : Scheduler V) (front back : List ℕ)
    → Links s.tasks s.task_list_head (front ++ s.current_task ∷ back)
    → Distinct (front ++ s.current_task ∷ back)
    → length back + length front < fuel
    → get_next_task fuel s ≡ some (next_in s front back)
unfolding get_next_task
get_next_task_lem fuel s front back l d f =
    let (m, nz, b) = Links-split s.tasks s.task_list_head front s.current_task back l in
    let apart = Distinct-IsApart front s.current_task back d in
    rw (ne→== s.current_task null nz, get_next_task)
      (search-back s nz back front fuel (s.tasks s.current_task).next b apart.not_back m
        apart.not_front f)
