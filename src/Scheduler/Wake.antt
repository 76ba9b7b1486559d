-- ===== src/Scheduler/Wake.antt =====
-- The first loop of `timer_handler` in src/kernel/scheduler.cpp wakes the tasks whose time is up.
use trieternal_x_os.Base.{
  ℕ, zero, suc, ◌-◌, ◌^◌, ◌≤◌, ◌<◌, ◌≡◌, inl, inr, refl, ◌∙◌, true, some, List, [], ◌∷◌, arith, ltb,
  if◌then◌else◌, Bool-cases, length, update, ne→==,
}
use trieternal_x_os.Scheduler.{Task, null, wake_task, wake}
use trieternal_x_os.Scheduler.Links.{Links, Links-congr, elem, Distinct}

pub wake_task-next : (t : Task) → (wake_task t).next ≡ t.next
unfolding wake_task
wake_task-next t = ground arith

-- The walk reaches each task of the list once, and no other.
pub wake_lem :
    (fuel p : ℕ) (ts : List ℕ) (tasks : ℕ → Task)
    → Links tasks p ts
    → Distinct ts
    → length ts < fuel
    → (out : ℕ → Task) × (wake fuel p tasks ≡ some out)
      × ((x : ℕ) → out x ≡ (if elem x ts then wake_task (tasks x) else tasks x))
unfolding wake
wake_lem zero p ts tasks l d f = absurd (omega arith)
wake_lem (suc fuel) p [] tasks l d f = (tasks, rw (l, wake) refl, λ x. refl)
wake_lem (suc fuel) p (a ∷ ts) tasks l d f =
    let tasks1 = update tasks a (wake_task (tasks a)) in
    let same : (x : ℕ) → (tasks1 x).next ≡ (tasks x).next =
      λ x. ground (arith, wake_task-next (tasks a)) in
    let (out, e, each) =
      wake_lem fuel (tasks a).next ts tasks1
        (Links-congr tasks tasks1 (tasks a).next ts (λ x _. same x) l.2) d.1 (omega arith) in
    (out, rw (l.0) (rw (ne→== a null l.1, wake) e), λ x. each x ∙ ground (arith, d.0))

-- `n` ticks of the clock for one task.
abbrev pub wake_times : ℕ → Task → Task
wake_times zero t = t
wake_times (suc n) t = wake_times n (wake_task t)

module _ (t : Task) (s : t.is_sleeping ≡ true) (pos : 0 < t.sleep_ticks)
    (small : t.sleep_ticks < 2 ^ 32) where
  ticks_lem : (wake_task t).sleep_ticks ≡ t.sleep_ticks - 1
  unfolding wake_task
  ticks_lem = ground arith

  asleep_lem : (wake_task t).is_sleeping ≡ ltb 1 t.sleep_ticks
  unfolding wake_task
  asleep_lem = ground arith

-- A task that sleeps for `ticks` more ticks, at least one, is asleep before they are over and awake
-- when they are over.
pub wake_times_lem :
    (n : ℕ) (t : Task)
    → t.is_sleeping ≡ true
    → 0 < t.sleep_ticks
    → t.sleep_ticks < 2 ^ 32
    → n ≤ t.sleep_ticks
    → (wake_times n t).is_sleeping ≡ ltb n t.sleep_ticks
wake_times_lem zero t s pos small le = s ∙ ground arith
wake_times_lem (suc n) t s pos small le =
    let ticks : (wake_task t).sleep_ticks ≡ t.sleep_ticks - 1 = ticks_lem t s pos small in
    let asleep : (wake_task t).is_sleeping ≡ ltb 1 t.sleep_ticks = asleep_lem t s pos small in
    elim (Bool-cases (ltb 1 t.sleep_ticks)) [
      | inl more ↦
          wake_times_lem n (wake_task t) (asleep ∙ more) (ground arith) (omega arith) (omega arith)
          ∙ ground arith
      | inr last ↦ let z : n ≡ 0 = ground arith in rw z (asleep ∙ ground arith)
    ]
