-- ===== src/Scheduler/Links.antt =====
-- The task list of src/kernel/scheduler.cpp as a list of addresses.
use mathlib.Core.Path.{subst}
use trieternal_x_os.Base.{
  ℕ, ◌≡◌, ◌≢◌, refl, sym, Bool, true, false, ◌||◌, List, [], ◌∷◌, ◌++◌, arith, ◌==◌,
}
use trieternal_x_os.Scheduler.{Task, Scheduler, null}

-- From `p` the links lead through the tasks of the list, and end.
abbrev pub Links : (ℕ → Task) → ℕ → List ℕ → Type 0
Links tasks p [] = p ≡ null
Links tasks p (a ∷ ts) = (p ≡ a) × (a ≢ null) × Links tasks (tasks a).next ts

abbrev pub elem : ℕ → List ℕ → Bool
elem x [] = false
elem x (a ∷ ts) = x == a || elem x ts

abbrev pub Distinct : List ℕ → Type 0
Distinct [] = Unit {0}
Distinct (a ∷ ts) = (elem a ts ≡ false) × Distinct ts

-- The last task, or the null pointer.
abbrev pub last_or : ℕ → List ℕ → ℕ
last_or d [] = d
last_or d (a ∷ ts) = last_or a ts

-- The list from the head to the tail.
pub record IsQueue {V : Type 0} (s : Scheduler V) (ts : List ℕ) : Type 0 where
  pub links : Links s.tasks s.task_list_head ts
  pub distinct : Distinct ts
  pub tail : s.task_list_tail ≡ last_or null ts

pub Links-congr :
    (tasks tasks' : ℕ → Task) (p : ℕ) (ts : List ℕ)
    → ((x : ℕ) → elem x ts ≡ true → (tasks' x).next ≡ (tasks x).next)
    → Links tasks p ts
    → Links tasks' p ts
Links-congr tasks tasks' p [] same l = l
Links-congr tasks tasks' p (a ∷ ts) same l = (
  l.0,
  l.1,
  Links-congr tasks tasks' (tasks' a).next ts (λ x e. same x (ground arith))
      (subst (λ n. Links tasks n ts) (sym (same a (ground arith))) l.2),
)

pub elem-append : (x : ℕ) (ts bs : List ℕ) → elem x (ts ++ bs) ≡ (elem x ts || elem x bs)
elem-append x [] bs = refl
elem-append x (a ∷ ts) bs = ground (arith, elem-append x ts bs)

-- Distinct addresses around one of them.
pub record IsApart (front : List ℕ) (a : ℕ) (back : List ℕ) : Type 0 where
  pub not_front : elem a front ≡ false
  pub not_back : elem a back ≡ false
  pub rest : Distinct (front ++ back)

pub Distinct-IsApart :
    (front : List ℕ) (a : ℕ) (back : List ℕ) → Distinct (front ++ a ∷ back) → IsApart front a back
Distinct-IsApart [] a back d = record { not_front = refl; not_back = d.0; rest = d.1 }
Distinct-IsApart (x ∷ front) a back d =
    let r = Distinct-IsApart front a back d.1 in
    let e = elem-append x front (a ∷ back) in
    let e' = elem-append x front back in
    record {
      not_front = ground (arith, r.not_front);
      not_back = r.not_back;
      rest = (ground arith, r.rest);
    }

-- The links up to the task `a`, and those behind it.
abbrev pub Leads : (ℕ → Task) → ℕ → List ℕ → ℕ → Type 0
Leads tasks p [] a = p ≡ a
Leads tasks p (x ∷ xs) a = (p ≡ x) × (x ≢ null) × Leads tasks (tasks x).next xs a

pub Links-split :
    (tasks : ℕ → Task) (p : ℕ) (front : List ℕ) (a : ℕ) (back : List ℕ)
    → Links tasks p (front ++ a ∷ back)
    → Leads tasks p front a × (a ≢ null) × Links tasks (tasks a).next back
Links-split tasks p [] a back l = l
Links-split tasks p (x ∷ front) a back l =
    let r = Links-split tasks (tasks x).next front a back l.2 in ((l.0, l.1, r.0), r.1, r.2)
