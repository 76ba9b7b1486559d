-- ===== src/Scheduler/Unlink.antt =====
-- Taking a task out of the list in `timer_handler` of src/kernel/scheduler.cpp.
use mathlib.Core.Path.{subst}
use trieternal_x_os.Base.{
  ℕ, ◌≡◌, ◌≢◌, inl, inr, refl, sym, ◌∙◌, ap, true, false, not, ◌&&◌, ◌||◌, List, [], ◌∷◌, ◌++◌,
  arith, ◌==◌, ==→eq, if◌then◌else◌, Bool-cases, update,
}
use trieternal_x_os.Scheduler.{Task, Kernel, Scheduler, null}
use trieternal_x_os.Scheduler.Tick.{release, unlink}
use trieternal_x_os.Scheduler.Links.{
  Links, Links-congr, Leads, elem, elem-append, Distinct, Distinct-IsApart, Links-split, last_or,
  IsQueue,
}

-- A task but for its link.
abbrev pub unlinked : Task → Task
unlinked t = record t { next = null }

-- What unlinking the task `a` behind `front` leaves alone.
pub record Unlinked {V : Type 0} (a : ℕ) (s out : Scheduler V) : Type 0 where
  pub current : out.current_task ≡ s.current_task
  pub idle : out.idle_task ≡ s.idle_task
  pub active : out.scheduler_active ≡ s.scheduler_active
  pub same : (x : ℕ) → x ≢ a → unlinked (out.tasks x) ≡ unlinked (s.tasks x)
  pub ended : (x : ℕ) → (out.tasks x).is_terminated ≡ (s.tasks x).is_terminated

module _ {V : Type 0} (ops : Kernel V) where
  -- The loop's body at a terminated task.
  abbrev pub freed : ℕ → ℕ → Scheduler V → Scheduler V
  freed prev t s = unlink ops prev t (record s {
    tasks =
        update s.tasks t
          (record (s.tasks t) { stack_base = 0; user_stack_base = 0; page_directory = null });
    kernel = release ops t (s.tasks t) s.kernel;
  })

  pub freed-Unlinked : (prev t : ℕ) (s : Scheduler V) → Unlinked t s (freed prev t s)
  unfolding unlink
  freed-Unlinked prev t s = record {
    current = ground arith;
    idle = ground arith;
    active = ground arith;
    same = λ x ne. ground arith;
    ended = λ x. ground arith;
  }

  pub freed-next :
      (prev t : ℕ) (s : Scheduler V) (x : ℕ)
      → ((freed prev t s).tasks x).next
        ≡ (if not (prev == null) && (x == prev) then (s.tasks t).next else (s.tasks x).next)
  unfolding unlink
  freed-next prev t s x = ground arith

  pub freed-head :
      (prev t : ℕ) (s : Scheduler V)
      → (freed prev t s).task_list_head
        ≡ (if prev == null then (s.tasks t).next else s.task_list_head)
  unfolding unlink
  freed-head prev t s = ground arith

  pub freed-tail :
      (prev t : ℕ) (s : Scheduler V)
      → (freed prev t s).task_list_tail ≡ (if t == s.task_list_tail then prev else s.task_list_tail)
  unfolding unlink
  freed-tail prev t s = ground arith

pub last_or-elem : (d : ℕ) (front : List ℕ) → elem (last_or d front) (d ∷ front) ≡ true
last_or-elem d [] = ground arith
last_or-elem d (x ∷ front) = ground (arith, last_or-elem x front)

pub last_or-append :
    (d : ℕ) (front rest : List ℕ) → last_or d (front ++ rest) ≡ last_or (last_or d front) rest
last_or-append d [] rest = refl
last_or-append d (x ∷ front) rest = last_or-append x front rest

last_or-ne :
    (tasks : ℕ → Task) (p d a : ℕ) (front : List ℕ)
    → d ≢ null
    → Leads tasks p front a
    → last_or d front ≢ null
last_or-ne tasks p d a [] nz l = nz
last_or-ne tasks p d a (x ∷ front) nz l = last_or-ne tasks (tasks x).next x a front l.1 l.2

pub disjoint :
    (x : ℕ) (front rest : List ℕ)
    → Distinct (front ++ rest)
    → elem x front ≡ true
    → elem x rest ≡ true
    → ⊥
disjoint x [] rest d e r = cc e
disjoint x (y ∷ front) rest d e r = elim (Bool-cases (x == y)) [
  | inl same ↦
      let in_rest : elem y rest ≡ true = subst (λ z. elem z rest ≡ true) (==→eq x y same) r in
      let whole = elem-append y front rest in ground (arith, d.0)
  | inr other ↦ disjoint x front rest d.1 (ground arith) r
]

-- Taking `t` out behind the last of the tasks `x`, `front`.
relink :
    (tasks tasks' : ℕ → Task) (p x : ℕ) (front : List ℕ) (t : ℕ) (rest : List ℕ)
    → ((y : ℕ)
        → (tasks' y).next ≡ (if y == last_or x front then (tasks t).next else (tasks y).next))
    → Distinct (x ∷ front ++ t ∷ rest)
    → Links tasks p (x ∷ front ++ t ∷ rest)
    → Links tasks' p (x ∷ front ++ rest)
relink tasks tasks' p x [] t rest new d l =
    let next : (tasks' x).next ≡ (tasks t).next = new x ∙ ground arith in
    (
      l.0,
      l.1,
      subst (λ n. Links tasks' n rest) (sym next)
          (Links-congr tasks tasks' (tasks t).next rest (λ y e. new y ∙ ground (arith, d.0)) l.2.2),
    )
relink tasks tasks' p x (y ∷ front) t rest new d l =
    let inside = last_or-elem y front in
    let e = elem-append x (y ∷ front) (t ∷ rest) in
    let next : (tasks' x).next ≡ (tasks x).next =
      new x
      ∙ apart x (last_or y front) (y ∷ front) (t ∷ rest) (tasks t).next (tasks x).next d.0 inside
          e in
    (
      l.0,
      l.1,
      subst (λ n. Links tasks' n (y ∷ front ++ rest)) (sym next)
          (relink tasks tasks' (tasks x).next y front t rest new d.1 l.2),
    )
  where
    apart :
        (x k : ℕ) (xs ys : List ℕ) (m n : ℕ)
        → elem x (xs ++ ys) ≡ false
        → elem k xs ≡ true
        → elem x (xs ++ ys) ≡ (elem x xs || elem x ys)
        → (if x == k then m else n) ≡ n
    apart x k xs ys m n out inside e = elim (Bool-cases (x == k)) [
      | inl same ↦
          let x_in : elem x xs ≡ true =
            subst (λ z. elem z xs ≡ true) (sym (==→eq x k same)) inside in
          absurd (ground arith)
      | inr other ↦ rw other refl
    ]

-- The tail without `t`.
new_tail :
    (t prev : ℕ) (rest : List ℕ)
    → elem t rest ≡ false
    → (if t == last_or t rest then prev else last_or t rest) ≡ last_or prev rest
new_tail t prev [] e = ground arith
new_tail t prev (r ∷ rest) e =
    let inside = last_or-elem r rest in
    elim (Bool-cases (t == last_or r rest)) [
      | inl same ↦
          let t_in : elem t (r ∷ rest) ≡ true =
            subst (λ z. elem z (r ∷ rest) ≡ true) (sym (==→eq t (last_or r rest) same)) inside in
          let clash : false ≡ true = sym e ∙ t_in in absurd (cc clash)
      | inr other ↦ rw other refl
    ]

module _ {V : Type 0} (ops : Kernel V) where
  -- Taking a task out leaves the list of the others.
  pub freed-IsQueue :
      (front : List ℕ) (t : ℕ) (rest : List ℕ) (s : Scheduler V)
      → IsQueue s (front ++ t ∷ rest)
      → IsQueue (freed ops (last_or null front) t s) (front ++ rest)
  freed-IsQueue front t rest s q = record {
    links = links_lem front q.links q.distinct;
    distinct = (Distinct-IsApart front t rest q.distinct).rest;
    tail = tail_lem;
  }
    where
      links_lem :
          (front : List ℕ)
          → Links s.tasks s.task_list_head (front ++ t ∷ rest)
          → Distinct (front ++ t ∷ rest)
          → Links
              (freed ops (last_or null front) t s).tasks
              (freed ops (last_or null front) t s).task_list_head
              (front ++ rest)
      links_lem [] l d =
          subst (λ n. Links (freed ops null t s).tasks n rest) (sym (freed-head ops null t s))
            (Links-congr s.tasks (freed ops null t s).tasks (s.tasks t).next rest
              (λ x e. freed-next ops null t s x) l.2)
      links_lem (x ∷ front) l d =
          let prev = last_or x front in
          let split = Links-split s.tasks s.task_list_head (x ∷ front) t rest l in
          let nz = last_or-ne s.tasks (s.tasks x).next x t front l.1 split.0.2 in
          let head : (freed ops prev t s).task_list_head ≡ s.task_list_head =
            freed-head ops prev t s ∙ ground arith in
          subst (λ n. Links (freed ops prev t s).tasks n (x ∷ front ++ rest)) (sym head)
            (relink s.tasks (freed ops prev t s).tasks s.task_list_head x front t rest
              (λ y. freed-next ops prev t s y ∙ ground arith) d l)

      tail_lem : (freed ops (last_or null front) t s).task_list_tail ≡ last_or null (front ++ rest)
      tail_lem =
          freed-tail ops (last_or null front) t s
          ∙ ap (λ k. if t == k then last_or null front else k)
              (q.tail ∙ last_or-append null front (t ∷ rest))
          ∙ new_tail t (last_or null front) rest (Distinct-IsApart front t rest q.distinct).not_back
          ∙ sym (last_or-append null front rest)
