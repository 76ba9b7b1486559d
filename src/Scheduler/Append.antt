-- ===== src/Scheduler/Append.antt =====
-- `scheduler_create_task` of src/kernel/scheduler.cpp puts its task at the end of the list.
use mathlib.Core.Path.{subst}
use trieternal_x_os.Base.{
  ℕ, ◌≡◌, ◌≢◌, inl, inr, refl, sym, ◌∙◌, ap, true, false, List, [], ◌∷◌, ◌++◌, arith, ◌==◌,
  if◌then◌else◌, Bool-cases, ==→eq,
}
use trieternal_x_os.Scheduler.{Task, Scheduler, null, link_task}
use trieternal_x_os.Scheduler.Links.{Links, elem, elem-append, Distinct, last_or, IsQueue}
use trieternal_x_os.Scheduler.Unlink.{last_or-elem, last_or-append, unlinked}

Distinct-snoc : (ts : List ℕ) (t : ℕ) → Distinct ts → elem t ts ≡ false → Distinct (ts ++ t ∷ [])
Distinct-snoc [] t d e = (refl, tt)
Distinct-snoc (a ∷ ts) t d e =
    let split = elem-append a ts (t ∷ []) in
    (ground (arith, d.0), Distinct-snoc ts t d.1 (ground arith))

-- Another task than the last one.
not_last : (x : ℕ) (a : ℕ) (ts : List ℕ) → elem x (a ∷ ts) ≡ false → (x == last_or a ts) ≡ false
not_last x a ts e = elim (Bool-cases (x == last_or a ts)) [
  | inl same ↦
      let inside : elem x (a ∷ ts) ≡ true =
        subst (λ z. elem z (a ∷ ts) ≡ true) (sym (==→eq x (last_or a ts) same))
          (last_or-elem a ts) in
      let clash : true ≡ false = sym inside ∙ e in absurd (cc clash)
  | inr other ↦ other
]

-- The link of the last task of `a`, `ts` is set to `t`.
Links-snoc :
    (tasks tasks' : ℕ → Task) (p a : ℕ) (ts : List ℕ) (t : ℕ)
    → ((y : ℕ) → (tasks' y).next ≡ (if y == last_or a ts then t else (tasks y).next))
    → Distinct (a ∷ ts)
    → elem t (a ∷ ts) ≡ false
    → t ≢ null
    → (tasks t).next ≡ null
    → Links tasks p (a ∷ ts)
    → Links tasks' p (a ∷ ts ++ t ∷ [])
Links-snoc tasks tasks' p a [] t new d e nz z l =
    let next : (tasks' a).next ≡ t = new a ∙ ground arith in
    (l.0, l.1, (next, nz, new t ∙ ground arith))
Links-snoc tasks tasks' p a (b ∷ ts) t new d e nz z l =
    let next : (tasks' a).next ≡ (tasks a).next = new a ∙ rw (not_last a b ts d.0) refl in
    (
      l.0,
      l.1,
      subst (λ n. Links tasks' n (b ∷ ts ++ t ∷ [])) (sym next)
          (Links-snoc tasks tasks' (tasks a).next b ts t new d.1 (ground arith) nz z l.2),
    )

last_or-nz :
    (tasks : ℕ → Task) (p a : ℕ) (ts : List ℕ) → Links tasks p (a ∷ ts) → last_or a ts ≢ null
last_or-nz tasks p a [] l = l.1
last_or-nz tasks p a (b ∷ ts) l = last_or-nz tasks (tasks a).next b ts l.2

module _ {V : Type 0} where
  link_task-next :
      (t : ℕ) (s : Scheduler V) (x : ℕ)
      → s.task_list_tail ≢ null
      → ((link_task t s).tasks x).next ≡ (if x == s.task_list_tail then t else (s.tasks x).next)
  unfolding link_task
  link_task-next t s x nz = ground arith

  link_task-head :
      (t : ℕ) (s : Scheduler V)
      → s.task_list_tail ≢ null
      → (link_task t s).task_list_head ≡ s.task_list_head
  unfolding link_task
  link_task-head t s nz = ground arith

  link_task-tail : (t : ℕ) (s : Scheduler V) → (link_task t s).task_list_tail ≡ t
  unfolding link_task
  link_task-tail t s = ground arith

  link_task-first :
      (t : ℕ) (s : Scheduler V)
      → s.task_list_tail ≡ null
      → ((link_task t s).task_list_head ≡ t) × (((link_task t s).tasks t).next ≡ (s.tasks t).next)
  unfolding link_task
  link_task-first t s z = (ground arith, ground arith)

  pub link_task-IsQueue :
      (t : ℕ) (ts : List ℕ) (s : Scheduler V)
      → IsQueue s ts
      → (s.tasks t).next ≡ null
      → t ≢ null
      → elem t ts ≡ false
      → IsQueue (link_task t s) (ts ++ t ∷ [])
  link_task-IsQueue t [] s q z nz e =
      let (head, next) = link_task-first t s q.tail in
      record { links = (head, nz, next ∙ z); distinct = (refl, tt); tail = link_task-tail t s }
  link_task-IsQueue t (a ∷ ts) s q z nz e =
      let full : s.task_list_tail ≢ null =
        λ k. last_or-nz s.tasks s.task_list_head a ts q.links (sym q.tail ∙ k) in
      record {
        links =
            subst (λ p. Links (link_task t s).tasks p (a ∷ ts ++ t ∷ []))
              (sym (link_task-head t s full))
              (Links-snoc s.tasks (link_task t s).tasks s.task_list_head a ts t
                (λ y.
                  link_task-next t s y full
                  ∙ ap (λ k. if y == k then t else (s.tasks y).next) q.tail)
                q.distinct e nz z q.links);
        distinct = Distinct-snoc (a ∷ ts) t q.distinct e;
        tail = link_task-tail t s ∙ sym (last_or-append null (a ∷ ts) (t ∷ []));
      }

  pub link_task-others :
      (t : ℕ) (s : Scheduler V) (x : ℕ) → unlinked ((link_task t s).tasks x) ≡ unlinked (s.tasks x)
  unfolding link_task
  link_task-others t s x = ground arith

  pub link_task-kept :
      (t : ℕ) (s : Scheduler V)
      → ((link_task t s).current_task ≡ s.current_task)
        × ((link_task t s).next_task_id ≡ s.next_task_id)
  unfolding link_task
  link_task-kept t s = (ground arith, ground arith)
