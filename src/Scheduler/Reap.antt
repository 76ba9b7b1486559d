-- ===== src/Scheduler/Reap.antt =====
-- The second loop of `timer_handler` in src/kernel/scheduler.cpp takes terminated tasks out of the list.
use mathlib.Core.Path.{subst}
use mathlib.Core.List.{append_assoc}
use trieternal_x_os.Base.{
  ℕ, zero, suc, ◌<◌, ◌≡◌, ◌≢◌, ◌⊎◌, inl, inr, refl, sym, ◌∙◌, ap, Bool, true, false, not, ◌&&◌,
  some, List, [], ◌∷◌, ◌++◌, arith, ◌==◌, ==→eq, if◌then◌else◌, Bool-cases, length, ne→==,
}
use trieternal_x_os.Scheduler.{Kernel, Scheduler, null}
use trieternal_x_os.Scheduler.Tick.{reap}
use trieternal_x_os.Scheduler.Links.{
  Links, Links-congr, elem, Distinct, Distinct-IsApart, last_or, IsQueue,
}
use trieternal_x_os.Scheduler.Unlink.{
  unlinked, freed, freed-Unlinked, freed-next, last_or-elem, last_or-append, disjoint,
  freed-IsQueue,
}

-- A terminated task that does not run.
abbrev pub is_dead : {V : Type 0} → Scheduler V → ℕ → Bool
is_dead s a = (s.tasks a).is_terminated && not (a == s.current_task)

-- The tasks of a list that stay.
abbrev pub alive : {V : Type 0} → Scheduler V → List ℕ → List ℕ
alive s [] = []
alive s (a ∷ rest) = let others = alive s rest in if is_dead s a then others else a ∷ others

pub alive-congr :
    {V : Type 0} (s s' : Scheduler V) (rest : List ℕ)
    → ((x : ℕ) → is_dead s' x ≡ is_dead s x)
    → alive s' rest ≡ alive s rest
alive-congr s s' [] same = refl
alive-congr s s' (a ∷ rest) same = rw (same a, alive-congr s s' rest same) refl

module _ {V : Type 0} (ops : Kernel V) where
  -- What the loop leaves of the tasks `front`, which it has passed, and `rest`.
  pub record Reaped (front rest : List ℕ) (s out : Scheduler V) : Type 0 where
    pub queue : IsQueue out (front ++ alive s rest)
    pub current : out.current_task ≡ s.current_task
    pub idle : out.idle_task ≡ s.idle_task
    pub active : out.scheduler_active ≡ s.scheduler_active
    pub same : (x : ℕ) → is_dead s x ≡ false → unlinked (out.tasks x) ≡ unlinked (s.tasks x)

  other_task : (s : Scheduler V) (x a : ℕ) → is_dead s a ≡ true → is_dead s x ≡ false → x ≢ a
  other_task s x a d l e = let clash : true ≡ false = sym d ∙ ap (is_dead s) (sym e) ∙ l in cc clash

  -- The links of the tasks behind a freed one stay.
  freed_rest :
      (front : List ℕ) (t : ℕ) (rest : List ℕ) (s : Scheduler V)
      → Distinct (front ++ rest)
      → (x : ℕ) → elem x rest ≡ true
      → ((freed ops (last_or null front) t s).tasks x).next ≡ (s.tasks x).next
  freed_rest [] t rest s d x e = freed-next ops null t s x
  freed_rest (y ∷ front) t rest s d x e =
      freed-next ops (last_or y front) t s x
      ∙ not_last (Bool-cases (x == last_or y front)) (not (last_or y front == null))
    where
      not_last :
          ((x == last_or y front) ≡ true) ⊎ ((x == last_or y front) ≡ false)
          → (nz : Bool)
          → (if nz && (x == last_or y front) then (s.tasks t).next else (s.tasks x).next)
            ≡ (s.tasks x).next
      not_last (inl same) nz = absurd (
          disjoint x (y ∷ front) rest d
            (subst (λ z. elem z (y ∷ front) ≡ true) (sym (==→eq x (last_or y front) same))
              (last_or-elem y front))
            e)
      not_last (inr other) nz = rw other (ground arith)

  pub reap_lem :
      (fuel t : ℕ) (front rest : List ℕ) (s : Scheduler V)
      → IsQueue s (front ++ rest)
      → Links s.tasks t rest
      → length rest < fuel
      → (out : Scheduler V) × (reap ops fuel (last_or null front) t s ≡ some out)
        × Reaped front rest s out
  unfolding reap
  reap_lem zero t front rest s q l f = absurd (omega arith)
  reap_lem (suc fuel) t front [] s q l f = (
    s,
    rw (l, reap) refl,
    record { queue = q; current = refl; idle = refl; active = refl; same = λ x e. refl },
  )
  reap_lem (suc fuel) t front (a ∷ rest) s q l f = elim (Bool-cases (is_dead s a)) [
    | inl dead ↦
        let s1 = freed ops (last_or null front) a s in
        let u = freed-Unlinked ops (last_or null front) a s in
        let dead_is : (x : ℕ) → is_dead s1 x ≡ is_dead s x = λ x. rw (u.ended x, u.current) refl in
        let r =
          reap_lem fuel (s.tasks a).next front rest s1 (freed-IsQueue ops front a rest s q)
            (Links-congr s.tasks s1.tasks (s.tasks a).next rest
              (freed_rest front a rest s (Distinct-IsApart front a rest q.distinct).rest) l.2)
            (omega arith) in
        (
          r.0,
          rw (l.0) (rw (ne→== a null l.1, reap) (rw (dead, reap) r.1)),
          record {
            queue =
                subst (λ k. IsQueue r.0 (front ++ k))
                  (alive-congr s s1 rest dead_is ∙ sym (skip dead)) r.2.queue;
            current = r.2.current ∙ u.current;
            idle = r.2.idle ∙ u.idle;
            active = r.2.active ∙ u.active;
            same = λ x e. r.2.same x (dead_is x ∙ e) ∙ u.same x (other_task s x a dead e);
          },
        )
    | inr lives ↦
        let assoc : (bs : List ℕ) → (front ++ a ∷ []) ++ bs ≡ front ++ a ∷ bs =
          λ bs. append_assoc front (a ∷ []) bs in
        let r =
          reap_lem fuel (s.tasks a).next (front ++ a ∷ []) rest s
            (subst (IsQueue s) (sym (assoc rest)) q) l.2 (omega arith) in
        (
          r.0,
          rw (l.0) (
              rw (ne→== a null l.1, reap)
                (rw (lives, reap)
                  (subst (λ p. reap ops fuel p (s.tasks a).next s ≡ some r.0)
                    (last_or-append null front (a ∷ [])) r.1))),
          record {
            queue =
                subst (IsQueue r.0) (assoc (alive s rest) ∙ ap (λ k. front ++ k) (sym (keep lives)))
                  r.2.queue;
            current = r.2.current;
            idle = r.2.idle;
            active = r.2.active;
            same = r.2.same;
          },
        )
  ]
    where
      skip : is_dead s a ≡ true → alive s (a ∷ rest) ≡ alive s rest
      skip d = rw d refl

      keep : is_dead s a ≡ false → alive s (a ∷ rest) ≡ a ∷ alive s rest
      keep d = rw d refl
