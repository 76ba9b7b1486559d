-- ===== src/Ipc/Dequeue.antt =====
-- Unlinking the head of a mailbox of src/kernel/ipc.cpp takes the first entry off its queue.
use trieternal_x_os.Base.{
  ℕ, ◌+◌, ◌-◌, ◌%◌, ◌^◌, ◌<◌, ◌≡◌, ◌≢◌, inl, inr, sym, ◌∙◌, ap, true, false, none, List, [], ◌∷◌,
  arith, ◌==◌, if◌then◌else◌, Bool-cases, ==→eq, eq→==, update, length,
}
use trieternal_x_os.Ipc.{Message, Ipc, max_messages, free_message, dequeue}
use trieternal_x_os.Ipc.Links.{has, Links, last, has_self, Links-frame}
use trieternal_x_os.Ipc.Queues.{packet, packets, packets-congr, Holds}

-- What taking entry `x` off the head of mailbox `k` does, field by field.
pub record Dequeued (m : Ipc) (k x : ℕ) (n : Ipc) : Type 0 where
  entries : (j : ℕ) → j ≢ x → n.msg_pool j ≡ m.msg_pool j
  freed : (n.msg_pool x).used ≡ false
  boxes : (l : ℕ) → l ≢ k → n.mailboxes l ≡ m.mailboxes l
  box_used : (n.mailboxes k).used ≡ (m.mailboxes k).used
  box_head : (n.mailboxes k).head ≡ (m.msg_pool x).next
  tail_none : (m.msg_pool x).next ≡ none → (n.mailboxes k).tail ≡ none
  tail_kept : (m.msg_pool x).next ≢ none → (n.mailboxes k).tail ≡ (m.mailboxes k).tail
  box_count : (n.mailboxes k).count ≡ ((m.mailboxes k).count + 2 ^ 32 - 1) % 2 ^ 32

pub dequeue-Dequeued : (m : Ipc) (k x : ℕ) → Dequeued m k x (free_message (dequeue m k x) x)
unfolding free_message dequeue
dequeue-Dequeued m k x = record {
  entries = λ j ne. ground arith;
  freed = ground arith;
  boxes = λ l ne. ground arith;
  box_used = ground arith;
  box_head = ground arith;
  tail_none = λ e. ground arith;
  tail_kept = λ e. ground arith;
  box_count = ground arith;
}

module _ {m : Ipc} {qs : ℕ → List ℕ} (h : Holds m qs) (k x : ℕ) (xs : List ℕ) (here : qs k ≡ x ∷ xs)
    {n : Ipc} (d : Dequeued m k x n) where
  front : has x (qs k) ≡ true
  front = rw here (has_self x xs)

  not_behind : has x xs ≡ false
  not_behind = (rw here at (h.once k)).0

  not_elsewhere : (l : ℕ) → l ≢ k → has x (qs l) ≡ false
  not_elsewhere l ne = h.apart k l x (λ e. ne (sym e)) front

  Links-k : (Links m.msg_pool (m.mailboxes k).head (x ∷ xs))
  Links-k = rw here at (h.links k)

  ne_of_behind : (j : ℕ) → has j xs ≡ true → j ≢ x
  ne_of_behind j t e = cc (not_behind, t, ap (λ y. has y xs) e)

  ne_of_elsewhere : (l j : ℕ) → l ≢ k → has j (qs l) ≡ true → j ≢ x
  ne_of_elsewhere l j ne t e = cc (not_elsewhere l ne, t, ap (λ y. has y (qs l)) e)

  Links-rest : Links n.msg_pool (n.mailboxes k).head xs
  Links-rest = rw d.box_head (
      Links-frame m.msg_pool n.msg_pool (m.msg_pool x).next xs
        (λ j t. ap (λ (r : Message). r.next) (d.entries j (ne_of_behind j t))) Links-k.1)

  Links-other : (l : ℕ) → l ≢ k → Links n.msg_pool (n.mailboxes l).head (qs l)
  Links-other l ne = rw (d.boxes l ne) (
      Links-frame m.msg_pool n.msg_pool (m.mailboxes l).head (qs l)
        (λ j t. ap (λ (r : Message). r.next) (d.entries j (ne_of_elsewhere l j ne t))) (h.links l))

  tail_rest :
      (ys : List ℕ)
      → Links m.msg_pool (m.msg_pool x).next ys
      → last (x ∷ ys) ≡ (m.mailboxes k).tail
      → (n.mailboxes k).tail ≡ last ys
  tail_rest [] l e = d.tail_none l
  tail_rest (y ∷ ys) l e = d.tail_kept (λ z. cc (l.0, z)) ∙ sym e

  abbrev pub rest : ℕ → List ℕ
  rest = update qs k xs

  has-rest : (l j : ℕ) → has j (rest l) ≡ true → has j (qs l) ≡ true
  has-rest l j t = elim (Bool-cases (l == k)) [
    | inl q ↦ rw (==→eq l k q) (rw here (ground arith))
    | inr q ↦ rw q at t
  ]

  ne_of_rest : (l j : ℕ) → has j (rest l) ≡ true → j ≢ x
  ne_of_rest l j t = elim (Bool-cases (l == k)) [
    | inl q ↦ ne_of_behind j (rw q at t)
    | inr q ↦ ne_of_elsewhere l j (λ z. cc (eq→== l k z)) (rw q at t)
  ]

  not-has-rest : (l j : ℕ) → has j (qs l) ≡ false → has j (rest l) ≡ false
  not-has-rest l j f = elim (Bool-cases (has j (rest l))) [
    | inl t ↦ cc (has-rest l j t)
    | inr g ↦ g
  ]

  has-behind : (j : ℕ) → j ≢ x → has j (qs k) ≡ true → has j xs ≡ true
  has-behind j ne t = let t' : has j (x ∷ xs) ≡ true = rw here at t in ground arith

  kept_rest :
      (j : ℕ)
      → j ≢ x
      → (n.msg_pool j).used ≡ true
      → j < max_messages
      → (l : ℕ) × (has j (rest l) ≡ true)
  kept_rest j ne u b =
      let old = h.kept j (sym (ap (λ (r : Message). r.used) (d.entries j ne)) ∙ u) b in
      elim (Bool-cases (old.0 == k)) [
        | inl q ↦ (old.0, rw q (has-behind j ne (rw (==→eq old.0 k q) at old.1)))
        | inr q ↦ (old.0, rw q old.1)
      ]

  closed_rest : (l : ℕ) → (n.mailboxes l).used ≡ false → rest l ≡ []
  closed_rest l c = elim (Bool-cases (l == k)) [
    | inl q ↦ cc (h.closed k (sym d.box_used ∙ rw (==→eq l k q) at c), here)
    | inr q ↦ rw q (h.closed l (rw (d.boxes l (λ z. cc (eq→== l k z))) at c))
  ]

  -- Taking the head of a mailbox's queue off leaves the rest of it, and the other queues.
  pub dequeue-Holds : Holds n rest
  dequeue-Holds = record {
    links = λ l. elim (Bool-cases (l == k)) [
      | inl q ↦ rw q (rw (==→eq l k q) Links-rest)
      | inr q ↦ rw q (Links-other l (λ z. cc (eq→== l k z)))
    ];
    tails = λ l. elim (Bool-cases (l == k)) [
      | inl q ↦
          rw q (rw (==→eq l k q) (tail_rest xs Links-k.1 (ap last (sym here) ∙ sym (h.tails k))))
      | inr q ↦ rw q (rw (d.boxes l (λ z. cc (eq→== l k z))) (h.tails l))
    ];
    counts = λ l. elim (Bool-cases (l == k)) [
      | inl q ↦ rw q (rw (==→eq l k q) (omega (arith, d.box_count, h.counts k, ap length here)))
      | inr q ↦ rw q (rw (d.boxes l (λ z. cc (eq→== l k z))) (h.counts l))
    ];
    once = λ l. elim (Bool-cases (l == k)) [
      | inl q ↦ rw q ((rw here at (h.once k)).1)
      | inr q ↦ rw q (h.once l)
    ];
    apart = λ a b j ne t. not-has-rest b j (h.apart a b j ne (has-rest a j t));
    inside = λ l j t. h.inside l j (has-rest l j t);
    taken = λ l j t.
        ap (λ (r : Message). r.used) (d.entries j (ne_of_rest l j t))
        ∙ h.taken l j (has-rest l j t);
    kept = λ j u b. kept_rest j (λ e. cc (d.freed, u, ap (λ y. (n.msg_pool y).used) e)) u b;
    closed = λ l c. closed_rest l c;
  }

  pub packets-rest :
      (l : ℕ)
      → packets n.msg_pool (rest l)
        ≡ (if l == k then packets m.msg_pool xs else packets m.msg_pool (qs l))
  packets-rest l = elim (Bool-cases (l == k)) [
    | inl q ↦
        rw q (
          packets-congr m.msg_pool n.msg_pool xs
            (λ j t. ap packet (d.entries j (ne_of_behind j t))))
    | inr q ↦ rw q (
        packets-congr m.msg_pool n.msg_pool (qs l)
          (λ j t. ap packet (d.entries j (ne_of_elsewhere l j (λ z. cc (eq→== l k z)) t))))
  ]
