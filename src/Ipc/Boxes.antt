-- ===== src/Ipc/Boxes.antt =====
-- `ipc_init` and `ipc_mailbox_create` of src/kernel/ipc.cpp.
use trieternal_x_os.Base.{
  ℕ, zero, suc, ◌+◌, ◌≤◌, ◌<◌, ◌≡◌, ◌≢◌, ◌⊎◌, inl, inr, refl, ◌∙◌, ap, true, false, not, none, List,
  [], arith, ◌==◌, ltb, Bool-cases, Option-cases, ==→eq, ltb→lt, find_from, find_from-some,
  find_from-none, IsFirst,
}
use trieternal_x_os.Base.Int.{ℤ, pos, minus_one, eq_ℤ_refl}
use trieternal_x_os.Ipc.{
  Message, Ipc, max_messages, max_mailboxes, set_message, set_mailbox, empty_box, clear_messages,
  clear_mailboxes, init, owns, mailbox_create,
}
use trieternal_x_os.Ipc.Queues.{Holds}

record Cleared (n i : ℕ) (m r : Ipc) : Type 0 where
  inside : (j : ℕ) → i ≤ j → j < i + n → (r.msg_pool j).used ≡ false
  boxes : (k : ℕ) → r.mailboxes k ≡ m.mailboxes k
  outside : (j : ℕ) → j < i → r.msg_pool j ≡ m.msg_pool j

clear_messages-Cleared : (n i : ℕ) (m : Ipc) → Cleared n i m (clear_messages n i m)
unfolding clear_messages
clear_messages-Cleared zero i m = record {
  inside = λ j lo hi. absurd (omega arith);
  boxes = λ k. refl;
  outside = λ j b. refl;
}
clear_messages-Cleared (suc n) i m =
    let m1 = set_message m i (record (m.msg_pool i) { used = false; next = none }) in
    let r = clear_messages-Cleared n (i + 1) m1 in
    record {
      inside = λ j lo hi. elim (Bool-cases (j == i)) [
        | inl e ↦ ground (arith, r.outside j)
        | inr e ↦ r.inside j (ground arith) (omega arith)
      ];
      boxes = r.boxes;
      outside = λ j b. r.outside j (omega arith) ∙ ground arith;
    }

record Emptied (n i : ℕ) (m r : Ipc) : Type 0 where
  entries : (j : ℕ) → r.msg_pool j ≡ m.msg_pool j
  inside : (k : ℕ) → i ≤ k → k < i + n → r.mailboxes k ≡ empty_box (m.mailboxes k)
  outside : (k : ℕ) → (k < i) ⊎ (i + n ≤ k) → r.mailboxes k ≡ m.mailboxes k

clear_mailboxes-Emptied : (n i : ℕ) (m : Ipc) → Emptied n i m (clear_mailboxes n i m)
unfolding clear_mailboxes
clear_mailboxes-Emptied zero i m = record {
  entries = λ j. refl;
  inside = λ k lo hi. absurd (omega arith);
  outside = λ k b. refl;
}
clear_mailboxes-Emptied (suc n) i m =
    let m1 = set_mailbox m i (empty_box (m.mailboxes i)) in
    let r = clear_mailboxes-Emptied n (i + 1) m1 in
    record {
      entries = r.entries;
      inside = λ k lo hi. elim (Bool-cases (k == i)) [
        | inl e ↦ r.outside k (inl (ground arith)) ∙ ground arith
        | inr e ↦ r.inside k (ground arith) (omega arith) ∙ ground arith
      ];
      outside = λ k b. r.outside k (omega arith) ∙ ground arith;
    }

-- Nothing lies behind the sixteen mailboxes.
pub record IsBounded (m : Ipc) : Type 0 where
  pub head : (k : ℕ) → max_mailboxes ≤ k → (m.mailboxes k).head ≡ none
  pub tail : (k : ℕ) → max_mailboxes ≤ k → (m.mailboxes k).tail ≡ none
  pub count : (k : ℕ) → max_mailboxes ≤ k → (m.mailboxes k).count ≡ 0

module _ (m : Ipc) (b : IsBounded m) where
  box_cases :
      (k : ℕ)
      → ((init m).mailboxes k ≡ empty_box (m.mailboxes k))
        ⊎ ((init m).mailboxes k ≡ m.mailboxes k) × (max_mailboxes ≤ k)
  unfolding init
  box_cases k =
      let c = clear_messages-Cleared max_messages 0 m in
      let r = clear_mailboxes-Emptied max_mailboxes 0 (clear_messages max_messages 0 m) in
      elim (Bool-cases (ltb k max_mailboxes)) [
        | inl t ↦ inl (r.inside k (omega arith) (ltb→lt k 16 t) ∙ ap empty_box (c.boxes k))
        | inr f ↦ inr (r.outside k (inr (ground arith)) ∙ c.boxes k, ground arith)
      ]

  unused : (i : ℕ) → i < max_messages → ((init m).msg_pool i).used ≡ false
  unfolding init
  unused i lt =
      let c = clear_messages-Cleared max_messages 0 m in
      let r = clear_mailboxes-Emptied max_mailboxes 0 (clear_messages max_messages 0 m) in
      ap (λ (e : Message). e.used) (r.entries i) ∙ c.inside i (omega arith) (omega arith)

  -- `ipc_init` leaves every queue empty and every message in the pool.
  pub init-Holds : Holds (init m) (λ k. [])
  init-Holds = record {
    links = λ k. elim (box_cases k) [ inl e ↦ rw e refl | inr (e, o) ↦ rw e (b.head k o) ];
    tails = λ k. elim (box_cases k) [ inl e ↦ rw e refl | inr (e, o) ↦ rw e (b.tail k o) ];
    counts = λ k. elim (box_cases k) [ inl e ↦ rw e refl | inr (e, o) ↦ rw e (b.count k o) ];
    once = λ k. tt;
    apart = λ k l i ne t. refl;
    inside = λ k i t. cc;
    taken = λ k i t. cc;
    kept = λ i u lt. cc (unused i lt, u);
    closed = λ k c. refl;
  }

-- What a successful `ipc_mailbox_create` does: mailbox `k`, the first free one, is open for `pid`
-- and empty, and all else is as it was.
pub record Created (m : Ipc) (qs : ℕ → List ℕ) (pid : ℤ) (k : ℕ) (out : ℤ × Ipc) : Type 0 where
  pub below : k < max_mailboxes
  pub was_free : (m.mailboxes k).used ≡ false
  pub done : out.0 ≡ pos 0
  pub opened : owns out.1 pid k ≡ true
  pub empty : qs k ≡ []
  pub others : (l : ℕ) → l ≢ k → out.1.mailboxes l ≡ m.mailboxes l
  pub entries : (i : ℕ) → out.1.msg_pool i ≡ m.msg_pool i
  pub holds : Holds out.1 qs

module _ {m : Ipc} {qs : ℕ → List ℕ} (h : Holds m qs) (pid : ℤ) where
  create_first :
      (k : ℕ)
      → IsFirst (λ k. not (m.mailboxes k).used) 0 max_mailboxes k
      → Created m qs pid k (
        pos 0,
        record (set_mailbox m k
            (record { owner_pid = pid; head = none; tail = none; count = 0; used = true })) {
              mailbox_count = m.mailbox_count + 1;
            },
      )
  create_first k f =
      let free : (m.mailboxes k).used ≡ false = ground (arith, f.hit) in
      let nil = h.closed k free in
      record {
        below = omega (arith, f.below);
        was_free = free;
        done = refl;
        opened = ground (arith, eq_ℤ_refl pid);
        empty = nil;
        others = λ l ne. ground arith;
        entries = λ i. refl;
        holds = record {
          links = λ l. elim (Bool-cases (l == k)) [
            | inl e ↦ rw e (rw (==→eq l k e) (rw nil refl))
            | inr e ↦ rw e (h.links l)
          ];
          tails = λ l. elim (Bool-cases (l == k)) [
            | inl e ↦ rw e (rw (==→eq l k e) (rw nil refl))
            | inr e ↦ rw e (h.tails l)
          ];
          counts = λ l. elim (Bool-cases (l == k)) [
            | inl e ↦ rw e (rw (==→eq l k e) (rw nil refl))
            | inr e ↦ rw e (h.counts l)
          ];
          once = h.once;
          apart = h.apart;
          inside = h.inside;
          taken = h.taken;
          kept = h.kept;
          closed = λ l c. elim (Bool-cases (l == k)) [
            | inl e ↦ rw (==→eq l k e) nil
            | inr e ↦ h.closed l (rw e at c)
          ];
        };
      }

  -- `ipc_mailbox_create` opens the first free mailbox for `pid`, with an empty queue, or returns -1
  -- and changes nothing when all are open. The queues hold what they held.
  pub mailbox_create_lem :
      let out = mailbox_create m pid in
      ((k : ℕ) × Created m qs pid k out)
      ⊎ (out ≡ (minus_one, m)) × ((k : ℕ) → k < max_mailboxes → (m.mailboxes k).used ≡ true)
  unfolding mailbox_create
  mailbox_create_lem =
      elim (Option-cases (find_from (λ k. not (m.mailboxes k).used) max_mailboxes 0)) [
        | inl e ↦ inr (
          rw (e, mailbox_create),
          λ k b. ground (arith, find_from-none (λ k. not (m.mailboxes k).used) max_mailboxes 0 e k),
        )
        | inr (k, e) ↦ inl (
          k,
          rw (e, mailbox_create)
              (create_first k (find_from-some (λ k. not (m.mailboxes k).used) max_mailboxes 0 e)),
        )
      ]
