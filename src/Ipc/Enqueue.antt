-- ===== src/Ipc/Enqueue.antt =====
-- Linking a message into a mailbox of src/kernel/ipc.cpp appends it to that mailbox's queue.
use mathlib.Core.Path.{ap₂}
use trieternal_x_os.Base.{
  ℕ, ◌<◌, ◌≡◌, ◌≢◌, inl, inr, refl, sym, ◌∙◌, ap, true, false, ◌||◌, ◌&&◌, Option, none, some, List,
  [], ◌∷◌, ◌++◌, arith, ◌==◌, if◌then◌else◌, Bool-cases, Option-cases, ==→eq, eq→==, update,
}
use trieternal_x_os.Base.Int.{ℤ}
use trieternal_x_os.Base.Words.{add32}
use trieternal_x_os.Ipc.{Message, Ipc, max_messages, set_message, owns, enqueue}
use trieternal_x_os.Ipc.Links.{
  has, Links, has-append, has-last, last-snoc, nil_of_last, Distinct-snoc, Links-frame, Links-snoc,
}
use trieternal_x_os.Ipc.Queues.{packet, packets, packets-congr, packets-append, length-snoc, Holds}

-- What `enqueue` does to a state that has the fresh message `i`, field by field.
pub record Enqueued (m : Ipc) (k i : ℕ) (n : Ipc) : Type 0 where
  next_other :
      (j : ℕ) → j ≢ i → (m.mailboxes k).tail ≢ some j → (n.msg_pool j).next ≡ (m.msg_pool j).next
  next_tail : (t : ℕ) → (m.mailboxes k).tail ≡ some t → (n.msg_pool t).next ≡ some i
  next_new : (n.msg_pool i).next ≡ none
  used_same : (j : ℕ) → (n.msg_pool j).used ≡ (m.msg_pool j).used
  packet_same : (j : ℕ) → packet (n.msg_pool j) ≡ packet (m.msg_pool j)
  boxes : (l : ℕ) → l ≢ k → n.mailboxes l ≡ m.mailboxes l
  box_used : (n.mailboxes k).used ≡ (m.mailboxes k).used
  box_owner : (n.mailboxes k).owner_pid ≡ (m.mailboxes k).owner_pid
  box_tail : (n.mailboxes k).tail ≡ some i
  box_count : (n.mailboxes k).count ≡ add32 (m.mailboxes k).count 1
  head_first : (m.mailboxes k).tail ≡ none → (n.mailboxes k).head ≡ some i
  head_later : (m.mailboxes k).tail ≢ none → (n.mailboxes k).head ≡ (m.mailboxes k).head

pub enqueue-Enqueued :
    (m : Ipc) (k i : ℕ) → (m.mailboxes k).tail ≢ some i → Enqueued m k i (enqueue m k i)
unfolding enqueue
enqueue-Enqueued m k i fresh = elim (Option-cases (m.mailboxes k).tail) [
  | inl e ↦
      rw (e, enqueue)
        (record {
          next_other = λ j a b. ground arith;
          next_tail = λ t a. ground arith;
          next_new = ground arith;
          used_same = λ j. ground arith;
          packet_same = λ j. ground arith;
          boxes = λ l a. ground arith;
          box_used = ground arith;
          box_owner = ground arith;
          box_tail = ground arith;
          box_count = ground arith;
          head_first = λ a. ground arith;
          head_later = λ a. ground arith;
        })
  | inr (t, e) ↦
      rw (e, enqueue)
        (record {
          next_other = λ j a b. ground arith;
          next_tail = λ t a. ground arith;
          next_new = ground arith;
          used_same = λ j. ground arith;
          packet_same = λ j. ground arith;
          boxes = λ l a. ground arith;
          box_used = ground arith;
          box_owner = ground arith;
          box_tail = ground arith;
          box_count = ground arith;
          head_first = λ a. ground arith;
          head_later = λ a. ground arith;
        })
]

pub owns-Enqueued :
    {m : Ipc} {k i : ℕ} {n : Ipc}
    → Enqueued m k i n
    → (pid : ℤ) (l : ℕ) → owns n pid l ≡ owns m pid l
owns-Enqueued {k} e pid l = elim (Bool-cases (l == k)) [
  | inl q ↦ rw (==→eq l k q) (rw (e.box_used, e.box_owner) refl)
  | inr q ↦ rw (e.boxes l (λ z. cc (eq→== l k z))) refl
]

module _ {m0 : Ipc} {qs : ℕ → List ℕ} (h : Holds m0 qs) (i : ℕ)
    (free : (m0.msg_pool i).used ≡ false) where
  pub fresh : (l : ℕ) → has i (qs l) ≡ false
  fresh l = elim (Bool-cases (has i (qs l))) [ inl t ↦ cc (h.taken l i t) | inr f ↦ f ]

  pub tail_fresh : (k : ℕ) → (m0.mailboxes k).tail ≢ some i
  tail_fresh k e = cc (has-last (qs k) (sym (h.tails k) ∙ e), fresh k)

  module _ (msg : Message) (k : ℕ) {n : Ipc} (e : Enqueued (set_message m0 i msg) k i n) where
    placed_other : (j : ℕ) → j ≢ i → (set_message m0 i msg).msg_pool j ≡ m0.msg_pool j
    placed_other j ne = ground arith

    -- The link of an entry other than the new one and the last.
    next_kept :
        (j : ℕ)
        → j ≢ i
        → (m0.mailboxes k).tail ≢ some j
        → (n.msg_pool j).next ≡ (m0.msg_pool j).next
    next_kept j ne nt = e.next_other j ne nt ∙ ap (λ (r : Message). r.next) (placed_other j ne)

    ne_of_has : (l j : ℕ) → has j (qs l) ≡ true → j ≢ i
    ne_of_has l j t eq = cc (fresh l, t, ap (λ x. has x (qs l)) eq)

    -- Queues of the other mailboxes keep their links.
    Links-other : (l : ℕ) → l ≢ k → Links n.msg_pool (n.mailboxes l).head (qs l)
    Links-other l ne = rw (e.boxes l ne) (
        Links-frame m0.msg_pool n.msg_pool (m0.mailboxes l).head (qs l)
          (λ j t. next_kept j (ne_of_has l j t) (not_tail j t)) (h.links l))
      where
        not_tail : (j : ℕ) → has j (qs l) ≡ true → (m0.mailboxes k).tail ≢ some j
        not_tail j t q = cc (has-last (qs k) (sym (h.tails k) ∙ q), h.apart l k j ne t)

    Links-this : Links n.msg_pool (n.mailboxes k).head (qs k ++ i ∷ [])
    Links-this = elim (Option-cases (m0.mailboxes k).tail) [
      | inl q ↦ rw (nil_of_last (qs k) (sym (h.tails k) ∙ q)) (e.head_first q, e.next_new)
      | inr (t, q) ↦ rw (e.head_later (λ z. none_some t (sym z ∙ q))) (
          Links-snoc m0.msg_pool n.msg_pool (m0.mailboxes k).head (qs k) t i (sym (h.tails k) ∙ q)
            (h.once k) (λ j a b. next_kept j (ne_of_has k j a) (λ z. b (cc (sym z ∙ q))))
            (e.next_tail t q) e.next_new (h.links k))
    ]
      where
        none_some : (t : ℕ) → ◌≡◌ {A = Option ℕ} none (some t) → ⊥
        none_some t z = cc

    abbrev pub grown : ℕ → List ℕ
    grown = update qs k (qs k ++ i ∷ [])

    has-grown : (l j : ℕ) → has j (grown l) ≡ (has j (qs l) || ((l == k) && (j == i)))
    has-grown l j = ground (arith, has-append j (qs k) (i ∷ []))

    -- Putting a fresh message behind the last one of an open mailbox appends it to that queue.
    pub enqueue-Holds :
        i < max_messages → msg.used ≡ true → (m0.mailboxes k).used ≡ true → Holds n grown
    enqueue-Holds small used open_box = record {
      links = λ l. elim (Bool-cases (l == k)) [
        | inl q ↦ rw q (rw (==→eq l k q) Links-this)
        | inr q ↦ rw q (Links-other l (λ z. cc (eq→== l k z)))
      ];
      tails = λ l. elim (Bool-cases (l == k)) [
        | inl q ↦ rw q (rw (==→eq l k q) (e.box_tail ∙ sym (last-snoc (qs k) i)))
        | inr q ↦ rw q (rw (e.boxes l (λ z. cc (eq→== l k z))) (h.tails l))
      ];
      counts = λ l. elim (Bool-cases (l == k)) [
        | inl q ↦
            rw q (rw (==→eq l k q) (omega (arith, e.box_count, h.counts k, length-snoc (qs k) i)))
        | inr q ↦ rw q (rw (e.boxes l (λ z. cc (eq→== l k z))) (h.counts l))
      ];
      once = λ l. elim (Bool-cases (l == k)) [
        | inl q ↦ rw q (Distinct-snoc (qs k) i (h.once k) (fresh k))
        | inr q ↦ rw q (h.once l)
      ];
      apart = λ a b j ne t.
          ground (arith, has-grown a j, has-grown b j, h.apart a b j ne, fresh a, fresh b);
      inside = λ l j t. ground (arith, has-grown l j, h.inside l j);
      taken = λ l j t. ground (arith, has-grown l j, h.taken l j, e.used_same j);
      kept = λ j u b. elim (Bool-cases (j == i)) [
        | inl q ↦ (k, ground (arith, has-grown k j))
        | inr q ↦
            let old = h.kept j (ground (arith, e.used_same j)) b in
            (old.0, ground (arith, has-grown old.0 j, old.1))
      ];
      closed = λ l c. elim (Bool-cases (l == k)) [
        | inl q ↦ ground (arith, e.box_used)
        | inr q ↦ rw q (h.closed l (rw (← e.boxes l (λ z. cc (eq→== l k z))) c))
      ];
    }

    pub packets-grown :
        (l : ℕ)
        → packets n.msg_pool (grown l) ≡ (
            if l == k
            then packets m0.msg_pool (qs k) ++ packet msg ∷ []
            else packets m0.msg_pool (qs l))
    packets-grown l = elim (Bool-cases (l == k)) [
      | inl q ↦ rw q (
          packets-append n.msg_pool (qs k) (i ∷ [])
          ∙ ap₂ ◌++◌ (kept_packets k) (ap (λ p. p ∷ []) new_packet))
      | inr q ↦ rw q (kept_packets l)
    ]
      where
        kept_packets : (l : ℕ) → packets n.msg_pool (qs l) ≡ packets m0.msg_pool (qs l)
        kept_packets l =
            packets-congr m0.msg_pool n.msg_pool (qs l)
              (λ j t. e.packet_same j ∙ ap packet (placed_other j (ne_of_has l j t)))

        new_packet : packet (n.msg_pool i) ≡ packet msg
        new_packet = e.packet_same i ∙ ground arith

  -- A state that differs only in an entry that stands in no queue holds the same queues.
  pub Holds-spare :
      (n : Ipc)
      → ((j : ℕ) → j ≢ i → n.msg_pool j ≡ m0.msg_pool j)
      → (n.msg_pool i).used ≡ false
      → ((l : ℕ) → n.mailboxes l ≡ m0.mailboxes l)
      → Holds n qs
  Holds-spare n same spare boxes = record {
    links = λ l. rw (boxes l) (
        Links-frame m0.msg_pool n.msg_pool (m0.mailboxes l).head (qs l)
          (λ j t. ap (λ (r : Message). r.next) (same j (ne l j t))) (h.links l));
    tails = λ l. rw (boxes l) (h.tails l);
    counts = λ l. rw (boxes l) (h.counts l);
    once = h.once;
    apart = h.apart;
    inside = h.inside;
    taken = λ l j t. ap (λ (r : Message). r.used) (same j (ne l j t)) ∙ h.taken l j t;
    kept = λ j u b. elim (Bool-cases (j == i)) [
      | inl q ↦ cc (spare, u, ==→eq j i q)
      | inr q ↦ h.kept j (sym (ap (λ (r : Message). r.used) (same j (λ z. cc (eq→== j i z)))) ∙ u) b
    ];
    closed = λ l c. h.closed l (rw (← boxes l) c);
  }
    where
      ne : (l j : ℕ) → has j (qs l) ≡ true → j ≢ i
      ne l j t eq = cc (fresh l, t, ap (λ x. has x (qs l)) eq)
