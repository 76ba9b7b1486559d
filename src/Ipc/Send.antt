-- ===== src/Ipc/Send.antt =====
-- `ipc_send` of src/kernel/ipc.cpp against the queues of packets.
use trieternal_x_os.Base.{
  ℕ, ◌<◌, ◌≡◌, ◌≢◌, ◌⊎◌, inl, inr, refl, ◌∙◌, ap, true, false, not, Option, none, some, List, [],
  ◌∷◌, ◌++◌, arith, ◌==◌, ltb, if◌then◌else◌, Option-cases, window, length, find_from,
  find_from-some, IsFirst, find_from-none, copy_from, window-copy_from, fun_ext,
}
use trieternal_x_os.Base.Int.{ℤ, pos, minus_one}
use trieternal_x_os.Ipc.{
  Message, Ipc, max_messages, max_msg_size, max_mailboxes, set_message, owns, alloc_message,
  free_message, fill_message, enqueue, dispatch, send_with, send,
}
use trieternal_x_os.Ipc.Links.{has}
use trieternal_x_os.Ipc.Queues.{Packet, packet, packets, packets-congr, Holds}
use trieternal_x_os.Ipc.Enqueue.{
  enqueue-Enqueued, owns-Enqueued, fresh, tail_fresh, Holds-spare, packets-grown, enqueue-Holds,
  grown,
}

-- The packet that `ipc_send` makes of its arguments: at most 256 bytes.
abbrev pub outgoing : ℤ → ℤ → (ℕ → ℕ) → ℕ → Packet
outgoing current dest_pid src length = record {
  sender = current;
  receiver = dest_pid;
  bytes = window src 0 (if ltb max_msg_size length then max_msg_size else length);
}

-- Mailbox `k` is the first open mailbox of `pid`.
abbrev pub IsBoxOf : Ipc → ℤ → ℕ → Type 0
IsBoxOf m pid k = IsFirst (owns m pid) 0 max_mailboxes k

-- Every pool entry is in use.
abbrev pub IsPoolFull : Ipc → Type 0
IsPoolFull m = (i : ℕ) → i < max_messages → (m.msg_pool i).used ≡ true

abbrev pub HasNoBox : Ipc → ℤ → Type 0
HasNoBox m pid = (k : ℕ) → k < max_mailboxes → owns m pid k ≡ false

-- The queues and their packets are those of `m`.
pub record Unchanged (m : Ipc) (qs : ℕ → List ℕ) (n : Ipc) : Type 0 where
  pub holds : Holds n qs
  pub same : (l : ℕ) → packets n.msg_pool (qs l) ≡ packets m.msg_pool (qs l)
  pub boxes : (l : ℕ) → n.mailboxes l ≡ m.mailboxes l

-- The packet `p` stands behind the others of mailbox `k`, and the other queues are those of `m`.
pub record Queued (m : Ipc) (qs : ℕ → List ℕ) (k : ℕ) (p : Packet) (n : Ipc) : Type 0 where
  pub qs' : ℕ → List ℕ
  pub holds : Holds n qs'
  pub packets_now :
      (l : ℕ)
      → packets n.msg_pool (qs' l)
        ≡ (if l == k then packets m.msg_pool (qs k) ++ p ∷ [] else packets m.msg_pool (qs l))
  pub owners : (pid : ℤ) (l : ℕ) → owns n pid l ≡ owns m pid l

module _ (current : ℤ) (m : Ipc) (dest_pid : ℤ) (src : ℕ → ℕ) (len i : ℕ) where
  -- The entry as `alloc_message` and `fill_message` leave it.
  abbrev message : Message
  message = record {
    sender_pid = current;
    receiver_pid = dest_pid;
    size = len;
    payload = copy_from len 0 src (m.msg_pool i).payload;
    used = true;
    next = none;
  }

  abbrev filled : Ipc
  filled =
      fill_message current (set_message m i (record (m.msg_pool i) { used = true; next = none })) i
        dest_pid src len

  fill_message_lem : filled ≡ set_message m i message
  unfolding fill_message
  fill_message_lem = ap (λ p. record m { msg_pool = p }) (fun_ext (λ j. ground arith))

  packet-message :
      packet message ≡ record { sender = current; receiver = dest_pid; bytes = window src 0 len }
  packet-message =
      ap (λ b. record { sender = current; receiver = dest_pid; bytes = b })
        (window-copy_from len src (m.msg_pool i).payload)

abbrev cut : ℕ → ℕ
cut length = if ltb max_msg_size length then max_msg_size else length

abbrev slot : Ipc → Option ℕ
slot m = find_from (λ i. not (m.msg_pool i).used) max_messages 0

abbrev box_of : Ipc → ℤ → Option ℕ
box_of m pid = find_from (owns m pid) max_mailboxes 0

alloc-none : (m : Ipc) → slot m ≡ none → alloc_message m ≡ (none, m)
unfolding alloc_message
alloc-none m e = rw (e, alloc_message)

alloc-some :
    (m : Ipc) (i : ℕ)
    → slot m ≡ some i
    → alloc_message m
      ≡ (some i, set_message m i (record (m.msg_pool i) { used = true; next = none }))
unfolding alloc_message
alloc-some m i e = rw (e, alloc_message)

module _ (current : ℤ) (m : Ipc) (dest_pid : ℤ) (src : ℕ → ℕ) (length : ℕ) where
  abbrev ready : ℕ → Ipc
  ready = filled current m dest_pid src (cut length)

  box_of-ready : (i : ℕ) → box_of (ready i) dest_pid ≡ box_of m dest_pid
  unfolding fill_message
  box_of-ready i = refl

  send-full : slot m ≡ none → send current m dest_pid src length ≡ (minus_one, m)
  unfolding send
  send-full e = ap (send_with current dest_pid src (cut length)) (alloc-none m e)

  send-dispatch :
      (i : ℕ)
      → slot m ≡ some i
      → send current m dest_pid src length ≡ dispatch (ready i) i (box_of m dest_pid)
  unfolding send
  send-dispatch i e = ap (send_with current dest_pid src (cut length)) (alloc-some m i e)

  module _ {qs : ℕ → List ℕ} (h : Holds m qs) (i : ℕ) (free : (m.msg_pool i).used ≡ false) where
    unboxed-Unchanged : Unchanged m qs (free_message (ready i) i)
    unfolding fill_message free_message
    unboxed-Unchanged = record {
      holds =
          Holds-spare h i free (free_message (ready i) i) (λ j ne. ground arith) (ground arith)
            (λ l. refl);
      same = λ l.
          packets-congr m.msg_pool (free_message (ready i) i).msg_pool (qs l) (λ j t.
            ap packet (other j (λ eq. cc (fresh h i free l, t, ap (λ x. has x (qs l)) eq))));
      boxes = λ l. refl;
    }
      where
        other : (j : ℕ) → j ≢ i → (free_message (ready i) i).msg_pool j ≡ m.msg_pool j
        other j ne = ground arith

    boxed-Queued :
        (k : ℕ)
        → i < max_messages
        → IsBoxOf m dest_pid k
        → Queued m qs k (outgoing current dest_pid src length) (enqueue (ready i) k i)
    boxed-Queued k small box =
        let msg = message current m dest_pid src (cut length) i in
        let e = enqueue-Enqueued (set_message m i msg) k i (tail_fresh h i free k) in
        rw (fill_message_lem current m dest_pid src (cut length) i) (record {
          qs' = grown h i free msg k e;
          holds = enqueue-Holds h i free msg k e small refl (ground (arith, box.hit));
          packets_now = λ l.
              packets-grown h i free msg k e l
              ∙ ap
                  (λ p.
                    if l == k
                    then packets m.msg_pool (qs k) ++ p ∷ []
                    else packets m.msg_pool (qs l))
                  (packet-message current m dest_pid src (cut length) i);
          owners = λ pid l. owns-Enqueued e pid l;
        })

  -- `ipc_send` puts the packet, cut to 256 bytes, behind the others of the first mailbox of the
  -- addressee and returns 0, or returns -1 and leaves all queues as they were: when the pool is
  -- full, or when the addressee has no mailbox.
  pub send_lem :
      {qs : ℕ → List ℕ}
      → Holds m qs
      → let out = send current m dest_pid src length in
        ((k : ℕ) × IsBoxOf m dest_pid k
          × (out.0 ≡ pos 0)
          × Queued m qs k (outgoing current dest_pid src length) out.1)
        ⊎ (out.0 ≡ minus_one) × Unchanged m qs out.1 × (IsPoolFull m ⊎ HasNoBox m dest_pid)
  unfolding dispatch
  send_lem {qs} h = elim (Option-cases (slot m)) [
    | inl e ↦ inr (
        rw (send-full e)
          (refl, record { holds = h; same = λ l. refl; boxes = λ l. refl }, inl (pool_full e)))
    | inr (i, e) ↦ elim (Option-cases (box_of m dest_pid)) [
      | inl b ↦
          inr (
            rw (send-dispatch i e, b) (refl, unboxed-Unchanged h i (slot_free i e), inr (no_box b)))
      | inr (k, b) ↦ inl (
        k,
        find_from-some (owns m dest_pid) max_mailboxes 0 b,
        rw (send-dispatch i e, b) refl,
        rw (send-dispatch i e, b)
            (boxed-Queued h i (slot_free i e) k (slot_small i e)
              (find_from-some (owns m dest_pid) max_mailboxes 0 b)),
      )
    ]
  ]
    where
      pool_full : slot m ≡ none → IsPoolFull m
      pool_full e i b =
          ground (arith, find_from-none (λ i. not (m.msg_pool i).used) max_messages 0 e i)

      no_box : box_of m dest_pid ≡ none → HasNoBox m dest_pid
      no_box b k l =
          find_from-none (owns m dest_pid) max_mailboxes 0 b k (omega arith) (omega arith)

      slot_free : (i : ℕ) → slot m ≡ some i → (m.msg_pool i).used ≡ false
      slot_free i e =
          ground (arith, (find_from-some (λ i. not (m.msg_pool i).used) max_messages 0 e).hit)

      slot_small : (i : ℕ) → slot m ≡ some i → i < max_messages
      slot_small i e =
          omega (arith, (find_from-some (λ i. not (m.msg_pool i).used) max_messages 0 e).below)
