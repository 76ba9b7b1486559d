-- ===== src/Ipc/Receive.antt =====
-- `ipc_receive` and `ipc_mailbox_recv` of src/kernel/ipc.cpp against the queues of packets.
use mathlib.Core.Path.{subst}
use trieternal_x_os.Base.{
  ℕ, ◌≤◌, ◌<◌, ◌≡◌, ◌⊎◌, inl, inr, refl, sym, ◌∙◌, ap, Bool, true, false, ◌&&◌, none, some, List,
  [], ◌∷◌, arith, ◌==◌, ltb, if◌then◌else◌, Option-cases, window, length, find_from, find_from-some,
  find_from-none, copy_from, copy_from_lem, window-copy_from, take, take-window, length-window,
}
use trieternal_x_os.Base.Int.{ℤ, pos}
use trieternal_x_os.Ipc.{
  Message, Ipc, Delivery, max_mailboxes, owns, has_head, nothing, deliver, recv_head, recv_from,
  mailbox_recv,
}
use trieternal_x_os.Ipc.Queues.{Packet, packet, packets, Holds}
use trieternal_x_os.Ipc.Dequeue.{dequeue-Dequeued, rest, dequeue-Holds, packets-rest}

-- How many bytes of a packet fit a buffer of `max_length`.
abbrev pub fitting : Packet → ℕ → ℕ
fitting p max_length = if ltb max_length (length p.bytes) then max_length else length p.bytes

-- The first packet of mailbox `k` has gone to the caller: its length and sender are reported, as
-- many of its bytes as fit are stored, and the mailbox keeps the packets behind it.
pub record Received (m : Ipc) (qs : ℕ → List ℕ) (k : ℕ) (buffer : ℕ → ℕ) (max_length : ℕ)
    (out : Delivery × Ipc) : Type 0 where
  pub p : Packet
  pub others : List Packet
  pub first : packets m.msg_pool (qs k) ≡ p ∷ others
  pub result : out.0.result ≡ pos (length p.bytes)
  pub sender : out.0.sender ≡ some p.sender
  pub stored : window out.0.buffer 0 (fitting p max_length) ≡ take (fitting p max_length) p.bytes
  pub beyond : (j : ℕ) → fitting p max_length ≤ j → out.0.buffer j ≡ buffer j
  pub qs' : ℕ → List ℕ
  pub holds : Holds out.1 qs'
  pub packets_now :
      (l : ℕ)
      → packets out.1.msg_pool (qs' l) ≡ (if l == k then others else packets m.msg_pool (qs l))

-- Mailbox `k` is the first mailbox of `pid` that holds a packet.
pub record IsWaiting (m : Ipc) (qs : ℕ → List ℕ) (pid : ℤ) (k : ℕ) : Type 0 where
  pub below : k < max_mailboxes
  pub owned : owns m pid k ≡ true
  pub earlier : (j : ℕ) → j < k → owns m pid j ≡ true → qs j ≡ []

module _ {m : Ipc} {qs : ℕ → List ℕ} (h : Holds m qs) (buffer : ℕ → ℕ) (max_length : ℕ) where
  deliver-Received :
      (k x : ℕ) (xs : List ℕ)
      → qs k ≡ x ∷ xs
      → Received m qs k buffer max_length (deliver m k x buffer max_length)
  unfolding deliver
  deliver-Received k x xs here =
      let msg = m.msg_pool x in
      let d = dequeue-Dequeued m k x in
      record {
        p = packet msg;
        others = packets m.msg_pool xs;
        first = ap (packets m.msg_pool) here;
        result = ap pos (sym (length-window msg.payload 0 msg.size));
        sender = refl;
        stored = rw (length-window msg.payload 0 msg.size) (
            window-copy_from (copied msg) msg.payload buffer
            ∙ sym (take-window msg.payload 0 (copied msg) msg.size (ground arith)));
        beyond = λ j b. not_copied msg j (rw (length-window msg.payload 0 msg.size) at b);
        qs' = rest h k x xs here d;
        holds = dequeue-Holds h k x xs here d;
        packets_now = packets-rest h k x xs here d;
      }
    where
      copied : Message → ℕ
      copied msg = if ltb max_length msg.size then max_length else msg.size

      not_copied :
          (msg : Message) (j : ℕ)
          → copied msg ≤ j
          → copy_from (copied msg) 0 msg.payload buffer j ≡ buffer j
      not_copied msg j b = ground (arith, copy_from_lem (copied msg) 0 msg.payload buffer j)

  has_head-none : (k : ℕ) → qs k ≡ [] → has_head m k ≡ false
  has_head-none k e = let empty = rw e at (h.links k) in rw (empty, has_head)

  queue_of_head :
      (k : ℕ)
      → has_head m k ≡ true
      → (x : ℕ) × (xs : List ℕ) × ((m.mailboxes k).head ≡ some x) × (qs k ≡ x ∷ xs)
  queue_of_head k t = go (qs k) refl
    where
      go :
          (ys : List ℕ)
          → qs k ≡ ys
          → (x : ℕ) × (xs : List ℕ) × ((m.mailboxes k).head ≡ some x) × (qs k ≡ x ∷ xs)
      go [] e = cc (has_head-none k e, t)
      go (x ∷ xs) e = (x, xs, (rw e at (h.links k)).0, e)

  nil_of_no_head : (k : ℕ) → has_head m k ≡ false → qs k ≡ []
  nil_of_no_head k f = go (qs k) refl
    where
      go : (ys : List ℕ) → qs k ≡ ys → qs k ≡ []
      go [] e = e
      go (x ∷ xs) e = let some_head = (rw e at (h.links k)).0 in cc (rw (some_head, has_head) at f)

  -- Without a message in the caller's mailboxes nothing happens and -1 is returned; otherwise the
  -- first packet of the first such mailbox is delivered.
  pub mailbox_recv_lem :
      (pid : ℤ)
      → let out = mailbox_recv m pid buffer max_length in
        ((k : ℕ) × IsWaiting m qs pid k × Received m qs k buffer max_length out)
        ⊎ (out ≡ (nothing buffer, m))
          × ((k : ℕ) → k < max_mailboxes → owns m pid k ≡ true → qs k ≡ [])
  unfolding mailbox_recv
  mailbox_recv_lem pid = elim (Option-cases (find_from (waiting pid) max_mailboxes 0)) [
    | inl e ↦
        inr (ap (recv_from m buffer max_length) e, λ k b o. nil_of_no_head k (unwaited pid e k b o))
    | inr (k, e) ↦
        let f = find_from-some (waiting pid) max_mailboxes 0 e in
        let (x, xs, head, here) = queue_of_head k (ground (arith, f.hit)) in
        inl (
          k,
          record {
            below = omega (arith, f.below);
            owned = ground (arith, f.hit);
            earlier = λ j b o. nil_of_no_head j (ground (arith, f.first j));
          },
          subst (Received m qs k buffer max_length)
              (sym
                (ap (recv_from m buffer max_length) e ∙ ap (recv_head m buffer max_length k) head))
              (deliver-Received k x xs here),
        )
  ]
    where
      waiting : ℤ → ℕ → Bool
      waiting pid k = owns m pid k && has_head m k

      unwaited :
          (pid : ℤ)
          → find_from (waiting pid) max_mailboxes 0 ≡ none
          → (k : ℕ) → k < max_mailboxes
          → owns m pid k ≡ true
          → has_head m k ≡ false
      unwaited pid e k b o =
          ground
            (arith, find_from-none (waiting pid) max_mailboxes 0 e k (omega arith) (omega arith))
