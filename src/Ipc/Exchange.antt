-- ===== src/Ipc/Exchange.antt =====
-- A message through the mailboxes of src/kernel/ipc.cpp, from `ipc_send` to the receiver.
use mathlib.Core.Path.{subst}
use trieternal_x_os.Base.{
  ℕ, ◌≡◌, ◌≢◌, inl, inr, refl, sym, ◌∙◌, ap, true, some, List, [], ◌∷◌, ◌==◌, eq→==, ne→==, ==→eq,
  Bool-cases, window, length, take,
}
use trieternal_x_os.Base.Int.{ℤ, pos}
use trieternal_x_os.Ipc.{Ipc, owns, send, mailbox_recv}
use trieternal_x_os.Ipc.Queues.{Packet, packets, Holds}
use trieternal_x_os.Ipc.Send.{Queued, outgoing, send_lem}
use trieternal_x_os.Ipc.Receive.{fitting, mailbox_recv_lem}

module _ (current : ℤ) {m : Ipc} {qs : ℕ → List ℕ} (h : Holds m qs) (dest_pid : ℤ) (src : ℕ → ℕ)
    (length' : ℕ) (buffer : ℕ → ℕ) (max_length : ℕ) where
  abbrev sent : Ipc
  sent = (send current m dest_pid src length').1

  module _ (empty : (k : ℕ) → owns m dest_pid k ≡ true → qs k ≡ []) {k : ℕ}
      (box : owns m dest_pid k ≡ true)
      (q : Queued m qs k (outgoing current dest_pid src length') sent) where
    packets_box : packets sent.msg_pool (q.qs' k) ≡ outgoing current dest_pid src length' ∷ []
    packets_box = q.packets_now k ∙ rw (eq→== k k refl, empty k box) refl

    packets_ne : (j : ℕ) → j ≢ k → owns m dest_pid j ≡ true → packets sent.msg_pool (q.qs' j) ≡ []
    packets_ne j ne o = q.packets_now j ∙ rw (ne→== j k ne, empty j o) refl

    first_is :
        (j : ℕ) (p : Packet) (others : List Packet)
        → owns sent dest_pid j ≡ true
        → packets sent.msg_pool (q.qs' j) ≡ p ∷ others
        → outgoing current dest_pid src length' ≡ p
    first_is j p others o e = elim (Bool-cases (j == k)) [
      | inl same ↦ cc (packets_box, e, ap (λ l. packets sent.msg_pool (q.qs' l)) (==→eq j k same))
      | inr other ↦ cc (packets_ne j (λ z. cc (eq→== j k z)) (sym (q.owners dest_pid j) ∙ o), e)
    ]

  -- The packet that was sent is what the addressee's next receive delivers, if its queues were
  -- empty and the send succeeded.
  pub mailbox_recv-send :
      ((k : ℕ) → owns m dest_pid k ≡ true → qs k ≡ [])
      → (send current m dest_pid src length').0 ≡ pos 0
      → let p = outgoing current dest_pid src length' in
        let out = (mailbox_recv sent dest_pid buffer max_length).0 in
        (out.sender ≡ some current)
        × (out.result ≡ pos (length p.bytes))
        × (window out.buffer 0 (fitting p max_length) ≡ take (fitting p max_length) p.bytes)
  mailbox_recv-send empty done = elim (send_lem current m dest_pid src length' h) [
    | inr (failed, _, _) ↦ cc (failed, done)
    | inl (k, box, ok, q) ↦ elim (mailbox_recv_lem q.holds buffer max_length dest_pid) [
      | inr (_, idle) ↦
          cc (packets_box empty box.hit q, idle k box.below (q.owners dest_pid k ∙ box.hit))
      | inl (j, w, r) ↦
          subst
            (λ (p : Packet).
              let out = (mailbox_recv sent dest_pid buffer max_length).0 in
              (out.sender ≡ some p.sender)
              × (out.result ≡ pos (length p.bytes))
              × (window out.buffer 0 (fitting p max_length) ≡ take (fitting p max_length) p.bytes))
            (sym (first_is empty box.hit q j r.p r.others w.owned r.first))
            (r.sender, r.result, r.stored)
    ]
  ]
