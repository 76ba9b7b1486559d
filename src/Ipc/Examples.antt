-- ===== src/Ipc/Examples.antt =====
-- The theorems about src/kernel/ipc.cpp at concrete tables, and test runs.
use trieternal_x_os.Base.{
  ℕ, ◌+◌, ◌<◌, ◌≡◌, ◌⊎◌, refl, true, false, none, some, List, [], ◌∷◌, arith, ◌==◌, if◌then◌else◌,
  window, length, take,
}
use trieternal_x_os.Base.Int.{pos, minus_one}
use trieternal_x_os.Ipc.{
  Message, Mailbox, Ipc, max_mailboxes, owns, nothing, send, mailbox_recv, receive, deliver,
}
use trieternal_x_os.Ipc.Queues.{Holds}
use trieternal_x_os.Ipc.Send.{IsBoxOf, Queued, Unchanged, IsPoolFull, HasNoBox, outgoing, send_lem}
use trieternal_x_os.Ipc.Receive.{IsWaiting, Received, fitting, mailbox_recv_lem}
use trieternal_x_os.Ipc.Exchange.{mailbox_recv-send}
use trieternal_x_os.Ipc.Boxes.{IsBounded}

abbrev blank_message : Message
blank_message = record {
  sender_pid = pos 0;
  receiver_pid = pos 0;
  size = 0;
  payload = λ i. 0;
  used = false;
  next = none;
}

abbrev closed_box : Mailbox
closed_box = record { owner_pid = pos 0; head = none; tail = none; count = 0; used = false }

-- Process 7 owns mailbox 0, and the other mailboxes are closed.
abbrev desk : Ipc
desk = record {
  msg_pool = λ i. blank_message;
  mailboxes = λ k.
      if k == 0
      then record { owner_pid = pos 7; head = none; tail = none; count = 0; used = true }
      else closed_box;
  mailbox_count = 1;
}

abbrev no_queues : ℕ → List ℕ
no_queues k = []

desk-Holds : Holds desk no_queues
desk-Holds = record {
  links = λ k. ground arith;
  tails = λ k. ground arith;
  counts = λ k. ground arith;
  once = λ k. tt;
  apart = λ k l i ne t. refl;
  inside = λ k i t. cc;
  taken = λ k i t. cc;
  kept = λ i u b. cc;
  closed = λ k c. refl;
}

desk-IsBounded : IsBounded desk
desk-IsBounded = record {
  head = λ k b. ground arith;
  tail = λ k b. ground arith;
  count = λ k b. ground arith;
}

-- The bytes 1, 2, 3, ...
abbrev text : ℕ → ℕ
text i = i + 1

abbrev after_send : Ipc
after_send = (send (pos 3) desk (pos 7) text 2).1

two_bytes_arrive :
    let out = (mailbox_recv after_send (pos 7) (λ i. 9) 5).0 in
    (out.result ≡ pos 2) × (window out.buffer 0 3 ≡ 1 ∷ 2 ∷ 9 ∷ [])
unfolding send mailbox_recv deliver
two_bytes_arrive = (refl, refl)

-- The caller's buffer takes one byte, and the return value is 2.
overlong_reply :
    let out = (receive (pos 7) after_send (λ i. 9) 1).0 in
    (out.result ≡ pos 2) × (window out.buffer 0 2 ≡ 1 ∷ 9 ∷ [])
unfolding send receive deliver
overlong_reply = (refl, refl)

send_lem_example :
    let out = send (pos 3) desk (pos 7) text 2 in
    ((k : ℕ) × IsBoxOf desk (pos 7) k
      × (out.0 ≡ pos 0)
      × Queued desk no_queues k (outgoing (pos 3) (pos 7) text 2) out.1)
    ⊎ (out.0 ≡ minus_one)
      × Unchanged desk no_queues out.1
      × (IsPoolFull desk ⊎ HasNoBox desk (pos 7))
send_lem_example = send_lem (pos 3) desk (pos 7) text 2 desk-Holds

mailbox_recv_lem_example :
    let out = mailbox_recv desk (pos 7) (λ i. 9) 5 in
    ((k : ℕ) × IsWaiting desk no_queues (pos 7) k × Received desk no_queues k (λ i. 9) 5 out)
    ⊎ (out ≡ (nothing (λ i. 9), desk))
      × ((k : ℕ) → k < max_mailboxes → owns desk (pos 7) k ≡ true → no_queues k ≡ [])
mailbox_recv_lem_example = mailbox_recv_lem desk-Holds (λ i. 9) 5 (pos 7)

mailbox_recv-send_example :
    let p = outgoing (pos 3) (pos 7) text 2 in
    let out = (mailbox_recv after_send (pos 7) (λ i. 9) 5).0 in
    (out.sender ≡ some (pos 3))
    × (out.result ≡ pos (length p.bytes))
    × (window out.buffer 0 (fitting p 5) ≡ take (fitting p 5) p.bytes)
unfolding send
mailbox_recv-send_example =
    mailbox_recv-send (pos 3) desk-Holds (pos 7) text 2 (λ i. 9) 5 (λ k o. refl) refl
