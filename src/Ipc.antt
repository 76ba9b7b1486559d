-- ===== src/Ipc.antt =====
-- Message passing, src/kernel/ipc.cpp: a pool of 64 messages and 16 mailboxes, each a linked queue of
-- pool entries. `IPCMessage*` is `none` for the null pointer and `some i` for `&msg_pool[i]`.
pub mod Links
pub mod Queues
pub mod Enqueue
pub mod Send
pub mod Dequeue
pub mod Receive
pub mod Exchange
pub mod Boxes
mod Examples
use trieternal_x_os.Base.{
  ℕ, zero, suc, ◌+◌, Bool, true, false, not, ◌&&◌, Option, none, some, ltb, if◌then◌else◌, update,
  find_from, copy_from,
}
use trieternal_x_os.Base.Int.{ℤ, pos, negsuc, eq_ℤ, minus_one}
use trieternal_x_os.Base.Words.{add32, sub32}

abbrev pub max_messages : ℕ
max_messages = 64

abbrev pub max_msg_size : ℕ
max_msg_size = 256

abbrev pub max_mailboxes : ℕ
max_mailboxes = 16

-- `payload` is the array `data`.
pub record Message : Type 0 where
  pub sender_pid : ℤ
  pub receiver_pid : ℤ
  pub size : ℕ
  pub payload : ℕ → ℕ
  pub used : Bool
  pub next : Option ℕ

pub record Mailbox : Type 0 where
  pub owner_pid : ℤ
  pub head : Option ℕ
  pub tail : Option ℕ
  pub count : ℕ
  pub used : Bool

pub record Ipc : Type 0 where
  pub msg_pool : ℕ → Message
  pub mailboxes : ℕ → Mailbox
  pub mailbox_count : ℕ

abbrev pub set_message : Ipc → ℕ → Message → Ipc
set_message m i msg = record m { msg_pool = update m.msg_pool i msg }

abbrev pub set_mailbox : Ipc → ℕ → Mailbox → Ipc
set_mailbox m k b = record m { mailboxes = update m.mailboxes k b }

-- The two loops of `ipc_init`.
clear_messages : ℕ → ℕ → Ipc → Ipc
clear_messages zero i m = m
clear_messages (suc n) i m =
    clear_messages n (i + 1) (set_message m i (record (m.msg_pool i) { used = false; next = none }))

abbrev empty_box : Mailbox → Mailbox
empty_box b = record b { used = false; head = none; tail = none; count = 0 }

clear_mailboxes : ℕ → ℕ → Ipc → Ipc
clear_mailboxes zero k m = m
clear_mailboxes (suc n) k m =
    clear_mailboxes n (k + 1) (set_mailbox m k (empty_box (m.mailboxes k)))

unfoldable pub init : Ipc → Ipc
unfolding clear_messages clear_mailboxes
init m = record (clear_mailboxes max_mailboxes 0 (clear_messages max_messages 0 m)) {
  mailbox_count = 0;
}

unfoldable pub alloc_message : Ipc → Option ℕ × Ipc
unfolding find_from
alloc_message m = elim (find_from (λ i. not (m.msg_pool i).used) max_messages 0) [
  | none ↦ (none, m)
  | some i ↦ (some i, set_message m i (record (m.msg_pool i) { used = true; next = none }))
]

unfoldable pub free_message : Ipc → ℕ → Ipc
free_message m i = set_message m i (record (m.msg_pool i) { used = false; next = none })

-- The test of the loops over the mailboxes.
abbrev pub owns : Ipc → ℤ → ℕ → Bool
owns m pid k = (m.mailboxes k).used && eq_ℤ (m.mailboxes k).owner_pid pid

-- Links message `i` behind the last one of mailbox `k`.
unfoldable pub enqueue : Ipc → ℕ → ℕ → Ipc
enqueue m k i =
    let box = m.mailboxes k in
    let m1 = set_message m i (record (m.msg_pool i) { next = none }) in
    elim box.tail [
      | some t ↦
          set_mailbox (set_message m1 t (record (m1.msg_pool t) { next = some i })) k
            (record box { tail = some i; count = add32 box.count 1 })
      | none ↦
          set_mailbox m1 k (record box { head = some i; tail = some i; count = add32 box.count 1 })
    ]

-- Writes the header and copies the bytes of an outgoing message into pool entry `i`.
unfoldable pub fill_message : ℤ → Ipc → ℕ → ℤ → (ℕ → ℕ) → ℕ → Ipc
unfolding copy_from
fill_message current m i dest_pid src len =
    let old = m.msg_pool i in
    set_message m i (record old {
      sender_pid = current;
      receiver_pid = dest_pid;
      size = len;
      payload = copy_from len 0 src old.payload;
    })

-- The end of `ipc_send`: message `i` goes to the mailbox found, or back to the pool.
unfoldable pub dispatch : Ipc → ℕ → Option ℕ → ℤ × Ipc
unfolding enqueue free_message
dispatch m i (some k) = (pos 0, enqueue m k i)
dispatch m i none = (minus_one, free_message m i)

unfoldable pub send_with : ℤ → ℤ → (ℕ → ℕ) → ℕ → Option ℕ × Ipc → ℤ × Ipc
unfolding fill_message dispatch find_from
send_with current dest_pid src len (none, m) = (minus_one, m)
send_with current dest_pid src len (some i, m) =
    let full = fill_message current m i dest_pid src len in
    dispatch full i (find_from (owns full dest_pid) max_mailboxes 0)

-- `current` is what `process_get_pid()` returns, and `src j` the byte `((uint8_t*)data)[j]`.
unfoldable pub send : ℤ → Ipc → ℤ → (ℕ → ℕ) → ℕ → ℤ × Ipc
unfolding alloc_message send_with
send current m dest_pid src length =
    send_with current dest_pid src (if ltb max_msg_size length then max_msg_size else length)
      (alloc_message m)

-- What a receiver gets: the return value, what is stored through `sender_pid`, and the buffer.
pub record Delivery : Type 0 where
  pub result : ℤ
  pub sender : Option ℤ
  pub buffer : ℕ → ℕ

-- Takes message `i` off the head of mailbox `k`.
unfoldable pub dequeue : Ipc → ℕ → ℕ → Ipc
dequeue m k i =
    let box = m.mailboxes k in
    let next = (m.msg_pool i).next in
    let tail : Option ℕ = elim next [ none ↦ none | some _ ↦ box.tail ] in
    set_mailbox m k (record box { head = next; tail = tail; count = sub32 box.count 1 })

unfoldable pub deliver : Ipc → ℕ → ℕ → (ℕ → ℕ) → ℕ → Delivery × Ipc
unfolding dequeue copy_from free_message
deliver m k i buffer max_length =
    let msg = m.msg_pool i in
    let to_copy = if ltb max_length msg.size then max_length else msg.size in
    (
      record {
        result = pos msg.size;
        sender = some msg.sender_pid;
        buffer = copy_from to_copy 0 msg.payload buffer;
      },
      free_message (dequeue m k i) i,
    )

abbrev pub has_head : Ipc → ℕ → Bool
has_head m k = elim (m.mailboxes k).head [ none ↦ false | some _ ↦ true ]

abbrev pub nothing : (ℕ → ℕ) → Delivery
nothing buffer = record { result = minus_one; sender = none; buffer = buffer }

-- The body of the loop of `ipc_mailbox_recv`, at the head of the mailbox where it stops.
unfoldable pub recv_head : Ipc → (ℕ → ℕ) → ℕ → ℕ → Option ℕ → Delivery × Ipc
recv_head m buffer max_length k (some i) = deliver m k i buffer max_length
recv_head m buffer max_length k none = (nothing buffer, m)

unfoldable pub recv_from : Ipc → (ℕ → ℕ) → ℕ → Option ℕ → Delivery × Ipc
unfolding recv_head
recv_from m buffer max_length (some k) = recv_head m buffer max_length k (m.mailboxes k).head
recv_from m buffer max_length none = (nothing buffer, m)

-- `ipc_mailbox_recv`: the loop stops at the first mailbox of `mailbox_pid` that holds a message.
unfoldable pub mailbox_recv : Ipc → ℤ → (ℕ → ℕ) → ℕ → Delivery × Ipc
unfolding recv_from
mailbox_recv m mailbox_pid buffer max_length =
    recv_from m buffer max_length
      (find_from (λ k. owns m mailbox_pid k && has_head m k) max_mailboxes 0)

-- `ipc_receive` has the text of `ipc_mailbox_recv` with the caller's own pid.
unfoldable pub receive : ℤ → Ipc → (ℕ → ℕ) → ℕ → Delivery × Ipc
unfolding mailbox_recv
receive current m buffer max_length = mailbox_recv m current buffer max_length

unfoldable pub mailbox_send : ℤ → Ipc → ℤ → (ℕ → ℕ) → ℕ → ℤ × Ipc
unfolding send
mailbox_send current m dest_pid src length = send current m dest_pid src length

unfoldable pub mailbox_create : Ipc → ℤ → ℤ × Ipc
unfolding find_from
mailbox_create m pid = elim (find_from (λ k. not (m.mailboxes k).used) max_mailboxes 0) [
  | none ↦ (minus_one, m)
  | some k ↦ (
    pos 0,
    record (set_mailbox m k
        (record { owner_pid = pid; head = none; tail = none; count = 0; used = true })) {
          mailbox_count = m.mailbox_count + 1;
        },
  )
]
