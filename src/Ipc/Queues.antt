-- ===== src/Ipc/Queues.antt =====
-- What the tables of src/kernel/ipc.cpp stand for: a queue of packets for each mailbox.
use trieternal_x_os.Base.{
  ℕ, ◌%◌, ◌^◌, ◌<◌, ◌≡◌, ◌≢◌, refl, true, false, List, [], ◌∷◌, ◌++◌, map, arith, window, length,
  ap,
}
use mathlib.Core.Path.{ap₂}
use trieternal_x_os.Base.{◌+◌}
use trieternal_x_os.Base.Int.{ℤ}
use trieternal_x_os.Ipc.{Message, Ipc, max_messages}
use trieternal_x_os.Ipc.Links.{Pool, has, Distinct, Links, last}

-- What a receiver can learn of a message.
pub record Packet : Type 0 where
  pub sender : ℤ
  pub receiver : ℤ
  pub bytes : List ℕ

abbrev pub packet : Message → Packet
packet m = record {
  sender = m.sender_pid;
  receiver = m.receiver_pid;
  bytes = window m.payload 0 m.size;
}

abbrev pub packets : Pool → List ℕ → List Packet
packets pool = map (λ i. packet (pool i))

-- `qs k` lists the pool entries queued in mailbox `k`: its links lead through them from head to
-- tail, its count is their number, each is a used entry of the pool, and each stands once in one
-- queue. No used entry is outside the queues.
pub record Holds (m : Ipc) (qs : ℕ → List ℕ) : Type 0 where
  pub links : (k : ℕ) → Links m.msg_pool (m.mailboxes k).head (qs k)
  pub tails : (k : ℕ) → (m.mailboxes k).tail ≡ last (qs k)
  pub counts : (k : ℕ) → (m.mailboxes k).count ≡ length (qs k) % 2 ^ 32
  pub once : (k : ℕ) → Distinct (qs k)
  pub apart : (k l i : ℕ) → k ≢ l → has i (qs k) ≡ true → has i (qs l) ≡ false
  pub inside : (k i : ℕ) → has i (qs k) ≡ true → i < max_messages
  pub taken : (k i : ℕ) → has i (qs k) ≡ true → (m.msg_pool i).used ≡ true
  pub kept :
      (i : ℕ) → (m.msg_pool i).used ≡ true → i < max_messages → (k : ℕ) × (has i (qs k) ≡ true)
  pub closed : (k : ℕ) → (m.mailboxes k).used ≡ false → qs k ≡ []

-- Entries that look alike make the same packets.
pub packets-congr :
    (p q : Pool) (xs : List ℕ)
    → ((j : ℕ) → has j xs ≡ true → packet (q j) ≡ packet (p j))
    → packets q xs ≡ packets p xs
packets-congr p q [] same = refl
packets-congr p q (x ∷ xs) same =
    ap₂ ◌∷◌ (same x (ground arith)) (packets-congr p q xs (λ j m. same j (ground arith)))

pub packets-append :
    (p : Pool) (xs ys : List ℕ) → packets p (xs ++ ys) ≡ packets p xs ++ packets p ys
packets-append p [] ys = refl
packets-append p (x ∷ xs) ys = ap (λ r. packet (p x) ∷ r) (packets-append p xs ys)

pub length-snoc : (xs : List ℕ) (i : ℕ) → length (xs ++ i ∷ []) ≡ length xs + 1
length-snoc [] i = refl
length-snoc (x ∷ xs) i = omega (arith, length-snoc xs i)
