-- ===== src/Broker/Cases.antt =====
-- What each locked stretch of the broker does, branch by branch, in plain arithmetic.
use atomic_queue.Prelude.{
  ℕ, ◌+◌, ◌-◌, ◌%◌, ◌^◌, ◌≤◌, ◌<◌, ◌≡◌, refl, inl, inr, true, Bool-cases, Option, none, some, List,
  [], ◌∷◌, ◌++◌, length, take, get_elem?, leb, arith,
}
use atomic_queue.Prelude.Int.{add64, le64}
use atomic_queue.Fault.{Bytes}
use atomic_queue.Broker.Queues.{get_queue, put_queue}
use atomic_queue.Broker.Waiters.{
  Waiter, waiter_matches, find_waiter, erase_idx, remove_waiter_at-erase_idx, lt-length, NoTaker,
  Found, find_waiter-Found,
}
use atomic_queue.Broker.Ops.{Broker, PushTurn, handed, queued, blocked, push_turn, leave_queue}
use atomic_queue.Broker.Valid.{IsValid}

-- The broker with the payload behind the others of its channel.
abbrev pub enqueued : Broker → Bytes → Bytes → Broker
enqueued b c p = record b {
  queues = put_queue c (get_queue c b.queues ++ p ∷ []) b.queues;
  queued_bytes = b.queued_bytes + length p;
}

-- The broker without the waiter at an index.
abbrev pub dismissed : Broker → ℕ → Broker
dismissed b i = record b { waiters = erase_idx b.waiters i }

-- The broker without the first payload of a channel, and with a new signal.
abbrev pub drained : Broker → Bytes → Bytes → List Bytes → Broker
drained b c p q = record b {
  queues = leave_queue c q b.queues;
  queued_bytes = b.queued_bytes - length p;
  closed_signals = b.drain_signal ∷ b.closed_signals;
  drain_signal = b.next_signal;
  next_signal = b.next_signal + 1;
}

-- One round of a push: the first waiter that wants the channel gets the message; with no such
-- waiter the message is queued if it fits, and else the push waits for the current signal.
pub data Pushes (b : Broker) (c p : Bytes) (r : PushTurn × Broker) : Type 0 where
  to_waiter :
      (i : ℕ) (w : Waiter)
      → get_elem? b.waiters i ≡ some w
      → waiter_matches w.channels c ≡ true
      → NoTaker c (take i b.waiters)
      → r ≡ (handed w.id, dismissed b i)
      → Pushes b c p r
  to_queue :
      NoTaker c b.waiters
      → b.queued_bytes + length p ≤ b.max_queued_bytes
      → r ≡ (queued, enqueued b c p)
      → Pushes b c p r
  must_wait :
      NoTaker c b.waiters
      → b.max_queued_bytes < b.queued_bytes + length p
      → r ≡ (blocked b.drain_signal b.queued_bytes b.max_queued_bytes, b)
      → Pushes b c p r

-- The capacity test of `push` does not overflow.
room_test :
    (b : Broker) (n : ℕ)
    → IsValid b
    → n ≤ b.max_bytes
    → (add64 b.queued_bytes (n % 2 ^ 64) ≡ b.queued_bytes + n)
      × (le64 (b.queued_bytes + n) b.max_queued_bytes ≡ leb (b.queued_bytes + n) b.max_queued_bytes)
room_test b n v h = (omega (arith, v.roomy, v.bounded), ground (arith, v.roomy, v.bounded))

-- On a valid broker and a payload of at most `max_bytes`, `push_turn` is as `Pushes` says.
pub push_turn-Pushes :
    (b : Broker) (c p : Bytes) → IsValid b → length p ≤ b.max_bytes → Pushes b c p (push_turn b c p)
unfolding push_turn
push_turn-Pushes b c p v small =
    go (find_waiter c 0 b.waiters) (find_waiter-Found c 0 b.waiters) refl
  where
    go :
        (r : Option (ℕ × Waiter))
        → Found c 0 b.waiters r
        → find_waiter c 0 b.waiters ≡ r
        → Pushes b c p (push_turn b c p)
    go (some (j, w)) (i, at, got, fits, first) e =
        let here : j ≡ i = omega arith in
        to_waiter i w got fits first (
          rw (e, push_turn)
            (rw (here, remove_waiter_at-erase_idx i b.waiters (lt-length b.waiters i w got))))
    go none f e = elim (Bool-cases (leb (b.queued_bytes + length p) b.max_queued_bytes)) [
      | inl fits ↦ to_queue f (ground arith) (
          rw (e, push_turn)
            (rw ((room_test b (length p) v small).0)
              (rw ((room_test b (length p) v small).1, fits))))
      | inr full ↦ must_wait f (ground arith) (
          rw (e, push_turn)
            (rw ((room_test b (length p) v small).0)
              (rw ((room_test b (length p) v small).1, full))))
    ]
