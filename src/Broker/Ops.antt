-- ===== src/Broker/Ops.antt =====
-- broker.go: the state of the broker and what it does under its mutex, a function for each stretch
-- of code between `b.mu.Lock()` and `b.mu.Unlock()`.
use atomic_queue.Prelude.{
  ℕ, ◌+◌, ◌%◌, ◌^◌, Bool, false, Option, none, some, List, [], ◌∷◌, ◌++◌, ◌||◌, length, ◌==◌,
  if◌then◌else◌,
}
use atomic_queue.Prelude.Int.{add64, sub64, le64}
use atomic_queue.Fault.{Bytes, Error, no_channels}
use atomic_queue.Channel.{validate_channel, validate_payload}
use atomic_queue.Broker.Queues.{Delivery, Queues, get_queue, put_queue, delete_queue}
use atomic_queue.Broker.Waiters.{Waiter, find_waiter, remove_waiter_at, remove_waiter}

-- `Broker`. The int64 fields are 64-bit patterns. A channel that `make` returned for `drainSignal`
-- is a number, `next_signal` is the first one that is still free, and `closed_signals` are those
-- that have been closed.
pub record Broker : Type 0 where
  pub queues : Queues
  pub waiters : List Waiter
  pub max_bytes : ℕ
  pub queued_bytes : ℕ
  pub max_queued_bytes : ℕ
  pub drain_signal : ℕ
  pub next_signal : ℕ
  pub closed_signals : List ℕ

unfoldable pub new_broker : ℕ → ℕ → Broker
new_broker max_bytes max_queued_bytes = record {
  queues = [];
  waiters = [];
  max_bytes = max_bytes;
  queued_bytes = 0;
  max_queued_bytes = max_queued_bytes;
  drain_signal = 0;
  next_signal = 1;
  closed_signals = [];
}

-- Whether a receive from the signal returns at once.
unfoldable pub is_closed : ℕ → List ℕ → Bool
is_closed sig [] = false
is_closed sig (s ∷ ss) = s == sig || is_closed sig ss

-- The guards of `push`, before the lock.
unfoldable pub check_push : Broker → Bytes → Bytes → Option Error
unfolding validate_channel validate_payload
check_push b channel payload = elim (validate_channel channel) [
  | some e ↦ some e
  | none ↦ validate_payload payload b.max_bytes
]

-- The guards of `Pop`, before the lock.
unfoldable pub check_channels : List Bytes → Option Error
check_channels [] = none
check_channels (channel ∷ rest) = elim (validate_channel channel) [
  | some e ↦ some e
  | none ↦ check_channels rest
]

unfoldable pub check_pop : List Bytes → Option Error
unfolding check_channels
check_pop [] = some no_channels
check_pop (channel ∷ rest) = check_channels (channel ∷ rest)

-- One round of the loop of `push`: the payload goes to a waiter or to the queue, or the push has
-- to wait for a signal, and first tells `onBlock` of the bytes queued and their limit.
pub data PushTurn : Type 0 where
  handed : ℕ → PushTurn
  queued : PushTurn
  blocked : (sig queued_bytes max_queued_bytes : ℕ) → PushTurn

unfoldable pub push_turn : Broker → Bytes → Bytes → PushTurn × Broker
push_turn b channel payload =
    let size = length payload % 2 ^ 64 in
    let total = add64 b.queued_bytes size in
    elim (find_waiter channel 0 b.waiters) [
      | some (i, w) ↦ (handed w.id, record b { waiters = remove_waiter_at i b.waiters })
      | none ↦
          if le64 total b.max_queued_bytes
          then (
            queued,
            record b {
              queues = put_queue channel (get_queue channel b.queues ++ payload ∷ []) b.queues;
              queued_bytes = total;
            },
          )
          else (blocked b.drain_signal b.queued_bytes b.max_queued_bytes, b)
    ]

-- `close(b.drainSignal)` and a new one.
unfoldable pub signal_drain : Broker → Broker
signal_drain b = record b {
  closed_signals = b.drain_signal ∷ b.closed_signals;
  drain_signal = b.next_signal;
  next_signal = b.next_signal + 1;
}

-- What stays of a queue whose first payload is taken.
unfoldable pub leave_queue : Bytes → List Bytes → Queues → Queues
leave_queue channel [] queues = delete_queue channel queues
leave_queue channel (p ∷ rest) queues = put_queue channel (p ∷ rest) queues

unfoldable pub take_front : Broker → Bytes → Bytes → List Bytes → Broker
unfolding signal_drain leave_queue
take_front b channel payload rest = signal_drain (record b {
  queues = leave_queue channel rest b.queues;
  queued_bytes = sub64 b.queued_bytes (length payload % 2 ^ 64);
})

-- `popQueuedLocked`
unfoldable pub pop_queued : List Bytes → Broker → Option Delivery × Broker
pop_queued [] b = (none, b)
pop_queued (channel ∷ rest) b =
    let later = pop_queued rest b in
    elim (get_queue channel b.queues) [
      | [] ↦ later
      | payload ∷ behind ↦ (
        some (record { channel = channel; payload = payload }),
        take_front b channel payload behind,
      )
    ]

-- The locked part of `Pop`: a queued message, or the context is over (`ctx.Err()`), or a new waiter
-- of the given identity.
pub data PopTurn : Type 0 where
  took : Delivery → PopTurn
  over : PopTurn
  enlisted : PopTurn

unfoldable pub enlist : Broker → Waiter → Broker
enlist b w = record b { waiters = b.waiters ++ w ∷ [] }

unfoldable pub settle_pop :
    (ctx_done : Bool) → List Bytes → ℕ → Option Delivery × Broker → PopTurn × Broker
settle_pop ctx_done channels id (some d, b) = (took d, b)
settle_pop ctx_done channels id (none, b) =
    if ctx_done then (over, b) else (enlisted, enlist b (record { id = id; channels = channels }))

unfoldable pub pop_turn : Broker → (ctx_done : Bool) → List Bytes → ℕ → PopTurn × Broker
unfolding settle_pop
pop_turn b ctx_done channels id = settle_pop ctx_done channels id (pop_queued channels b)

-- The locked part of the end of `Pop`, when its context is done first.
unfoldable pub cancel_turn : Broker → ℕ → Bool × Broker
cancel_turn b id =
    let (removed, waiters) = remove_waiter id b.waiters in (removed, record b { waiters = waiters })
