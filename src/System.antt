-- ===== src/System.antt =====
-- broker.go under concurrency: any number of goroutines in `Push` and `Pop`, interleaved at the
-- mutex, at the reply channels, at the drain signal and at their contexts.
pub mod Paths
pub mod Weights
pub mod Grows
pub mod Invariant
pub mod Conservation
pub mod Logs
pub mod Linear
pub mod Buffers
pub mod Tickets
pub mod Replies
pub mod Handoff
pub mod Stall
pub mod Turns
mod Tests
use atomic_queue.Prelude.{
  ℕ, ◌≡◌, Bool, true, false, Option, none, some, List, [], ◌∷◌, ◌++◌, length, get_elem?, set,
}
use atomic_queue.Fault.{Bytes, Error, timed_out}
use atomic_queue.Broker.Queues.{Delivery, message}
use atomic_queue.Broker.Ops.{
  Broker, new_broker, is_closed, check_push, check_pop, PushTurn, handed, queued, blocked,
  push_turn, PopTurn, took, over, enlisted, pop_turn, cancel_turn,
}

-- Where a goroutine stands in `push` or `Pop`.
pub data Phase : Type 0 where
  -- `push`: before the lock; before `w.reply <- delivery`; in the `select`; returned
  pushing : (channel payload : Bytes) → Phase
  handing : (id : ℕ) → Delivery → Phase
  parked : (channel payload : Bytes) (sig : ℕ) → Phase
  pushed : Delivery → Phase
  push_failed : Error → Phase
  -- `Pop`: before the lock; in the `select`; before the second lock; before `msg := <-w.reply`;
  -- in the `select` with a default; returned
  popping : (channels : List Bytes) → Phase
  waiting : (id : ℕ) → Phase
  cancelling : (id : ℕ) → Phase
  receiving : (id : ℕ) → Phase
  checking : (id : ℕ) → Phase
  popped : Delivery → Phase
  pop_failed : Error → Phase

pub record Thread : Type 0 where
  pub ctx_done : Bool
  pub phase : Phase

-- The reply channels in the order in which they were made; what stands in the buffer of each.
abbrev pub Replies : Type 0
Replies = List (List Delivery)

pub record System : Type 0 where
  pub broker : Broker
  pub replies : Replies
  pub threads : List Thread

unfoldable pub start_push : Broker → Bytes → Bytes → Phase
start_push b channel payload = elim (check_push b channel payload) [
  | some e ↦ push_failed e
  | none ↦ pushing channel payload
]

unfoldable pub start_pop : List Bytes → Phase
start_pop channels = elim (check_pop channels) [ some e ↦ pop_failed e | none ↦ popping channels ]

unfoldable pub after_push : Bytes → Bytes → PushTurn → Phase
after_push channel payload (handed id) = handing id (message channel payload)
after_push channel payload queued = pushed (message channel payload)
after_push channel payload (blocked sig queued_bytes max) = parked channel payload sig

unfoldable pub after_pop : ℕ → PopTurn → Phase
after_pop id (took d) = popped d
after_pop id over = pop_failed timed_out
after_pop id enlisted = waiting id

-- `make(chan delivery, 1)` for a new waiter.
unfoldable pub make_reply : PopTurn → Replies → Replies
make_reply (took d) rs = rs
make_reply over rs = rs
make_reply enlisted rs = rs ++ [] ∷ []

unfoldable pub after_cancel : ℕ → Bool → Phase
after_cancel id true = checking id
after_cancel id false = receiving id

-- One step of one goroutine; `done` says whether its context is over. A send finds room in the
-- buffer of one element, and a receive finds an element.
pub data Move (b : Broker) (rs : Replies) (done : Bool)
    : Phase → Broker → Replies → Phase → Type 0 where
  push_lock :
      {c p : Bytes}
      → Move b rs done (pushing c p) (push_turn b c p).1 rs (after_push c p (push_turn b c p).0)
  send :
      {id : ℕ} {d : Delivery}
      → get_elem? rs id ≡ some []
      → Move b rs done (handing id d) b (set rs id (d ∷ [])) (pushed d)
  wake :
      {c p : Bytes} {sig : ℕ}
      → is_closed sig b.closed_signals ≡ true
      → Move b rs done (parked c p sig) b rs (pushing c p)
  push_expire :
      {c p : Bytes} {sig : ℕ}
      → done ≡ true
      → Move b rs done (parked c p sig) b rs (push_failed timed_out)
  pop_lock :
      {cs : List Bytes}
      → Move b rs done
          (popping cs)
          (pop_turn b done cs (length rs)).1
          (make_reply (pop_turn b done cs (length rs)).0 rs)
          (after_pop (length rs) (pop_turn b done cs (length rs)).0)
  receive :
      {id : ℕ} {d : Delivery} {q : List Delivery}
      → get_elem? rs id ≡ some (d ∷ q)
      → Move b rs done (waiting id) b (set rs id q) (popped d)
  pop_expire : {id : ℕ} → done ≡ true → Move b rs done (waiting id) b rs (cancelling id)
  cancel_lock :
      {id : ℕ}
      → Move b rs done
          (cancelling id)
          (cancel_turn b id).1
          rs
          (after_cancel id (cancel_turn b id).0)
  last_receive :
      {id : ℕ} {d : Delivery} {q : List Delivery}
      → get_elem? rs id ≡ some (d ∷ q)
      → Move b rs done (receiving id) b (set rs id q) (popped d)
  late_receive :
      {id : ℕ} {d : Delivery} {q : List Delivery}
      → get_elem? rs id ≡ some (d ∷ q)
      → Move b rs done (checking id) b (set rs id q) (popped d)
  nothing_late :
      {id : ℕ}
      → get_elem? rs id ≡ some []
      → Move b rs done (checking id) b rs (pop_failed timed_out)

abbrev pub called : Phase → Thread
called phase = record { ctx_done = false; phase = phase }

-- A new goroutine.
abbrev pub calling : System → Phase → System
calling s phase = record s { threads = s.threads ++ called phase ∷ [] }

pub data Step (s : System) : System → Type 0 where
  call_push : (channel payload : Bytes) → Step s (calling s (start_push s.broker channel payload))
  call_pop : (channels : List Bytes) → Step s (calling s (start_pop channels))
  finish :
      (i : ℕ) (t : Thread)
      → get_elem? s.threads i ≡ some t
      → Step s (record s { threads = set s.threads i (record t { ctx_done = true }) })
  run :
      (i : ℕ) (t : Thread) {b : Broker} {rs : Replies} {phase : Phase}
      → get_elem? s.threads i ≡ some t
      → Move s.broker s.replies t.ctx_done t.phase b rs phase
      → Step s (record {
        broker = b;
        replies = rs;
        threads = set s.threads i (record t { phase = phase });
      })

abbrev pub init : ℕ → ℕ → System
init max_bytes max_queued_bytes = record {
  broker = new_broker max_bytes max_queued_bytes;
  replies = [];
  threads = [];
}

-- What can happen to a broker that `NewBroker` has made.
pub data Reach (max_bytes max_queued_bytes : ℕ) : System → Type 0 where
  start : Reach max_bytes max_queued_bytes (init max_bytes max_queued_bytes)
  later :
      {s t : System}
      → Reach max_bytes max_queued_bytes s
      → Step s t
      → Reach max_bytes max_queued_bytes t
