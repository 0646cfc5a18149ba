-- ===== src/System/Weights.antt =====
-- Messages counted by a weight: a message that a push has accepted, and one that a goroutine holds.
use atomic_queue.Prelude.{ℕ}
use atomic_queue.Broker.Queues.{Delivery}
use atomic_queue.System.{
  Phase, pushing, handing, parked, pushed, push_failed, popping, waiting, cancelling, receiving,
  checking, popped, pop_failed,
}

-- A push that has handed over or queued its message, or is about to hand it over.
abbrev pub accepted : (Delivery → ℕ) → Phase → ℕ
accepted f (handing id d) = f d
accepted f (pushed d) = f d
accepted f (pushing c p) = 0
accepted f (parked c p sig) = 0
accepted f (push_failed e) = 0
accepted f (popping cs) = 0
accepted f (waiting id) = 0
accepted f (cancelling id) = 0
accepted f (receiving id) = 0
accepted f (checking id) = 0
accepted f (popped d) = 0
accepted f (pop_failed e) = 0

-- A message on its way to a reply channel.
abbrev pub in_transit : (Delivery → ℕ) → Phase → ℕ
in_transit f (handing id d) = f d
in_transit f _ = 0

-- A message that a pop has returned.
abbrev pub returned : (Delivery → ℕ) → Phase → ℕ
returned f (popped d) = f d
returned f _ = 0
