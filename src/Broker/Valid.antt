-- ===== src/Broker/Valid.antt =====
-- The invariant of the broker: what holds whenever its mutex is free.
use atomic_queue.Prelude.{ℕ, ◌+◌, ◌^◌, ◌≤◌, ◌<◌, ◌≡◌, refl, ◌≢◌, true, false, List, length, arith}
use atomic_queue.Broker.Queues.{Delivery, IsTidy, queued_weight}
use atomic_queue.Broker.Ops.{Broker, new_broker, is_closed}
use atomic_queue.Broker.Served.{AllServed}

abbrev pub size_of : Delivery → ℕ
size_of d = length d.payload

-- The signals made so far are closed, all but the current one; no other has been closed.
pub record SignalsOk (now next : ℕ) (closed : List ℕ) : Type 0 where
  pub made : now < next
  pub current : is_closed now closed ≡ false
  pub past : (s : ℕ) → s < next → s ≢ now → is_closed s closed ≡ true
  pub future : (s : ℕ) → next ≤ s → is_closed s closed ≡ false

pub record IsValid (b : Broker) : Type 0 where
  pub tidy : IsTidy b.queues
  pub counted : b.queued_bytes ≡ queued_weight size_of b.queues
  pub bounded : b.queued_bytes ≤ b.max_queued_bytes
  pub roomy : b.max_queued_bytes + b.max_bytes < 2 ^ 63
  pub served : AllServed b.queues b.waiters
  pub signals : SignalsOk b.drain_signal b.next_signal b.closed_signals

pub new_broker-IsValid :
    (max_bytes max_queued_bytes : ℕ)
    → max_queued_bytes + max_bytes < 2 ^ 63
    → IsValid (new_broker max_bytes max_queued_bytes)
unfolding new_broker queued_weight is_closed
new_broker-IsValid m q h = record {
  tidy = tt;
  counted = refl;
  bounded = omega arith;
  roomy = h;
  served = tt;
  signals = record {
    made = omega arith;
    current = refl;
    past = λ s h₁ h₂. absurd (h₂ (omega arith));
    future = λ s h₁. refl;
  };
}
