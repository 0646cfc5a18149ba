-- ===== src/Server/Live.antt =====
-- broker.go as handleConn of main.go calls it: PushOwned and Pop from their start to their return,
-- on the broker itself. What the other goroutines do between the calls, and while one waits, is a
-- parameter. A call here is one that returns.
use atomic_queue.Prelude.{ℕ, ◌+◌, Bool, Option, none, some, List}
use atomic_queue.Fault.{Bytes, Error, timed_out, Result, ok, err}
use atomic_queue.Broker.Queues.{Delivery}
use atomic_queue.Broker.Ops.{
  Broker, check_push, check_pop, PushTurn, handed, queued, blocked, push_turn, PopTurn, took, over,
  enlisted, pop_turn,
}
use atomic_queue.Server.{Calls}

-- The broker, and the number that the next waiter gets for its identity.
pub record Live : Type 0 where
  pub broker : Broker
  pub next_id : ℕ

-- `meanwhile` is what the other goroutines have done before a call takes the mutex. `ctx_err` says
-- whether the context of a pop is over at its first look, `while_blocked` is the outcome of a push
-- that waits for the signal, and `while_waiting` that of a pop with a waiter in the list.
pub record Others : Type 0 where
  pub meanwhile : Live → Live
  pub ctx_err : Live → (deadline : Option ℕ) → Bool
  pub while_blocked : Live → (channel payload : Bytes) (sig : ℕ) → Option Error × Live
  pub while_waiting : Live → (id : ℕ) (deadline : Option ℕ) → Result Delivery × Live

abbrev pub with_broker : Live → Broker → Live
with_broker s b = record s { broker = b }

module _ (others : Others) where
  unfoldable pub finish_push : Live → Bytes → Bytes → PushTurn × Broker → Option Error × Live
  finish_push s channel payload (handed id, b) = (none, with_broker s b)
  finish_push s channel payload (queued, b) = (none, with_broker s b)
  finish_push s channel payload (blocked sig queued_bytes max, b) =
      others.while_blocked (with_broker s b) channel payload sig

  unfoldable pub call_push : Live → Bytes → Bytes → Option Error × Live
  unfolding check_push push_turn finish_push
  call_push s channel payload = elim (check_push s.broker channel payload) [
    | some e ↦ (some e, s)
    | none ↦ finish_push s channel payload (push_turn s.broker channel payload)
  ]

  unfoldable pub finish_pop : Live → Option ℕ → PopTurn × Broker → Result Delivery × Live
  finish_pop s deadline (took d, b) = (ok d, with_broker s b)
  finish_pop s deadline (over, b) = (err timed_out, with_broker s b)
  finish_pop s deadline (enlisted, b) =
      others.while_waiting (record { broker = b; next_id = s.next_id + 1 }) s.next_id deadline

  unfoldable pub call_pop : Live → Option ℕ → List Bytes → Result Delivery × Live
  unfolding check_pop pop_turn finish_pop
  call_pop s deadline channels = elim (check_pop channels) [
    | some e ↦ (err e, s)
    | none ↦
        finish_pop s deadline (pop_turn s.broker (others.ctx_err s deadline) channels s.next_id)
  ]

  unfoldable pub broker_calls : Calls Live
  unfolding call_push call_pop
  broker_calls = record {
    push_owned = λ s. call_push (others.meanwhile s);
    pop = λ s. call_pop (others.meanwhile s);
  }
