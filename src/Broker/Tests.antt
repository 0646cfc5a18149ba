-- ===== src/Broker/Tests.antt =====
-- A broker with messages on two channels and one waiter, and its operations on it.
use atomic_queue.Prelude.{◌≡◌, refl, some, [], ◌∷◌, ◌++◌, bytes_eq, arith, length}
use atomic_queue.Fault.{Bytes}
use atomic_queue.Broker.Queues.{message, get_queue, has_key, queued_weight}
use atomic_queue.Broker.Waiters.{find_waiter, waiter_matches}
use atomic_queue.Broker.Ops.{Broker, is_closed, handed, queued, push_turn, pop_queued}
use atomic_queue.Broker.Valid.{IsValid}
use atomic_queue.Broker.Cases.{Pushes, push_turn-Pushes}
use atomic_queue.Broker.Fifo.{
  TakesOldest, view, push_seq, pop_seq, pop_queued-TakesOldest, first_in_first_out,
}

abbrev alpha : Bytes
alpha = b'a' ∷ []

abbrev beta : Bytes
beta = b'b' ∷ []

abbrev gamma : Bytes
gamma = b'c' ∷ []

abbrev loaded : Broker
loaded = record {
  queues = (alpha, (1 ∷ []) ∷ (2 ∷ 2 ∷ []) ∷ []) ∷ (beta, (3 ∷ []) ∷ []) ∷ [];
  waiters = record { id = 5; channels = gamma ∷ [] } ∷ [];
  max_bytes = 8;
  queued_bytes = 4;
  max_queued_bytes = 16;
  drain_signal = 0;
  next_signal = 1;
  closed_signals = [];
}

loaded-IsValid : IsValid loaded
unfolding has_key queued_weight get_queue is_closed bytes_eq
loaded-IsValid = record {
  tidy = (λ e. cc, refl, (λ e. cc, refl, tt));
  counted = refl;
  bounded = omega arith;
  roomy = omega arith;
  served = ((refl, tt), tt);
  signals = record {
    made = omega arith;
    current = refl;
    past = λ s h₁ h₂. absurd (h₂ (omega arith));
    future = λ s h. refl;
  };
}

push_to_queue : (push_turn loaded beta (7 ∷ [])).0 ≡ queued
unfolding push_turn find_waiter waiter_matches bytes_eq
push_to_queue = refl

push_to_waiter : (push_turn loaded gamma (7 ∷ [])).0 ≡ handed 5
unfolding push_turn find_waiter waiter_matches bytes_eq
push_to_waiter = refl

pop_second_choice : (pop_queued (gamma ∷ beta ∷ alpha ∷ []) loaded).0 ≡ some (message beta (3 ∷ []))
unfolding pop_queued get_queue bytes_eq
pop_second_choice = refl

push_turn-Pushes_example : Pushes loaded beta (7 ∷ []) (push_turn loaded beta (7 ∷ []))
push_turn-Pushes_example = push_turn-Pushes loaded beta (7 ∷ []) loaded-IsValid (omega arith)

pop_queued-TakesOldest_example :
    TakesOldest loaded (gamma ∷ alpha ∷ []) (pop_queued (gamma ∷ alpha ∷ []) loaded)
pop_queued-TakesOldest_example = pop_queued-TakesOldest loaded (gamma ∷ alpha ∷ []) loaded-IsValid

two_pushes_popped :
    pop_seq
      (length (view loaded beta ++ (4 ∷ []) ∷ (5 ∷ 6 ∷ []) ∷ []))
      (push_seq loaded beta ((4 ∷ []) ∷ (5 ∷ 6 ∷ []) ∷ []))
      beta
    ≡ (3 ∷ []) ∷ (4 ∷ []) ∷ (5 ∷ 6 ∷ []) ∷ []
unfolding waiter_matches bytes_eq get_queue
two_pushes_popped =
    first_in_first_out loaded beta ((4 ∷ []) ∷ (5 ∷ 6 ∷ []) ∷ []) loaded-IsValid (omega arith)
      (refl, tt) (omega arith)
