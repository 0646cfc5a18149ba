-- ===== src/Broker/Invariant.antt =====
-- Each locked stretch of the broker keeps its invariant.
use atomic_queue.Prelude.{
  ℕ, ◌+◌, ◌≤◌, ◌≡◌, Bool, Bool-cases, inl, inr, List, [], ◌∷◌, length, All, All-append, ◌==◌, arith,
}
use atomic_queue.Fault.{Bytes}
use atomic_queue.Broker.Queues.{get_queue, put_queue-IsTidy}
use atomic_queue.Broker.Waiters.{Waiter, All-erase_idx, NoTaker}
use atomic_queue.Broker.Ops.{Broker, is_closed, push_turn, pop_turn, cancel_turn, enlist}
use atomic_queue.Broker.Served.{
  IsDry, put_queue-Elsewhere, leave_queue-Elsewhere, leave_queue-IsTidy, queued_weight-leave_queue,
  queued_weight-enqueue, snoc-ne-nil, AllServed-other, NoTaker-queued,
}
use atomic_queue.Broker.Valid.{IsValid, SignalsOk, size_of}
use atomic_queue.Broker.Cases.{
  enqueued, dismissed, drained, Pushes, to_waiter, to_queue, must_wait, push_turn-Pushes,
}
use atomic_queue.Broker.PopCases.{
  Pops, takes, gives_up, waits, pop_turn-Pops, Cancels, leaves, had_left, cancel_turn-Cancels,
}

pub enqueued-IsValid :
    (b : Broker) (c p : Bytes)
    → IsValid b
    → NoTaker c b.waiters
    → b.queued_bytes + length p ≤ b.max_queued_bytes
    → IsValid (enqueued b c p)
enqueued-IsValid b c p v none_wait room = record {
  tidy = put_queue-IsTidy c _ b.queues (snoc-ne-nil (get_queue c b.queues) p) v.tidy;
  counted = omega (arith, v.counted, queued_weight-enqueue size_of c p b.queues);
  bounded = room;
  roomy = v.roomy;
  served =
      AllServed-other c b.queues _ b.waiters (put_queue-Elsewhere c _ b.queues) none_wait v.served;
  signals = v.signals;
}

dismissed-IsValid : (b : Broker) (i : ℕ) → IsValid b → IsValid (dismissed b i)
dismissed-IsValid b i v = record {
  tidy = v.tidy;
  counted = v.counted;
  bounded = v.bounded;
  roomy = v.roomy;
  served = All-erase_idx _ b.waiters i v.served;
  signals = v.signals;
}

-- The old signal is closed for the first time, and the new one is open.
next-SignalsOk :
    (now next : ℕ) (closed : List ℕ)
    → SignalsOk now next closed
    → SignalsOk next (next + 1) (now ∷ closed)
unfolding is_closed
next-SignalsOk now next closed v = record {
  made = omega arith;
  current = ground (arith, v.made, v.future next);
  past = λ s h₁ h₂. elim (Bool-cases (now == s)) [
    | inl e ↦ rw e
    | inr e ↦ rw e (v.past s (omega arith) (λ same. ground arith))
  ];
  future = λ s h. ground (arith, v.made, v.future s);
}

pub drained-IsValid :
    (b : Broker) (c p : Bytes) (q : List Bytes)
    → IsValid b
    → get_queue c b.queues ≡ p ∷ q
    → IsValid (drained b c p q)
drained-IsValid b c p q v e = record {
  tidy = leave_queue-IsTidy c q b.queues v.tidy;
  counted = omega (arith, v.counted, queued_weight-leave_queue size_of c p q b.queues v.tidy e);
  bounded = omega (arith, v.bounded);
  roomy = v.roomy;
  served =
      AllServed-other c b.queues _ b.waiters (leave_queue-Elsewhere c q b.queues)
        (NoTaker-queued c b.queues b.waiters (λ none_left. cc) v.served) v.served;
  signals = next-SignalsOk b.drain_signal b.next_signal b.closed_signals v.signals;
}

enlist-IsValid :
    (b : Broker) (w : Waiter) → IsValid b → All (IsDry b.queues) w.channels → IsValid (enlist b w)
unfolding enlist
enlist-IsValid b w v dry = record {
  tidy = v.tidy;
  counted = v.counted;
  bounded = v.bounded;
  roomy = v.roomy;
  served = All-append _ b.waiters (w ∷ []) v.served (dry, tt);
  signals = v.signals;
}

-- A round of a push of at most `max_bytes` keeps the broker valid: the bytes queued are those of
-- the payloads and stay within the limit, no empty queue is kept, no payload is queued on a channel
-- that somebody waits for, and exactly the past signals are closed.
pub push_turn-IsValid :
    (b : Broker) (c p : Bytes) → IsValid b → length p ≤ b.max_bytes → IsValid (push_turn b c p).1
push_turn-IsValid b c p v small = go (push_turn-Pushes b c p v small)
  where
    go : Pushes b c p (push_turn b c p) → IsValid (push_turn b c p).1
    go (to_waiter i w got fits first r) = rw r (dismissed-IsValid b i v)
    go (to_queue none_wait room r) = rw r (enqueued-IsValid b c p v none_wait room)
    go (must_wait none_wait full r) = rw r v

-- The locked part of a pop keeps the broker valid, whether it takes a message, gives up or waits.
pub pop_turn-IsValid :
    (b : Broker) (ctx_done : Bool) (cs : List Bytes) (id : ℕ)
    → IsValid b
    → IsValid (pop_turn b ctx_done cs id).1
pop_turn-IsValid b ctx_done cs id v = go (pop_turn-Pops b ctx_done cs id v)
  where
    go : Pops b ctx_done cs id (pop_turn b ctx_done cs id) → IsValid (pop_turn b ctx_done cs id).1
    go (takes c p q before after split dry at r) = rw r (drained-IsValid b c p q v at)
    go (gives_up dry e r) = rw r v
    go (waits dry e r) = rw r (enlist-IsValid b (record { id = id; channels = cs }) v dry)

-- The end of a pop whose context is done keeps the broker valid.
pub cancel_turn-IsValid : (b : Broker) (id : ℕ) → IsValid b → IsValid (cancel_turn b id).1
cancel_turn-IsValid b id v = go (cancel_turn-Cancels b id)
  where
    go : Cancels b id (cancel_turn b id) → IsValid (cancel_turn b id).1
    go (leaves i w got same r) = rw r (dismissed-IsValid b i v)
    go (had_left h r) = rw r v
