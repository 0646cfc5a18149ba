-- ===== src/System/Invariant.antt =====
-- The invariant of the system: the broker is valid at every step, a push holds a payload of at most
-- `max_bytes`, and a push that waits for the current signal has no room.
use atomic_queue.Prelude.{
  ℕ, ◌+◌, ◌≤◌, ◌<◌, ◌^◌, ◌≡◌, refl, ◌∙◌, Bool, List, length, All, All-append, All-set, All-get_elem,
  All-map, arith,
}
use atomic_queue.Fault.{Bytes}
use atomic_queue.Broker.Ops.{
  Broker, new_broker, check_push, PopTurn, push_turn, pop_turn, cancel_turn,
}
use atomic_queue.Broker.Valid.{IsValid, new_broker-IsValid}
use atomic_queue.Broker.Cases.{Pushes, to_waiter, to_queue, must_wait, push_turn-Pushes}
use atomic_queue.Broker.Invariant.{push_turn-IsValid, pop_turn-IsValid, cancel_turn-IsValid}
use atomic_queue.System.{
  Phase, Thread, Replies, System, start_push, start_pop, after_push, after_pop, after_cancel, Move,
  push_lock, send, wake, push_expire, pop_lock, receive, pop_expire, cancel_lock, last_receive,
  late_receive, nothing_late, Step, call_push, call_pop, finish, run, Reach, start, later,
}
use atomic_queue.System.Grows.{
  PhaseOk, Grows, Grows-refl, push_turn-Grows, pop_turn-Grows, cancel_turn-Grows, PhaseOk-Grows,
}

-- After its round a push has been served, or waits for the current signal and has no room.
after_push-PhaseOk :
    (b : Broker) (c p : Bytes)
    → IsValid b
    → length p ≤ b.max_bytes
    → PhaseOk (push_turn b c p).1 (after_push c p (push_turn b c p).0)
unfolding after_push
after_push-PhaseOk b c p v small = go (push_turn-Pushes b c p v small)
  where
    go :
        Pushes b c p (push_turn b c p)
        → PhaseOk (push_turn b c p).1 (after_push c p (push_turn b c p).0)
    go (to_waiter i w got fits first r) = rw r tt
    go (to_queue none_wait room r) = rw r tt
    go (must_wait none_wait full r) = rw r (small, v.signals.made, λ same. full)

after_pop-PhaseOk : (b : Broker) (id : ℕ) (t : PopTurn) → PhaseOk b (after_pop id t)
unfolding after_pop
after_pop-PhaseOk b id t = ground arith

Move-Grows :
    {b : Broker} {rs : Replies} {done : Bool} {phase : Phase} {b' : Broker} {rs' : Replies}
    {phase' : Phase}
    → Move b rs done phase b' rs' phase'
    → IsValid b
    → PhaseOk b phase
    → Grows b b'
Move-Grows {b} (push_lock {c} {p}) v h = push_turn-Grows b c p v h
Move-Grows {b} (send e) v h = Grows-refl b
Move-Grows {b} (wake e) v h = Grows-refl b
Move-Grows {b} (push_expire e) v h = Grows-refl b
Move-Grows {b} {rs} {done} (pop_lock {cs}) v h = pop_turn-Grows b done cs (length rs) v
Move-Grows {b} (receive e) v h = Grows-refl b
Move-Grows {b} (pop_expire e) v h = Grows-refl b
Move-Grows {b} (cancel_lock {id}) v h = cancel_turn-Grows b id
Move-Grows {b} (last_receive e) v h = Grows-refl b
Move-Grows {b} (late_receive e) v h = Grows-refl b
Move-Grows {b} (nothing_late e) v h = Grows-refl b

Move-IsValid :
    {b : Broker} {rs : Replies} {done : Bool} {phase : Phase} {b' : Broker} {rs' : Replies}
    {phase' : Phase}
    → Move b rs done phase b' rs' phase'
    → IsValid b
    → PhaseOk b phase
    → IsValid b'
Move-IsValid {b} (push_lock {c} {p}) v h = push_turn-IsValid b c p v h
Move-IsValid (send e) v h = v
Move-IsValid (wake e) v h = v
Move-IsValid (push_expire e) v h = v
Move-IsValid {b} {rs} {done} (pop_lock {cs}) v h = pop_turn-IsValid b done cs (length rs) v
Move-IsValid (receive e) v h = v
Move-IsValid (pop_expire e) v h = v
Move-IsValid {b} (cancel_lock {id}) v h = cancel_turn-IsValid b id v
Move-IsValid (last_receive e) v h = v
Move-IsValid (late_receive e) v h = v
Move-IsValid (nothing_late e) v h = v

after_cancel-PhaseOk : (b : Broker) (id : ℕ) (gone : Bool) → PhaseOk b (after_cancel id gone)
unfolding after_cancel
after_cancel-PhaseOk b id gone = ground arith

Move-PhaseOk :
    {b : Broker} {rs : Replies} {done : Bool} {phase : Phase} {b' : Broker} {rs' : Replies}
    {phase' : Phase}
    → Move b rs done phase b' rs' phase'
    → IsValid b
    → PhaseOk b phase
    → PhaseOk b' phase'
Move-PhaseOk {b} (push_lock {c} {p}) v h = after_push-PhaseOk b c p v h
Move-PhaseOk (send e) v h = tt
Move-PhaseOk (wake e) v h = h.0
Move-PhaseOk (push_expire e) v h = tt
Move-PhaseOk {b} {rs} {done} (pop_lock {cs}) v h =
    after_pop-PhaseOk (pop_turn b done cs (length rs)).1 (length rs) _
Move-PhaseOk (receive e) v h = tt
Move-PhaseOk (pop_expire e) v h = tt
Move-PhaseOk {b} (cancel_lock {id}) v h = after_cancel-PhaseOk (cancel_turn b id).1 id _
Move-PhaseOk (last_receive e) v h = tt
Move-PhaseOk (late_receive e) v h = tt
Move-PhaseOk (nothing_late e) v h = tt

start_push-PhaseOk : (b : Broker) (c p : Bytes) → PhaseOk b (start_push b c p)
unfolding start_push check_push
start_push-PhaseOk b c p = ground arith

start_pop-PhaseOk : (b : Broker) (cs : List Bytes) → PhaseOk b (start_pop cs)
unfolding start_pop
start_pop-PhaseOk b cs = ground arith

pub record SystemOk (max_bytes max_queued_bytes : ℕ) (s : System) : Type 0 where
  pub valid : IsValid s.broker
  pub max : s.broker.max_bytes ≡ max_bytes
  pub limit : s.broker.max_queued_bytes ≡ max_queued_bytes
  pub locals : All (λ (t : Thread). PhaseOk s.broker t.phase) s.threads

Step-SystemOk : {m q : ℕ} {s t : System} → Step s t → SystemOk m q s → SystemOk m q t
Step-SystemOk {s = s} (call_push c p) k = record {
  valid = k.valid;
  max = k.max;
  limit = k.limit;
  locals = All-append _ s.threads _ k.locals (start_push-PhaseOk s.broker c p, tt);
}
Step-SystemOk {s = s} (call_pop cs) k = record {
  valid = k.valid;
  max = k.max;
  limit = k.limit;
  locals = All-append _ s.threads _ k.locals (start_pop-PhaseOk s.broker cs, tt);
}
Step-SystemOk {s = s} (finish i t e) k = record {
  valid = k.valid;
  max = k.max;
  limit = k.limit;
  locals = All-set _ s.threads i _ k.locals (All-get_elem _ s.threads i e k.locals);
}
Step-SystemOk {s = s} (run i t {b} {rs} {phase} e mv) k =
    let mine : PhaseOk s.broker t.phase = All-get_elem _ s.threads i e k.locals in
    let g : Grows s.broker b = Move-Grows mv k.valid mine in
    record {
      valid = Move-IsValid mv k.valid mine;
      max = g.same_max ∙ k.max;
      limit = g.same_limit ∙ k.limit;
      locals =
          All-set _ s.threads i _
            (All-map _ _ s.threads (λ u h. PhaseOk-Grows s.broker b u.phase g h) k.locals)
            (Move-PhaseOk mv k.valid mine);
    }

-- Whatever pushes, pops, cancellations and interleavings have happened to a broker made with limits
-- whose sum is below 2^63: it is valid, its limits are those given, a push under way has a payload
-- of at most `max_bytes`, and a push that waits for the current signal has no room in the queue.
pub Reach-SystemOk :
    {max_bytes max_queued_bytes : ℕ} {s : System}
    → max_queued_bytes + max_bytes < 2 ^ 63
    → Reach max_bytes max_queued_bytes s
    → SystemOk max_bytes max_queued_bytes s
Reach-SystemOk {max_bytes = m} {max_queued_bytes = q} h start = record {
  valid = new_broker-IsValid m q h;
  max = unfold new_broker in refl;
  limit = unfold new_broker in refl;
  locals = tt;
}
Reach-SystemOk h (later r st) = Step-SystemOk st (Reach-SystemOk h r)
