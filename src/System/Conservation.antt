-- ===== src/System/Conservation.antt =====
-- No message is lost, made up or delivered twice.
use atomic_queue.Prelude.{
  ℕ, ◌+◌, ◌≤◌, ◌<◌, ◌^◌, ◌≡◌, refl, Bool, true, false, some, List, [], ◌∷◌, length, total,
  total-append, total-set, get_elem?, set, All-get_elem, arith,
}
use atomic_queue.Fault.{Bytes}
use atomic_queue.Broker.Queues.{Delivery, queued_weight}
use atomic_queue.Broker.Ops.{
  Broker, new_broker, push_turn, pop_turn, cancel_turn, enlist, check_push,
}
use atomic_queue.Broker.Valid.{IsValid}
use atomic_queue.Broker.Served.{queued_weight-enqueue, queued_weight-leave_queue}
use atomic_queue.Broker.Cases.{Pushes, to_waiter, to_queue, must_wait, push_turn-Pushes}
use atomic_queue.Broker.PopCases.{Pops, takes, gives_up, waits, pop_turn-Pops}
use atomic_queue.System.{
  Phase, pushing, popping, cancelling, Thread, Replies, System, start_push, start_pop, after_push,
  after_pop, make_reply, after_cancel, Move, push_lock, send, wake, push_expire, pop_lock, receive,
  pop_expire, cancel_lock, last_receive, late_receive, nothing_late, Step, call_push, call_pop,
  finish, run, calling, called, Reach, start, later,
}
use atomic_queue.System.Weights.{accepted, in_transit, returned}
use atomic_queue.System.Invariant.{SystemOk, Reach-SystemOk}
use atomic_queue.System.Grows.{PhaseOk}

-- The weight of what stands in the buffers of the reply channels.
abbrev pub buffered : (Delivery → ℕ) → Replies → ℕ
buffered f rs = total (total f) rs

module _ (f : Delivery → ℕ) where
  -- What the broker and the buffers hold, and what a goroutine holds or has returned.
  abbrev held : Broker → Replies → Phase → ℕ
  held b rs phase = queued_weight f b.queues + buffered f rs + in_transit f phase + returned f phase

  -- A message changes hands, or it is accepted and held from then on.
  abbrev IsKept : Broker → Replies → Phase → Broker → Replies → Phase → Type 0
  IsKept b rs phase b' rs' phase' =
      accepted f phase' + held b rs phase ≡ accepted f phase + held b' rs' phase'

  push_lock-IsKept :
      (b : Broker) (rs : Replies) (c p : Bytes)
      → IsValid b
      → length p ≤ b.max_bytes
      → IsKept b rs (pushing c p) (push_turn b c p).1 rs (after_push c p (push_turn b c p).0)
  unfolding after_push
  push_lock-IsKept b rs c p v small = go (push_turn-Pushes b c p v small)
    where
      go :
          Pushes b c p (push_turn b c p)
          → IsKept b rs (pushing c p) (push_turn b c p).1 rs (after_push c p (push_turn b c p).0)
      go (to_waiter i w got fits first r) = rw r (omega arith)
      go (to_queue none_wait room r) = rw r (omega (arith, queued_weight-enqueue f c p b.queues))
      go (must_wait none_wait full r) = rw r (omega arith)

  pop_lock-IsKept :
      (b : Broker) (rs : Replies) (done : Bool) (cs : List Bytes)
      → IsValid b
      → let r = pop_turn b done cs (length rs) in
        IsKept b rs (popping cs) r.1 (make_reply r.0 rs) (after_pop (length rs) r.0)
  unfolding after_pop make_reply enlist
  pop_lock-IsKept b rs done cs v = go (pop_turn-Pops b done cs (length rs) v)
    where
      go :
          Pops b done cs (length rs) (pop_turn b done cs (length rs))
          → let r = pop_turn b done cs (length rs) in
            IsKept b rs (popping cs) r.1 (make_reply r.0 rs) (after_pop (length rs) r.0)
      go (takes c p q before after split dry at r) =
          rw r (omega (arith, queued_weight-leave_queue f c p q b.queues v.tidy at))
      go (gives_up dry e r) = rw r (omega arith)
      go (waits dry e r) = rw r (omega (arith, total-append (total f) rs ([] ∷ [])))

  take_reply-IsKept :
      (rs : Replies) (id : ℕ) (d : Delivery) (q : List Delivery)
      → get_elem? rs id ≡ some (d ∷ q)
      → buffered f (set rs id q) + f d ≡ buffered f rs
  take_reply-IsKept rs id d q e = omega (arith, total-set (total f) rs id (d ∷ q) q e)

  cancel_lock-IsKept :
      (b : Broker) (rs : Replies) (id : ℕ) (gone : Bool)
      → IsKept b rs (cancelling id) (cancel_turn b id).1 rs (after_cancel id gone)
  unfolding cancel_turn after_cancel
  cancel_lock-IsKept b rs id true = omega arith
  cancel_lock-IsKept b rs id false = omega arith

  Move-IsKept :
      {b : Broker} {rs : Replies} {done : Bool} {phase : Phase} {b' : Broker} {rs' : Replies}
      {phase' : Phase}
      → Move b rs done phase b' rs' phase'
      → IsValid b
      → PhaseOk b phase
      → IsKept b rs phase b' rs' phase'
  Move-IsKept {b} {rs} (push_lock {c} {p}) v h = push_lock-IsKept b rs c p v h
  Move-IsKept {rs = rs} (send {id} {d} e) v h =
      omega (arith, total-set (total f) rs id [] (d ∷ []) e)
  Move-IsKept (wake e) v h = refl
  Move-IsKept (push_expire e) v h = refl
  Move-IsKept {b} {rs} {done} (pop_lock {cs}) v h = pop_lock-IsKept b rs done cs v
  Move-IsKept {rs = rs} (receive {id} {d} {q} e) v h = omega (arith, take_reply-IsKept rs id d q e)
  Move-IsKept (pop_expire e) v h = refl
  Move-IsKept {b} {rs} (cancel_lock {id}) v h = cancel_lock-IsKept b rs id (cancel_turn b id).0
  Move-IsKept {rs = rs} (last_receive {id} {d} {q} e) v h =
      omega (arith, take_reply-IsKept rs id d q e)
  Move-IsKept {rs = rs} (late_receive {id} {d} {q} e) v h =
      omega (arith, take_reply-IsKept rs id d q e)
  Move-IsKept (nothing_late e) v h = refl

abbrev pub over_threads : (Phase → ℕ) → List Thread → ℕ
over_threads g = total (λ t. g t.phase)

-- The accepted messages are those queued, on their way, in a buffer, or returned.
abbrev pub Balanced : (Delivery → ℕ) → System → Type 0
Balanced f s =
    over_threads (accepted f) s.threads
    ≡ queued_weight f s.broker.queues
      + over_threads (in_transit f) s.threads
      + buffered f s.replies
      + over_threads (returned f) s.threads

pub starts_empty :
    (f : Delivery → ℕ) (b : Broker) (c p : Bytes)
    → (accepted f (start_push b c p) ≡ 0)
      × (in_transit f (start_push b c p) ≡ 0)
      × (returned f (start_push b c p) ≡ 0)
unfolding start_push check_push
starts_empty f b c p = ground arith

pub pops_empty :
    (f : Delivery → ℕ) (cs : List Bytes)
    → (accepted f (start_pop cs) ≡ 0)
      × (in_transit f (start_pop cs) ≡ 0)
      × (returned f (start_pop cs) ≡ 0)
unfolding start_pop
pops_empty f cs = ground arith

-- A new goroutine that holds nothing.
calling-Balanced :
    (f : Delivery → ℕ) (s : System) (phase : Phase)
    → (accepted f phase ≡ 0) × (in_transit f phase ≡ 0) × (returned f phase ≡ 0)
    → Balanced f s
    → Balanced f (calling s phase)
calling-Balanced f s phase h k = omega (
  arith,
  total-append (λ (t : Thread). accepted f t.phase) s.threads (called phase ∷ []),
  total-append (λ (t : Thread). in_transit f t.phase) s.threads (called phase ∷ []),
  total-append (λ (t : Thread). returned f t.phase) s.threads (called phase ∷ []),
)

pub over_threads-set :
    (g : Phase → ℕ) (ts : List Thread) (i : ℕ) (t u : Thread)
    → get_elem? ts i ≡ some t
    → over_threads g (set ts i u) + g t.phase ≡ over_threads g ts + g u.phase
over_threads-set g ts i t u e = total-set (λ (t : Thread). g t.phase) ts i t u e

set-Balanced :
    (f : Delivery → ℕ) (s : System) (i : ℕ) (t u : Thread) (b : Broker) (rs : Replies)
    → get_elem? s.threads i ≡ some t
    → IsKept f s.broker s.replies t.phase b rs u.phase
    → Balanced f s
    → Balanced f (record { broker = b; replies = rs; threads = set s.threads i u })
set-Balanced f s i t u b rs e kept k = omega (
  arith,
  over_threads-set (accepted f) s.threads i t u e,
  over_threads-set (in_transit f) s.threads i t u e,
  over_threads-set (returned f) s.threads i t u e,
)

Step-Balanced :
    {m q : ℕ} (f : Delivery → ℕ) {s t : System}
    → Step s t
    → SystemOk m q s
    → Balanced f s
    → Balanced f t
Step-Balanced f {s = s} (call_push c p) o k = calling-Balanced f s _ (starts_empty f s.broker c p) k
Step-Balanced f {s = s} (call_pop cs) o k = calling-Balanced f s _ (pops_empty f cs) k
Step-Balanced f {s = s} (finish i t e) o k =
    set-Balanced f s i t (record t { ctx_done = true }) s.broker s.replies e refl k
Step-Balanced f {s = s} (run i t {b} {rs} {phase} e mv) o k =
    set-Balanced f s i t (record t { phase = phase }) b rs e
      (Move-IsKept f mv o.valid (All-get_elem _ s.threads i e o.locals)) k

-- Exactly once, for a broker made with limits whose sum is below 2^63 and any number of pushes,
-- pops, cancellations and interleavings: for every weight of messages, and so for the count of any
-- one message, what the pushes have accepted is what is queued, is on its way to a reply channel,
-- stands in the buffer of one, or has been returned by a pop.
pub exactly_once :
    {max_bytes max_queued_bytes : ℕ} {s : System} (f : Delivery → ℕ)
    → max_queued_bytes + max_bytes < 2 ^ 63
    → Reach max_bytes max_queued_bytes s
    → Balanced f s
exactly_once f h start = unfold new_broker queued_weight in refl
exactly_once f h (later r st) = Step-Balanced f st (Reach-SystemOk h r) (exactly_once f h r)
