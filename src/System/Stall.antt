-- ===== src/System/Stall.antt =====
-- A push that waits for room is not told of a pop that comes to wait on its channel.
use atomic_queue.Prelude.{
  ℕ, ◌+◌, ◌≤◌, ◌<◌, ◌≡◌, refl, ◌≢◌, true, false, none, some, List, [], ◌∷◌, ◌++◌, length, All,
  All-get_elem, get_elem?, arith,
}
use atomic_queue.Fault.{Bytes}
use atomic_queue.Broker.Waiters.{Waiter, waiter_matches, find_waiter, NoTaker}
use atomic_queue.Broker.Ops.{Broker, is_closed, blocked, push_turn, enlisted, pop_turn, enlist}
use atomic_queue.Broker.Served.{IsDry}
use atomic_queue.Broker.Valid.{IsValid}
use atomic_queue.Broker.Cases.{Pushes, to_waiter, to_queue, must_wait, push_turn-Pushes}
use atomic_queue.Broker.PopCases.{Pops, takes, gives_up, waits, pop_turn-Pops}
use atomic_queue.System.{
  Phase, parked, waiting, Replies, Move, wake, push_expire, receive, pop_expire,
}

-- A goroutine whose context is not over cannot move.
abbrev pub IsStuck : Broker → Replies → Phase → Type 0
IsStuck b rs phase =
    (b' : Broker) (rs' : Replies) (phase' : Phase) → ¬ Move b rs false phase b' rs' phase'

parked-IsStuck :
    (b : Broker) (rs : Replies) (c p : Bytes) (sig : ℕ)
    → is_closed sig b.closed_signals ≡ false
    → IsStuck b rs (parked c p sig)
parked-IsStuck b rs c p sig h b' rs' phase' (wake e) = cc
parked-IsStuck b rs c p sig h b' rs' phase' (push_expire e) = cc

waiting-IsStuck :
    (b : Broker) (rs : Replies) (id : ℕ) → get_elem? rs id ≡ some [] → IsStuck b rs (waiting id)
waiting-IsStuck b rs id h b' rs' phase' (receive e) = cc
waiting-IsStuck b rs id h b' rs' phase' (pop_expire e) = cc

get_elem?-new_reply : (rs : Replies) → get_elem? (rs ++ [] ∷ []) (length rs) ≡ some []
get_elem?-new_reply [] = refl
get_elem?-new_reply (q ∷ rs) = get_elem?-new_reply rs

listed-found :
    (c : Bytes) (i : ℕ) (ws : List Waiter) (w : Waiter)
    → waiter_matches w.channels c ≡ true
    → find_waiter c i (ws ++ w ∷ []) ≢ none
unfolding find_waiter
listed-found c i [] w h = ground arith
listed-found c i (v ∷ ws) w h = ground (arith, listed-found c (i + 1) ws w h)

-- With nobody waiting for the channel and no room, a push waits.
push_must_wait :
    (b : Broker) (c p : Bytes)
    → IsValid b
    → length p ≤ b.max_bytes
    → NoTaker c b.waiters
    → b.max_queued_bytes < b.queued_bytes + length p
    → push_turn b c p ≡ (blocked b.drain_signal b.queued_bytes b.max_queued_bytes, b)
push_must_wait b c p v small none_wait full = go (push_turn-Pushes b c p v small)
  where
    go :
        Pushes b c p (push_turn b c p)
        → push_turn b c p ≡ (blocked b.drain_signal b.queued_bytes b.max_queued_bytes, b)
    go (to_waiter i w got fits first r) = absurd (cc (All-get_elem _ b.waiters i got none_wait))
    go (to_queue n room r) = absurd (omega arith)
    go (must_wait n f r) = r

middle-IsDry :
    (b : Broker) (before : List Bytes) (c : Bytes) (after : List Bytes)
    → All (IsDry b.queues) (before ++ c ∷ after)
    → IsDry b.queues c
middle-IsDry b [] c after h = h.0
middle-IsDry b (d ∷ before) c after h = middle-IsDry b before c after h.1

-- With nothing queued on its channels, a pop comes to wait.
pop_must_wait :
    (b : Broker) (cs : List Bytes) (id : ℕ)
    → IsValid b
    → All (IsDry b.queues) cs
    → pop_turn b false cs id ≡ (enlisted, enlist b (record { id = id; channels = cs }))
pop_must_wait b cs id v dry = go (pop_turn-Pops b false cs id v)
  where
    go :
        Pops b false cs id (pop_turn b false cs id)
        → pop_turn b false cs id ≡ (enlisted, enlist b (record { id = id; channels = cs }))
    go (takes c p q before after split h at r) =
        absurd (cc (middle-IsDry b before c after (rw split at dry)))
    go (gives_up h e r) = absurd (cc)
    go (waits h e r) = r

-- A push of `c` has to wait for room, with nobody waiting for `c`; then a pop that lists `c` among
-- its channels, none of which has anything queued, comes to wait. Now a waiter that wants the
-- message of the push stands in the list, and yet, as long as no context is over and nothing else
-- happens, neither goroutine can move.
pub missed_waiter :
    (b : Broker) (rs : Replies) (c p : Bytes) (cs : List Bytes)
    → IsValid b
    → length p ≤ b.max_bytes
    → NoTaker c b.waiters
    → b.max_queued_bytes < b.queued_bytes + length p
    → waiter_matches cs c ≡ true
    → All (IsDry b.queues) cs
    → let after = (pop_turn b false cs (length rs)).1 in
      ((push_turn b c p).0 ≡ blocked b.drain_signal b.queued_bytes b.max_queued_bytes)
      × ((pop_turn b false cs (length rs)).0 ≡ enlisted)
      × (find_waiter c 0 after.waiters ≢ none)
      × IsStuck after (rs ++ [] ∷ []) (parked c p b.drain_signal)
      × IsStuck after (rs ++ [] ∷ []) (waiting (length rs))
unfolding enlist
missed_waiter b rs c p cs v small none_wait full wants dry =
    rw (push_must_wait b c p v small none_wait full, pop_must_wait b cs (length rs) v dry)
      (
        refl,
        refl,
        listed-found c 0 b.waiters (record { id = length rs; channels = cs }) wants,
        parked-IsStuck _ _ c p b.drain_signal v.signals.current,
        waiting-IsStuck _ _ (length rs) (get_elem?-new_reply rs),
      )
