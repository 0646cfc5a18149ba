-- ===== src/System/Tests.antt =====
-- A pop that waits, a push that is about to answer it, and the ways in which that can go on.
use atomic_queue.Prelude.{
  ◌+◌, ◌<◌, ◌≡◌, refl, ◌≢◌, ◌⊎◌, Bool, true, false, none, some, List, [], ◌∷◌, length, get_elem?,
  bytes_eq, arith, ◌++◌, ℕ, ◌≤◌,
}
use atomic_queue.Fault.{Bytes}
use atomic_queue.Channel.{validate_channel, validate_payload}
use atomic_queue.Broker.Queues.{message, get_queue}
use atomic_queue.Broker.Waiters.{
  Waiter, find_waiter, waiter_matches, remove_waiter, index_of_waiter, remove_waiter_at,
}
use atomic_queue.Broker.Ops.{
  Broker, new_broker, is_closed, check_push, check_pop, blocked, push_turn, enlisted, enlist,
  pop_turn, pop_queued, cancel_turn,
}
use atomic_queue.Broker.Valid.{IsValid}
use atomic_queue.System.{
  Phase, pushing, handing, parked, pushed, popping, waiting, cancelling, receiving, checking,
  Thread, Replies, System, start_push, start_pop, after_push, after_pop, make_reply, after_cancel,
  Move, push_lock, pop_lock, pop_expire, cancel_lock, call_push, call_pop, finish, run, called,
  Reach, start, later,
}
use atomic_queue.System.Conservation.{Balanced, over_threads, exactly_once}
use atomic_queue.System.Invariant.{SystemOk, Reach-SystemOk}
use atomic_queue.System.Tickets.{sends}
use atomic_queue.System.Buffers.{buffer_len}
use atomic_queue.System.Handoff.{
  send_never_blocks, timeout_leaves_nothing, receiver_is_served, no_lost_drain,
}
use atomic_queue.System.Stall.{IsStuck, missed_waiter}
use atomic_queue.System.Linear.{IsLinear, system_in_order}
use atomic_queue.System.Logs.{sections}
use atomic_queue.Broker.Sections.{run_sections, begun, on_channel}
use atomic_queue.Broker.Fifo.{view}
use atomic_queue.System.Turns.{oldest_pop_served}

abbrev jobs : Bytes
jobs = b'j' ∷ []

abbrev text : Bytes
text = b'h' ∷ b'i' ∷ []

abbrev empty_broker : Broker
empty_broker = record {
  queues = [];
  waiters = [];
  max_bytes = 16;
  queued_bytes = 0;
  max_queued_bytes = 1;
  drain_signal = 0;
  next_signal = 1;
  closed_signals = [];
}

abbrev first_waiter : Waiter
first_waiter = record { id = 0; channels = jobs ∷ [] }

abbrev waiting_broker : Broker
waiting_broker = record empty_broker { waiters = first_waiter ∷ [] }

abbrev with_threads : Broker → Replies → List Thread → System
with_threads b rs ts = record { broker = b; replies = rs; threads = ts }

abbrev at_phase : Bool → Phase → Thread
at_phase done phase = record { ctx_done = done; phase = phase }

-- A pop of `jobs` has come to wait.
abbrev waiting_state : System
waiting_state = with_threads waiting_broker ([] ∷ []) (called (waiting 0) ∷ [])

waiting_reached : Reach 16 1 waiting_state
unfolding start_pop check_pop validate_channel pop_turn pop_queued get_queue enlist make_reply
    after_pop new_broker
waiting_reached =
    later (later start (call_pop (jobs ∷ []))) (run 0 (called (popping (jobs ∷ []))) refl pop_lock)

-- A push of `jobs` has taken the waiter off the list.
abbrev handing_state : System
handing_state =
    with_threads empty_broker ([] ∷ [])
      (called (waiting 0) ∷ called (handing 0 (message jobs text)) ∷ [])

handing_reached : Reach 16 1 handing_state
unfolding start_push check_push validate_channel validate_payload push_turn find_waiter
    waiter_matches bytes_eq remove_waiter_at after_push
handing_reached =
    later (later waiting_reached (call_push jobs text))
      (run 1 (called (pushing jobs text)) refl push_lock)

-- The context of the pop is over, and the pop finds its waiter gone.
abbrev receiving_state : System
receiving_state =
    with_threads empty_broker ([] ∷ [])
      (at_phase true (receiving 0) ∷ called (handing 0 (message jobs text)) ∷ [])

receiving_reached : Reach 16 1 receiving_state
unfolding cancel_turn remove_waiter index_of_waiter after_cancel
receiving_reached =
    later
      (later (later handing_reached (finish 0 (called (waiting 0)) refl))
        (run 0 (at_phase true (waiting 0)) refl (pop_expire refl)))
      (run 0 (at_phase true (cancelling 0)) refl cancel_lock)

-- The context of the pop is over with nobody to serve it.
abbrev checking_state : System
checking_state = with_threads empty_broker ([] ∷ []) (at_phase true (checking 0) ∷ [])

checking_reached : Reach 16 1 checking_state
unfolding cancel_turn remove_waiter index_of_waiter remove_waiter_at after_cancel
checking_reached =
    later
      (later (later waiting_reached (finish 0 (called (waiting 0)) refl))
        (run 0 (at_phase true (waiting 0)) refl (pop_expire refl)))
      (run 0 (at_phase true (cancelling 0)) refl cancel_lock)

-- A push of two bytes has no room in a queue of one byte.
abbrev parked_state : System
parked_state = with_threads empty_broker [] (called (parked jobs text 0) ∷ [])

parked_reached : Reach 16 1 parked_state
unfolding start_push check_push validate_channel validate_payload push_turn find_waiter after_push
    new_broker
parked_reached =
    later (later start (call_push jobs text)) (run 0 (called (pushing jobs text)) refl push_lock)

exactly_once_example : Balanced (λ d. length d.payload) handing_state
exactly_once_example = exactly_once (λ d. length d.payload) (omega arith) handing_reached

Reach-SystemOk_example : SystemOk 16 1 parked_state
Reach-SystemOk_example = Reach-SystemOk (omega arith) parked_reached

send_never_blocks_example :
    Move empty_broker
      ([] ∷ [])
      false
      (handing 0 (message jobs text))
      empty_broker
      ((message jobs text ∷ []) ∷ [])
      (pushed (message jobs text))
send_never_blocks_example =
    send_never_blocks (omega arith) handing_reached 1 (called (handing 0 (message jobs text))) refl
      0 (message jobs text) refl

timeout_leaves_nothing_example : get_elem? checking_state.replies 0 ≡ some []
timeout_leaves_nothing_example =
    timeout_leaves_nothing (omega arith) checking_reached 0 (at_phase true (checking 0)) refl 0 refl

receiver_is_served_example :
    buffer_len 0 receiving_state.replies + over_threads (sends 0) receiving_state.threads ≡ 1
receiver_is_served_example =
    receiver_is_served (omega arith) receiving_reached 0 (at_phase true (receiving 0)) refl 0 refl

no_lost_drain_example : (is_closed 0 [] ≡ true) ⊎ (1 < 0 + 2)
no_lost_drain_example =
    no_lost_drain (omega arith) parked_reached 0 (called (parked jobs text 0)) refl jobs text 0 refl

empty_broker-IsValid : IsValid empty_broker
empty_broker-IsValid = (Reach-SystemOk (omega arith) parked_reached).valid

missed_waiter_example :
    let after = (pop_turn empty_broker false (jobs ∷ []) 0).1 in
    ((push_turn empty_broker jobs text).0 ≡ blocked 0 0 1)
    × ((pop_turn empty_broker false (jobs ∷ []) 0).0 ≡ enlisted)
    × (find_waiter jobs 0 after.waiters ≢ none)
    × IsStuck after ([] ∷ []) (parked jobs text 0)
    × IsStuck after ([] ∷ []) (waiting 0)
unfolding waiter_matches bytes_eq get_queue
missed_waiter_example =
    missed_waiter empty_broker [] jobs text (jobs ∷ []) empty_broker-IsValid (omega arith) tt
      (omega arith) refl (refl, tt)

system_in_order_example :
    IsLinear (run_sections (begun 16 1) (sections handing_reached)) handing_state
    × ((c : Bytes)
        → on_channel c (run_sections (begun 16 1) (sections handing_reached)).given
            ++ view handing_state.broker c
          ≡ on_channel c (run_sections (begun 16 1) (sections handing_reached)).accepted)
system_in_order_example = system_in_order (omega arith) handing_reached

-- Two pops of `jobs` wait, and a push of it is about to take the mutex.
abbrev second_waiter : Waiter
second_waiter = record { id = 1; channels = jobs ∷ [] }

abbrev two_waiting_state : System
two_waiting_state =
    with_threads (record empty_broker { waiters = first_waiter ∷ second_waiter ∷ [] })
      ([] ∷ [] ∷ []) (called (waiting 0) ∷ called (waiting 1) ∷ called (pushing jobs text) ∷ [])

two_waiting_reached : Reach 16 1 two_waiting_state
unfolding start_pop start_push check_pop check_push validate_channel validate_payload pop_turn
    pop_queued get_queue enlist make_reply after_pop
two_waiting_reached =
    later
      (later (later waiting_reached (call_pop (jobs ∷ [])))
        (run 1 (called (popping (jobs ∷ []))) refl pop_lock))
      (call_push jobs text)

oldest_pop_served_example :
    (i : ℕ) × (w : Waiter) × (get_elem? two_waiting_state.broker.waiters i ≡ some w)
    × (w.id ≡ 0)
    × (waiter_matches w.channels jobs ≡ true)
    × ((j : ℕ) (v : Waiter)
        → get_elem? two_waiting_state.broker.waiters j ≡ some v
        → waiter_matches v.channels jobs ≡ true
        → 0 ≤ v.id)
unfolding push_turn find_waiter waiter_matches bytes_eq
oldest_pop_served_example =
    oldest_pop_served (omega arith) two_waiting_reached 2 (called (pushing jobs text)) jobs text 0
      refl refl refl
