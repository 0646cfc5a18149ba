-- ===== src/Server/Tests.antt =====
-- A daemon whose broker has one message, and then none.
use atomic_queue.Prelude.{
  ℕ, zero, suc, false, ◌≡◌, refl, ◌≢◌, inr, Option, none, some, List, [], ◌∷◌, arith, true,
  bytes_eq,
}
use atomic_queue.Prelude.Int.{pos}
use atomic_queue.Fault.{Bytes, timed_out, Result, ok, err}
use atomic_queue.Fault.Text.{Format, error_text}
use atomic_queue.Broker.Queues.{Delivery, message, get_queue, put_queue}
use atomic_queue.Protocol.Request.{Request}
use atomic_queue.Protocol.Wire.{CanSend, CanReply}
use atomic_queue.Protocol.RoundTrip.{fresh}
use atomic_queue.Server.{Calls, deadline_of, failure, delivered, handle_conn}
use atomic_queue.Server.Loop.{wire_requests, serve_all, handle_conn_ends, handle_conn-serve_all}
use atomic_queue.Limits.{default_max_bytes}
use atomic_queue.Channel.{validate_channel}
use atomic_queue.Broker.Ops.{new_broker}
use atomic_queue.Broker.Valid.{new_broker-IsValid, IsValid}
use atomic_queue.Broker.Fifo.{view}
use atomic_queue.Server.Live.{Live, Others, broker_calls, call_push, call_pop}
use atomic_queue.Server.Requests.{sent_all, pop_request}
use atomic_queue.Server.Order.{session, answers, connection_keeps_order}
use atomic_queue.Server.Rpc.{got, client_pop, daemon, client_pop-daemon}
use atomic_queue.Broker.Cases.{enqueued}
use atomic_queue.Broker.Invariant.{enqueued-IsValid}
use atomic_queue.Protocol.Stream.{Writer}
use atomic_queue.Server.Gone.{gone_client_loses}
use atomic_queue.Server.Possible.{live, Comes, push_ended, pop_ended}
use atomic_queue.Server.Runs.{calls_are_goroutines}
use atomic_queue.Server.Expired.{expired, expired-IsPossible}
use atomic_queue.System.{init, start}
use atomic_queue.Server.Session.{KeepsOff-refl}

abbrev plain : Format
plain = record { quote = λ s. s; decimal = λ n. []; system = λ e. []; allocates = λ n. true }

abbrev one : Delivery
one = message (b'a' ∷ []) (1 ∷ 2 ∷ [])

-- The state is the number of messages left.
abbrev pop_one : ℕ → Option ℕ → List Bytes → Result Delivery × ℕ
pop_one zero deadline channels = (err timed_out, zero)
pop_one (suc n) deadline channels = (ok one, n)

abbrev counter : Calls ℕ
counter = record { push_owned = λ n channel payload. (none, suc n); pop = pop_one }

abbrev asked : Request
asked = record { op = "pop"; channels = (b'a' ∷ []) ∷ []; payload = []; timeout_ms = pos 1 }

asked-CanSend : CanSend asked
asked-CanSend = record {
  known = inr refl;
  few = omega arith;
  short = (omega arith, tt);
  small = omega arith;
}

-- A millisecond is a million nanoseconds; zero and less wait for ever.
deadline_of_one : deadline_of (pos 1) ≡ some 1_000_000
unfolding deadline_of
deadline_of_one = refl

deadline_of_zero : deadline_of (pos 0) ≡ none
unfolding deadline_of
deadline_of_zero = refl

malformed_input_ends : handle_conn plain counter 4 (9 ∷ 9 ∷ 9 ∷ []) fresh 1 ≢ none
malformed_input_ends = handle_conn_ends plain counter 4 (9 ∷ 9 ∷ 9 ∷ []) fresh 1 (omega arith)

handle_conn-serve_all_example :
    handle_conn plain counter 3 (wire_requests (asked ∷ asked ∷ [])) fresh 1
    ≡ some (serve_all plain counter (asked ∷ asked ∷ []) fresh 1)
handle_conn-serve_all_example =
    handle_conn-serve_all plain counter (asked ∷ asked ∷ []) 3 fresh 1
      ((asked-CanSend, omega arith), ((asked-CanSend, omega arith), tt)) (omega arith)

one_popped : client_pop (daemon plain counter 1) ((b'a' ∷ []) ∷ []) (pos 1) ≡ got (delivered one)
one_popped =
    client_pop-daemon plain counter 1 ((b'a' ∷ []) ∷ []) (pos 1) 0 one asked-CanSend (omega arith)
      (omega arith) refl

timeout-CanReply : CanReply (failure (error_text plain timed_out))
unfolding error_text
timeout-CanReply = omega arith

abbrev quiet : Others
quiet = record {
  meanwhile = λ s. s;
  ctx_err = λ s deadline. false;
  while_blocked = λ s channel payload sig. (some timed_out, s);
  while_waiting = λ s id deadline. (err timed_out, s);
}

abbrev new_live : Live
new_live = record { broker = new_broker default_max_bytes 1000; next_id = 0 }

-- Two pushes and two pops on one connection.
connection_keeps_order_example :
    (s' : Live) × (handle_conn plain
        (broker_calls quiet)
        5
        (wire_requests (session (b'a' ∷ []) ((1 ∷ []) ∷ (2 ∷ []) ∷ []) (pos 0) 2))
        fresh
        new_live
      ≡ some (
        sent_all fresh (answers (b'a' ∷ []) ((1 ∷ []) ∷ (2 ∷ []) ∷ []) ((1 ∷ []) ∷ (2 ∷ []) ∷ [])),
        s',
      ))
    × (view s'.broker (b'a' ∷ []) ≡ [])
unfolding validate_channel new_broker get_queue
connection_keeps_order_example =
    connection_keeps_order plain quiet (b'a' ∷ []) ((1 ∷ []) ∷ (2 ∷ []) ∷ []) (pos 0) 5 fresh
      new_live refl (λ s v. KeepsOff-refl _ s.broker v) (omega arith)
      (new_broker-IsValid default_max_bytes 1000 (omega arith)) refl
      (omega arith, (omega arith, tt)) (omega arith, (omega arith, tt)) tt (omega arith) refl
      (omega arith)

-- One message, and a client that has hung up.
abbrev stocked : Live
stocked = record {
  broker = enqueued (new_broker default_max_bytes 1000) (b'a' ∷ []) (1 ∷ []);
  next_id = 0;
}

abbrev hung_up : Writer
hung_up = record { sent = []; buffered = []; gone = true }

gone_client_loses_example :
    (w' : Writer) × (s' : Live) × (handle_conn plain
        (broker_calls quiet)
        2
        (wire_requests (pop_request (b'a' ∷ []) (pos 0) ∷ []))
        hung_up
        stocked
      ≡ some (w', s'))
    × (w'.sent ≡ [])
    × IsValid s'.broker
    × (view s'.broker (b'a' ∷ []) ≡ [])
unfolding validate_channel new_broker get_queue put_queue bytes_eq
gone_client_loses_example =
    gone_client_loses plain quiet (b'a' ∷ []) refl stocked hung_up (pos 0) (1 ∷ []) [] [] 2
      (omega arith)
      (enqueued-IsValid (new_broker default_max_bytes 1000) (b'a' ∷ []) (1 ∷ [])
        (new_broker-IsValid default_max_bytes 1000 (omega arith)) tt (omega arith))
      refl (omega arith) refl tt (omega arith)

calls_are_goroutines_example :
    ((c p : Bytes)
      → let k = call_push expired (live (init 100 1000)) c p in
        Comes (init 100 1000) 0 (push_ended c p k.0) k.1)
    × ((deadline : Option ℕ) (cs : List Bytes)
        → let k = call_pop expired (live (init 100 1000)) deadline cs in
          Comes (init 100 1000) 0 (pop_ended k.0) k.1)
calls_are_goroutines_example =
    calls_are_goroutines (omega arith) expired (expired-IsPossible 100 1000) start
