-- ===== src/Load/Workers.antt =====
-- examples/go/stress/main.go: a publisher and a consumer of the load generator, each on a
-- connection of its own. The clock gives a worker its number of rounds.
use atomic_queue.Prelude.{
  ℕ, zero, suc, ◌+◌, ◌%◌, Option, none, some, List, [], ◌∷◌, length, get_elem?, bytes_eq,
  if◌then◌else◌,
}
use atomic_queue.Prelude.Int.{ℤ, pos}
use atomic_queue.Limits.{op_push, op_pop}
use atomic_queue.Fault.{Bytes, Result, ok, err}
use atomic_queue.Fault.Text.{Format, codes, error_text}
use atomic_queue.Protocol.Stream.{Writer}
use atomic_queue.Protocol.Response.{Response}
use atomic_queue.Server.Rpc.{
  ClientError, send_failed, read_failed, refused, Peer, Reply, got, failed,
}
use atomic_queue.Standalone.{accepted_push, accepted_payload, milliseconds}
use atomic_queue.Load.Client.{write_request, read_response}
use atomic_queue.Stress.Workers.{
  Conn, dialled, incoming, take_reply, Counters, no_counts, failure_counted,
}
use atomic_queue.Load.{make_payload}

abbrev after_send : Conn → Result (Unit {0}) × Writer → Reply Response × Conn
after_send conn (err e, w) = (failed (send_failed e), record conn { writer = w })
after_send conn (ok u, w) =
    let next = record conn { writer = w } in take_reply next (read_response (incoming next))

-- `writeRequest` and `readResponse`, as in `Push` and `Pop`.
unfoldable pub send_and_read : ℕ → List Bytes → Bytes → ℤ → Conn → Reply Response × Conn
send_and_read op channels payload timeout_ms conn =
    after_send conn (write_request op channels payload timeout_ms conn.writer)

-- `err.Error()`
abbrev pub client_error_text : Format → ClientError → Bytes
client_error_text fmt (send_failed e) = error_text fmt e
client_error_text fmt (read_failed e) = error_text fmt e
client_error_text fmt (refused text) = text

abbrev pub start_worker : Option Peer → (Conn → Option Counters) → Option Counters
start_worker none work = some (failure_counted no_counts)
start_worker (some peer) work = work (dialled peer)

abbrev pub count_push :
    (Conn → Counters → Option Counters) → Counters → Reply (Unit {0}) → Conn → Option Counters
count_push loop n (failed e) conn = some (failure_counted n)
count_push loop n (got u) conn = loop conn (record n { pushed = n.pushed + 1 })

abbrev pub count_served :
    Format → (Conn → Counters → Counters) → Counters → Reply Bytes → Conn → Counters
count_served fmt loop n (got payload) conn = loop conn (record n { served = n.served + 1 })
count_served fmt loop n (failed e) conn =
    let again = loop conn (record n { pop_timeouts = n.pop_timeouts + 1 }) in
    if bytes_eq (client_error_text fmt e) (codes "timeout") then again else failure_counted n

-- A round's answer and the connection after it.
abbrev pub pushed_on : Conn → Bytes → Bytes → Reply (Unit {0}) × Conn
pushed_on conn channel payload =
    let r = send_and_read op_push (channel ∷ []) payload (pos 0) conn in (accepted_push r.0, r.1)

abbrev pub popped_on : Conn → List Bytes → ℤ → Reply Bytes × Conn
popped_on conn channels timeout =
    let r = send_and_read op_pop channels [] (milliseconds timeout) conn in
    (accepted_payload r.0, r.1)

module _ (fmt : Format) (channels : List Bytes) where
  -- The loop of a publisher. None is a panic: an index out of range, or makePayload's.
  unfoldable pub publish :
      (worker_id : ℕ) (payload_size : ℤ) (rounds index seq : ℕ) → Conn → Counters → Option Counters
  unfolding send_and_read make_payload
  publish worker_id payload_size zero index seq conn n = some n
  publish worker_id payload_size (suc rounds) index seq conn n = elim (get_elem? channels index) [
    | none ↦ none
    | some channel ↦ elim (make_payload fmt worker_id seq payload_size) [
      | none ↦ none
      | some payload ↦
          count_push
            (publish worker_id payload_size rounds ((index + 1) % length channels) (seq + 1)) n
            (pushed_on conn channel payload).0 (pushed_on conn channel payload).1
    ]
  ]

  unfoldable pub publisher :
      Option Peer → (worker_id : ℕ) (payload_size : ℤ) (rounds : ℕ) → Option Counters
  unfolding publish
  publisher dial worker_id payload_size rounds =
      start_worker dial
        λ conn. publish worker_id payload_size rounds (worker_id % length channels) 0 conn no_counts

  -- The loop of a consumer.
  unfoldable pub receive : (timeout : ℤ) (rounds : ℕ) → Conn → Counters → Counters
  unfolding send_and_read milliseconds
  receive timeout zero conn n = n
  receive timeout (suc rounds) conn n =
      count_served fmt (receive timeout rounds) n (popped_on conn channels timeout).0
        (popped_on conn channels timeout).1

  unfoldable pub receiver : Option Peer → (timeout : ℤ) (rounds : ℕ) → Option Counters
  unfolding receive
  receiver dial timeout rounds =
      start_worker dial λ conn. some (receive timeout rounds conn no_counts)
