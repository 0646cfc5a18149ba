-- ===== src/Stress/Workers.antt =====
-- stress.go: runStress, its publishers and consumers, each on a connection of its own. What a
-- worker adds to the shared counters is counted for the worker, and a worker is given the random
-- numbers and the number of rounds that its context leaves.
pub mod Stops
use atomic_queue.Prelude.{
  ℕ, zero, suc, ◌+◌, ◌-◌, Bool, true, false, Option, none, some, List, [], ◌∷◌, length, drop,
  bytes_eq, if◌then◌else◌,
}
use atomic_queue.Prelude.Int.{ℤ, pos, negsuc}
use atomic_queue.Limits.{exit_ok, exit_runtime, exit_usage}
use atomic_queue.Fault.{Bytes, Error, Result, ok, err}
use atomic_queue.Fault.Text.{Format, codes}
use atomic_queue.Broker.Ops.{check_channels}
use atomic_queue.Protocol.Stream.{Writer}
use atomic_queue.Protocol.Request.{Request, write_request}
use atomic_queue.Protocol.Response.{Response, read_response}
use atomic_queue.Protocol.RoundTrip.{fresh}
use atomic_queue.Server.Rpc.{ClientError, send_failed, read_failed, Peer, Reply, got, failed}
use atomic_queue.Cli.Number.{Parse, accept, reject}
use atomic_queue.Cli.Connect.{
  Host, Client, client, no_client, new_rpc_client, Exchange, answered, broken, round_trip,
}
use atomic_queue.Cli.Run.{client_error, pop_timeout_ms}
use atomic_queue.Stress.Config.{StressConfig, parse_stress_args}
use atomic_queue.Stress.Payload.{make_stress_payload}

-- `rpcClient` over several requests: the peer, the writer, and how much of what the peer has sent
-- is read.
pub record Conn : Type 0 where
  pub peer : Peer
  pub writer : Writer
  pub read : ℕ

abbrev pub dialled : Peer → Conn
dialled peer = record { peer = peer; writer = fresh; read = 0 }

-- What is on its way to the client.
abbrev pub incoming : Conn → Bytes
incoming conn = drop conn.read (conn.peer conn.writer.sent)

abbrev pub take_reply : Conn → Result Response × Bytes → Reply Response × Conn
take_reply conn (r, rest) = (
  (elim r [ ok resp ↦ got resp | err e ↦ failed (read_failed e) ]),
  record conn { read = conn.read + (length (incoming conn) - length rest) },
)

abbrev pub after_write : Conn → Result (Unit {0}) × Writer → Reply Response × Conn
after_write conn (err e, w) = (failed (send_failed e), record conn { writer = w })
after_write conn (ok u, w) =
    let next = record conn { writer = w } in take_reply next (read_response (incoming next))

-- `writeRequest` and `readResponse`, as in `Push` and `Pop`.
unfoldable pub ask : Request → Conn → Reply Response × Conn
ask req conn = after_write conn (write_request req conn.writer)

pub record Counters : Type 0 where
  pub pushed : ℕ
  pub served : ℕ
  pub pop_timeouts : ℕ
  pub failures : ℕ

abbrev pub no_counts : Counters
no_counts = record { pushed = 0; served = 0; pop_timeouts = 0; failures = 0 }

abbrev pub failure_counted : Counters → Counters
failure_counted n = record n { failures = n.failures + 1 }

-- The counters of all workers together.
abbrev pub added : Counters → Counters → Counters
added a b = record {
  pushed = a.pushed + b.pushed;
  served = a.served + b.served;
  pop_timeouts = a.pop_timeouts + b.pop_timeouts;
  failures = a.failures + b.failures;
}

-- A panic of one worker, which is none, ends the process.
abbrev pub both : Option Counters → Option Counters → Option Counters
both none b = none
both (some m) none = none
both (some m) (some n) = some (added m n)

-- The end of a consumer's round.
abbrev pub count_pop : Response → Counters → Counters
count_pop resp n =
    if resp.is_ok
    then record n { served = n.served + 1 }
    else if bytes_eq resp.error (codes "timeout")
    then record n { pop_timeouts = n.pop_timeouts + 1 }
    else failure_counted n

abbrev pub pop_of : StressConfig → Request
pop_of cfg = record {
  op = "pop";
  channels = cfg.channels;
  payload = [];
  timeout_ms = pop_timeout_ms cfg.pop_timeout;
}

abbrev pub after_pop_round :
    (Conn → Counters → Counters) → Counters → Reply Response × Conn → Counters
after_pop_round loop n (failed e, conn) = failure_counted n
after_pop_round loop n (got resp, conn) = loop conn (count_pop resp n)

unfoldable pub consume : StressConfig → ℕ → Conn → Counters → Counters
unfolding ask
consume cfg zero conn n = n
consume cfg (suc rounds) conn n = after_pop_round (consume cfg rounds) n (ask (pop_of cfg) conn)

-- `newRPCClient(cfg.socket, false)` in front of a worker.
abbrev pub on_client : Client → (Conn → Counters) → Counters
on_client (no_client e) work = failure_counted no_counts
on_client (client peer) work = work (dialled peer)

unfoldable pub consumer : Host → StressConfig → (rounds : ℕ) → Counters
unfolding new_rpc_client consume
consumer host cfg rounds =
    on_client (new_rpc_client host false) λ conn. consume cfg rounds conn no_counts

abbrev pub push_of : Bytes → Bytes → Request
push_of channel payload = record {
  op = "push";
  channels = channel ∷ [];
  payload = payload;
  timeout_ms = pos 0;
}

abbrev pub after_push_round :
    (Conn → Counters → Option Counters) → Counters → Reply Response × Conn → Option Counters
after_push_round loop n (failed e, conn) = some (failure_counted n)
after_push_round loop n (got resp, conn) =
    if resp.is_ok then loop conn (record n { pushed = n.pushed + 1 }) else some (failure_counted n)

-- `pick seq` is the channel and `payloads seq` the payload of round `seq`, or none, which is a panic.
unfoldable pub produce :
    (pick : ℕ → Bytes) (payloads : ℕ → Option Bytes) (rounds seq : ℕ)
    → Conn
    → Counters
    → Option Counters
unfolding ask
produce pick payloads zero seq conn n = some n
produce pick payloads (suc rounds) seq conn n = elim (payloads seq) [
  | none ↦ none
  | some payload ↦
      after_push_round (produce pick payloads rounds (seq + 1)) n
        (ask (push_of (pick seq) payload) conn)
]

abbrev pub produce_on : Client → (Conn → Option Counters) → Option Counters
produce_on (no_client e) work = some (failure_counted no_counts)
produce_on (client peer) work = work (dialled peer)

unfoldable pub producer :
    Format
    → Host
    → StressConfig
    → (uint64 : ℕ → ℕ → ℕ) (pick : ℕ → Bytes) (worker_id rounds : ℕ) → Option Counters
unfolding new_rpc_client produce make_stress_payload
producer fmt host cfg uint64 pick worker_id rounds = produce_on (new_rpc_client host false) λ conn.
    produce pick (λ seq. make_stress_payload fmt (uint64 seq) worker_id seq cfg.payload_len) rounds
      0 conn no_counts

-- The warm-up: the exit code of `stress` if it fails, before any worker starts.
unfoldable pub warm_up : Exchange → Option ℕ
unfolding client_error
warm_up (broken e) = some (client_error e)
warm_up (answered resp) =
    if resp.is_ok
    then none
    else if bytes_eq resp.error (codes "timeout")
    then none
    else some exit_runtime

-- `runStress` up to its workers; `none` says that they start.
unfoldable pub start_stress : (Bytes → Host) → Parse StressConfig → Option ℕ
unfolding check_channels round_trip warm_up
start_stress host (reject e) = some exit_usage
start_stress host (accept cfg) = elim (check_channels cfg.channels) [
  | some e ↦ some exit_runtime
  | none ↦ warm_up (
      round_trip (host cfg.socket)
        (record { op = "pop"; channels = cfg.channels; payload = []; timeout_ms = pos 1 }) true)
]
