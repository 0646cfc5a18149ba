-- ===== src/Cli/Run.antt =====
-- main.go: runPush and runPop, their exit codes and what `pop` writes to its output. The messages
-- on stderr are left out.
pub mod Codes
pub mod Pushed
mod Tests
use atomic_queue.Prelude.{
  ℕ, ◌+◌, ◌*◌, ◌/◌, ◌%◌, ◌^◌, ◌≤◌, ◌<◌, ◌≡◌, refl, Bool, true, false, Option, none, some, List, [],
  ◌∷◌, bytes_eq, ◌==◌, arith, if◌then◌else◌,
}
use atomic_queue.Prelude.Int.{ℤ, pos, negsuc}
use atomic_queue.Limits.{default_max_bytes, exit_ok, exit_runtime, exit_timeout, exit_usage}
use atomic_queue.Fault.{Bytes, timed_out}
use atomic_queue.Fault.Text.{codes}
use atomic_queue.Channel.{validate_channel, validate_payload}
use atomic_queue.Broker.Ops.{check_channels}
use atomic_queue.Protocol.Request.{Request}
use atomic_queue.Protocol.Response.{Response}
use atomic_queue.Server.{deadline_of}
use atomic_queue.Server.Rpc.{ClientError, send_failed, read_failed, refused}
use atomic_queue.Cli.Number.{Parse, accept, reject}
use atomic_queue.Cli.Push.{PushArgs, parse_push_args}
use atomic_queue.Cli.Pop.{PopArgs, parse_pop_args}
use atomic_queue.Cli.Connect.{
  Host, ConnectError, request_failed, Exchange, answered, broken, round_trip,
}

-- `clientError`
unfoldable pub client_error : ConnectError → ℕ
client_error (request_failed (send_failed timed_out)) = exit_timeout
client_error (request_failed (read_failed timed_out)) = exit_timeout
client_error _ = exit_runtime

pub record Outcome : Type 0 where
  pub code : ℕ
  pub output : Bytes

abbrev pub exits : ℕ → Outcome
exits code = record { code = code; output = [] }

-- What stdin gives, or none if it cannot be read; and whether stdout can be written.
pub record Streams : Type 0 where
  pub stdin : Option Bytes
  pub stdout_open : Bool

unfoldable pub push_exit : Exchange → ℕ
unfolding client_error
push_exit (broken e) = client_error e
push_exit (answered resp) = if resp.is_ok then exit_ok else exit_runtime

-- `timeout.Milliseconds()` of a positive timeout, and 0 of any other.
unfoldable pub pop_timeout_ms : ℤ → ℤ
pop_timeout_ms (pos n) = pos (n / 1_000_000)
pop_timeout_ms (negsuc n) = pos 0

abbrev pub pop_request : List Bytes → ℤ → Request
pop_request channels timeout_ms = record {
  op = "pop";
  channels = channels;
  payload = [];
  timeout_ms = timeout_ms;
}

module _ (host : Bytes → Host) (streams : Streams) where
  unfoldable pub send_push : Bytes → Bytes → Bytes → ℕ
  unfolding validate_channel validate_payload push_exit round_trip
  send_push socket channel payload = elim (validate_channel channel) [
    | some e ↦ exit_runtime
    | none ↦ elim (validate_payload payload default_max_bytes) [
      | some e ↦ exit_runtime
      | none ↦ push_exit (
          round_trip (host socket)
            (record { op = "push"; channels = channel ∷ []; payload = payload; timeout_ms = pos 0 })
            true)
    ]
  ]

  unfoldable pub push_with : PushArgs → List Bytes → ℕ
  unfolding send_push
  push_with a (channel ∷ []) =
      if a.read_stdin
      then (elim streams.stdin [
        | none ↦ exit_runtime
        | some payload ↦ send_push a.socket channel payload
      ])
      else exit_usage
  push_with a (channel ∷ payload ∷ []) =
      if a.read_stdin then exit_usage else send_push a.socket channel payload
  push_with a _ = exit_usage

  unfoldable pub run_push : (default_socket : Bytes) → List Bytes → ℕ
  unfolding parse_push_args push_with
  run_push default_socket args = elim (parse_push_args default_socket args) [
    | reject e ↦ exit_usage
    | accept a ↦ push_with a a.positionals
  ]

  unfoldable pub pop_exit : Exchange → Outcome
  unfolding client_error
  pop_exit (broken e) = exits (client_error e)
  pop_exit (answered resp) =
      if resp.is_ok
      then (if streams.stdout_open
          then record { code = exit_ok; output = resp.payload }
          else exits exit_runtime)
      else (if bytes_eq resp.error (codes "timeout")
          then exits exit_timeout
          else exits exit_runtime)

  unfoldable pub pop_with : PopArgs → List Bytes → Outcome
  unfolding check_channels pop_exit round_trip pop_timeout_ms
  pop_with a [] = exits exit_usage
  pop_with a (channel ∷ rest) = elim (check_channels (channel ∷ rest)) [
    | some e ↦ exits exit_runtime
    | none ↦
        pop_exit (
          round_trip (host a.socket) (pop_request (channel ∷ rest) (pop_timeout_ms a.timeout)) true)
  ]

  unfoldable pub run_pop :
      (parse_duration : Bytes → Option ℤ) (default_socket : Bytes) → List Bytes → Outcome
  unfolding parse_pop_args pop_with
  run_pop parse_duration default_socket args =
      elim (parse_pop_args parse_duration default_socket args) [
        | reject e ↦ exits exit_usage
        | accept a ↦ pop_with a a.positionals
      ]

-- The deadline that the daemon gives a pop with `--timeout` of `n` nanoseconds: less than a
-- millisecond is no deadline at all, and any other is rounded down to whole milliseconds.
pub deadline_of-pop_timeout_ms :
    (n : ℕ)
    → n < 2 ^ 63
    → deadline_of (pop_timeout_ms (pos n))
      ≡ (if n / 1_000_000 == 0 then none else some (n / 1_000_000 * 1_000_000))
unfolding deadline_of pop_timeout_ms
deadline_of-pop_timeout_ms n h =
    let whole : n / 1_000_000 % 2 ^ 64 * 1_000_000 % 2 ^ 64 ≡ n / 1_000_000 * 1_000_000 =
      omega arith in
    let low : n / 1_000_000 * 1_000_000 < 2 ^ 63 = omega arith in rw whole (ground (arith, low))
