-- ===== src/Cli/Run/Codes.antt =====
-- main.go: what a run of `pop` comes to, through the connection, the daemon and back.
use atomic_queue.Prelude.{◌≡◌, refl, ap, true, Option, none, List, [], ◌∷◌, bytes_eq}
use atomic_queue.Prelude.Int.{ℤ, IsInt64}
use atomic_queue.Limits.{exit_ok, exit_timeout}
use atomic_queue.Fault.{Bytes, timed_out, ok, err}
use atomic_queue.Fault.Text.{Format, error_text}
use atomic_queue.Broker.Queues.{Delivery}
use atomic_queue.Broker.Ops.{check_channels, check_pop}
use atomic_queue.Protocol.Response.{Response}
use atomic_queue.Protocol.Wire.{CanSend, CanReply}
use atomic_queue.Server.{Calls, deadline_of, delivered, failure}
use atomic_queue.Server.Rpc.{
  Peer, got, client_pop, daemon, client_pop-daemon, client_pop-daemon_error,
}
use atomic_queue.Cli.Number.{accept}
use atomic_queue.Cli.Pop.{PopArgs, parse_pop_args}
use atomic_queue.Cli.Connect.{
  Host, connected, answered, new_rpc_client, should_start_daemon, take_connection, exchange,
  exchanged, round_trip,
}
use atomic_queue.Cli.Run.{Streams, exits, pop_request, pop_timeout_ms, pop_exit, pop_with, run_pop}

module _ (host : Bytes → Host) (streams : Streams) where
  answer_of :
      (a : PopArgs) (channels : List Bytes) (peer : Peer) (resp : Response)
      → check_pop channels ≡ none
      → (host a.socket).dial 0 ≡ connected peer
      → client_pop peer channels (pop_timeout_ms a.timeout) ≡ got resp
      → pop_with host streams a channels ≡ pop_exit host streams (answered resp)
  unfolding pop_with check_pop round_trip new_rpc_client should_start_daemon take_connection
      exchange client_pop
  answer_of a [] peer resp valid dial answer = cc
  answer_of a (channel ∷ rest) peer resp valid dial answer =
      let checked : check_channels (channel ∷ rest) ≡ none = valid in
      let reached : round_trip (host a.socket)
            (pop_request (channel ∷ rest) (pop_timeout_ms a.timeout)) true
          ≡ answered resp =
        rw dial (ap exchanged answer) in
      rw (pop_with, checked) (rw reached refl)

  module _ {S : Type 0} (fmt : Format) (calls : Calls S) (s s' : S)
      (parse_duration : Bytes → Option ℤ) (default_socket : Bytes) (args : List Bytes) (a : PopArgs)
      (parsed : parse_pop_args parse_duration default_socket args ≡ accept a)
      (valid : check_pop a.positionals ≡ none)
      (can : CanSend (pop_request a.positionals (pop_timeout_ms a.timeout)))
      (fits : IsInt64 (pop_timeout_ms a.timeout))
      (dial : (host a.socket).dial 0 ≡ connected (daemon fmt calls s)) where
    -- `pop` with arguments that are accepted, with at least one channel and valid ones only, within
    -- the limits of the protocol, at a daemon that can be reached: when the broker answers with a
    -- message and stdout can be written, the exit code is 0 and the output is the payload.
    pub run_pop-delivered :
        (d : Delivery)
        → CanReply (delivered d)
        → streams.stdout_open ≡ true
        → calls.pop s (deadline_of (pop_timeout_ms a.timeout)) a.positionals ≡ (ok d, s')
        → run_pop host streams parse_duration default_socket args
          ≡ record { code = exit_ok; output = d.payload }
    unfolding run_pop pop_exit
    run_pop-delivered d reply writes answer =
        rw (run_pop, parsed)
          (rw
            (
              answer_of a a.positionals _ (delivered d) valid dial
                  (client_pop-daemon fmt calls s a.positionals _ s' d can fits reply answer),
              writes,
            )
            refl)

    -- With the same arguments and daemon: when the broker answers that the pop has timed out, the
    -- exit code is 2 and there is no output.
    pub run_pop-timed_out :
        CanReply (failure (error_text fmt timed_out))
        → calls.pop s (deadline_of (pop_timeout_ms a.timeout)) a.positionals ≡ (err timed_out, s')
        → run_pop host streams parse_duration default_socket args ≡ exits exit_timeout
    unfolding run_pop pop_exit error_text bytes_eq
    run_pop-timed_out reply answer =
        rw (run_pop, parsed)
          (rw
            (answer_of a a.positionals _ (failure (error_text fmt timed_out)) valid dial (
              client_pop-daemon_error fmt calls s a.positionals _ s' timed_out can fits reply
                answer))
            refl)
