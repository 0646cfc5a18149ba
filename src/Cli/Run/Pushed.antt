-- ===== src/Cli/Run/Pushed.antt =====
-- main.go: what a run of `push` comes to, through the connection, the daemon and back.
use atomic_queue.Prelude.{
  ℕ, ◌≤◌, ◌≡◌, refl, ap, ◌∙◌, Bool, true, false, Option, none, some, List, [], ◌∷◌, length, le→leb,
}
use atomic_queue.Limits.{default_max_bytes, exit_ok, exit_runtime}
use atomic_queue.Fault.{Bytes, Error}
use atomic_queue.Fault.Text.{Format, error_text}
use atomic_queue.Channel.{validate_channel, validate_payload}
use atomic_queue.Protocol.Response.{Response}
use atomic_queue.Protocol.RoundTrip.{fresh}
use atomic_queue.Protocol.Wire.{
  CanReply, wire_request, wire_response, flushed, write_request-wire, write_response-wire,
}
use atomic_queue.Server.{Calls, done, failure, serve_request, after_push_call, last_reply}
use atomic_queue.Server.Loop.{carry_on}
use atomic_queue.Server.Rpc.{got, daemon, daemon_one, read_sent, do_request}
use atomic_queue.Server.Requests.{push_request, push-IsSendable}
use atomic_queue.Cli.Number.{accept}
use atomic_queue.Cli.Push.{PushArgs, parse_push_args}
use atomic_queue.Cli.Connect.{
  Host, connected, answered, new_rpc_client, take_connection, should_start_daemon, exchange,
  exchanged, round_trip,
}
use atomic_queue.Cli.Run.{Streams, push_exit, send_push, push_with, run_push}

-- Where the channel and the payload come from.
pub data Gives (streams : Streams) (a : PushArgs) (channel payload : Bytes) : Type 0 where
  from_arguments :
      a.positionals ≡ channel ∷ payload ∷ []
      → a.read_stdin ≡ false
      → Gives streams a channel payload
  from_stdin :
      a.positionals ≡ channel ∷ []
      → a.read_stdin ≡ true
      → streams.stdin ≡ some payload
      → Gives streams a channel payload

abbrev pub push_response : Format → Option Error → Response
push_response fmt none = done
push_response fmt (some e) = failure (error_text fmt e)

abbrev pub push_code : Option Error → ℕ
push_code none = exit_ok
push_code (some e) = exit_runtime

abbrev is_done : Option Error → Bool
is_done none = true
is_done (some e) = false

module _ {S : Type 0} (fmt : Format) (calls : Calls S) (s s' : S) (channel payload : Bytes)
    (r : Option Error) (answer : calls.push_owned s channel payload ≡ (r, s'))
    (reply : CanReply (push_response fmt r)) (known : validate_channel channel ≡ none)
    (small : length payload ≤ default_max_bytes) where
  serve_push-answers :
      serve_request fmt calls (push_request channel payload) fresh s
      ≡ (is_done r, flushed fresh (wire_response (push_response fmt r)), s')
  unfolding serve_request after_push_call last_reply
  serve_push-answers = ap (after_push_call fmt calls fresh) answer ∙ go r reply
    where
      go :
          (r : Option Error)
          → CanReply (push_response fmt r)
          → after_push_call fmt calls fresh (r, s')
            ≡ (is_done r, flushed fresh (wire_response (push_response fmt r)), s')
      go none can = rw (write_response-wire done fresh can refl) refl
      go (some e) can = rw (write_response-wire (failure (error_text fmt e)) fresh can refl) refl

  -- What the daemon sends back to one push.
  push_heard :
      daemon fmt calls s (wire_request (push_request channel payload))
      ≡ wire_response (push_response fmt r)
  push_heard =
      let sendable = push-IsSendable channel payload known small in
      daemon_one fmt calls s (push_request channel payload) sendable.0 sendable.1
      ∙ ap (λ k. (carry_on fmt calls (λ w s'. (w, s')) k).0.sent) serve_push-answers
      ∙ go r
    where
      go :
          (r : Option Error)
          → (carry_on fmt calls
              (λ w s'. (w, s'))
              (is_done r, flushed fresh (wire_response (push_response fmt r)), s')).0.sent
            ≡ wire_response (push_response fmt r)
      go none = refl
      go (some e) = refl

  push_answered :
      do_request (daemon fmt calls s) (push_request channel payload) ≡ got (push_response fmt r)
  unfolding do_request
  push_answered =
      let sendable = push-IsSendable channel payload known small in
      rw (write_request-wire (push_request channel payload) fresh sendable.0 refl)
        (rw push_heard (rw (read_sent fmt calls s (push_response fmt r) reply) refl))

  module _ (host : Bytes → Host) (streams : Streams) (default_socket : Bytes) (args : List Bytes)
      (a : PushArgs) (parsed : parse_push_args default_socket args ≡ accept a)
      (gives : Gives streams a channel payload)
      (dial : (host a.socket).dial 0 ≡ connected (daemon fmt calls s)) where
    sent : send_push host streams a.socket channel payload ≡ push_code r
    unfolding send_push validate_payload round_trip new_rpc_client should_start_daemon
        take_connection exchange push_exit
    sent =
        let reached : round_trip (host a.socket) (push_request channel payload) true
            ≡ answered (push_response fmt r) =
          rw dial (ap exchanged push_answered) in
        rw (send_push, known, le→leb (length payload) default_max_bytes small)
          (ap push_exit reached ∙ exit_code r)
      where
        exit_code : (r : Option Error) → push_exit (answered (push_response fmt r)) ≡ push_code r
        exit_code none = refl
        exit_code (some e) = refl

    -- `push` with arguments that are accepted, which give a channel with a valid name and a payload
    -- within the daemon's limit, or give the channel and have the payload read from stdin, at a daemon
    -- that can be reached: whatever the broker answers to the push of just that payload to just that
    -- channel, with an error text within the limits of the protocol, the exit code is 0 when it
    -- accepts the push, and 1 when it returns an error.
    pub run_push_codes : run_push host streams default_socket args ≡ push_code r
    unfolding run_push push_with
    run_push_codes = rw (run_push, parsed) (go gives)
      where
        go : Gives streams a channel payload → push_with host streams a a.positionals ≡ push_code r
        go (from_arguments words given) = rw (words, given) sent
        go (from_stdin words given text) = rw (words, given, text) sent
