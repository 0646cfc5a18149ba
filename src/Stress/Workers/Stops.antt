-- ===== src/Stress/Workers/Stops.antt =====
-- stress.go: a consumer at a daemon of this repository, after a pop of its that timed out.
use atomic_queue.Prelude.{
  ℕ, suc, ◌+◌, ◌-◌, ◌<◌, ◌≡◌, refl, sym, ap, ◌∙◌, List, [], ◌∷◌, ◌++◌, append-nil, length,
  length-append, drop, All, bytes_eq, arith,
}
use atomic_queue.Prelude.Int.{IsInt64}
use atomic_queue.Fault.{Bytes, timed_out, eof, err}
use atomic_queue.Fault.Text.{Format, codes, error_text}
use atomic_queue.Protocol.Stream.{read_byte}
use atomic_queue.Protocol.Request.{Request}
use atomic_queue.Protocol.Response.{Response, read_response}
use atomic_queue.Protocol.RoundTrip.{fresh}
use atomic_queue.Protocol.Wire.{
  CanSend, CanReply, wire_request, wire_response, flushed, write_request-wire, write_response-wire,
}
use atomic_queue.Server.{Calls, deadline_of, failure}
use atomic_queue.Server.Loop.{wire_requests, IsSendable, pop_error_ends}
use atomic_queue.Server.Rpc.{
  ClientError, Reply, got, failed, read_failed, daemon, sent_by, read_sent,
}
use atomic_queue.Cli.Connect.{Host, connected, new_rpc_client, take_connection}
use atomic_queue.Cli.Run.{pop_timeout_ms}
use atomic_queue.Stress.Config.{StressConfig}
use atomic_queue.Stress.Workers.{
  Conn, dialled, ask, Counters, failure_counted, after_pop_round, pop_of, consume, consumer,
}

drop_all : (xs : Bytes) → drop (length xs) xs ≡ []
drop_all [] = refl
drop_all (x ∷ xs) = drop_all xs

round_failed :
    (loop : Conn → Counters → Counters) (n : Counters) (r : Reply Response × Conn) (e : ClientError)
    → r.0 ≡ failed e
    → after_pop_round loop n r ≡ failure_counted n
round_failed loop n (got resp, conn) e h = cc
round_failed loop n (failed x, conn) e h = refl

module _ {S : Type 0} (fmt : Format) (calls : Calls S) (s s' : S) (cfg : StressConfig)
    (can : CanSend (pop_of cfg)) (fits : IsInt64 (pop_timeout_ms cfg.pop_timeout))
    (late : calls.pop s (deadline_of (pop_timeout_ms cfg.pop_timeout)) cfg.channels
      ≡ (err timed_out, s')) where
  abbrev refusal : Response
  refusal = failure (codes "timeout")

  refusal-CanReply : CanReply refusal
  refusal-CanReply = record { small = omega arith; short = omega arith; brief = omega arith }

  -- What the daemon sends back, however many pops it gets.
  one_refusal :
      (reqs : List Request)
      → All IsSendable reqs
      → length reqs < length (wire_requests (pop_of cfg ∷ reqs))
      → daemon fmt calls s (wire_requests (pop_of cfg ∷ reqs)) ≡ wire_response refusal
  unfolding daemon error_text
  one_refusal reqs sendable enough =
      ap (sent_by fmt calls s) (
        pop_error_ends fmt calls (pop_of cfg) reqs
          (suc (length (wire_requests (pop_of cfg ∷ reqs)))) fresh s s' timed_out refl
          ((can, fits), sendable) (omega arith) late)
      ∙ rw (write_response-wire refusal fresh refusal-CanReply refl) refl

  abbrev after_first : Conn
  after_first = record {
    peer = daemon fmt calls s;
    writer = flushed fresh (wire_request (pop_of cfg));
    read = length (wire_response refusal);
  }

  first_reply : ask (pop_of cfg) (dialled (daemon fmt calls s)) ≡ (got refusal, after_first)
  unfolding ask
  first_reply =
      let heard : daemon fmt calls s (wire_request (pop_of cfg)) ≡ wire_response refusal =
        rw append-nil at (one_refusal [] tt (omega arith)) in
      let whole : 0 + (length (wire_response refusal) - 0) ≡ length (wire_response refusal) =
        omega arith in
      rw (write_request-wire (pop_of cfg) fresh can refl)
        (rw heard (rw (read_sent fmt calls s refusal refusal-CanReply) (rw whole refl)))

  second_reply : (ask (pop_of cfg) after_first).0 ≡ failed (read_failed eof)
  unfolding ask read_response read_byte
  second_reply =
      let once = wire_request (pop_of cfg) in
      let enough : 1 < length (once ++ (once ++ [])) =
        omega (arith, length-append once (once ++ []), length-append once []) in
      let heard : daemon fmt calls s (once ++ once) ≡ wire_response refusal =
        ap (λ x. daemon fmt calls s (once ++ x)) (sym (append-nil once))
        ∙ one_refusal (pop_of cfg ∷ []) ((can, fits), tt) enough in
      rw (write_request-wire (pop_of cfg) (flushed fresh once) can refl)
        (rw (heard, drop_all (wire_response refusal)) refl)

  -- A consumer that can connect and has a configuration within the limits of the protocol: when the
  -- broker lets its first pop time out and the run leaves it two rounds or more, then it counts one
  -- timeout and one failure, since the daemon has closed the connection, and ends with that.
  pub consumer_stops :
      (host : Host) (rounds : ℕ)
      → host.dial 0 ≡ connected (daemon fmt calls s)
      → consumer host cfg (suc (suc rounds))
        ≡ record { pushed = 0; served = 0; pop_timeouts = 1; failures = 1 }
  unfolding consumer consume new_rpc_client take_connection bytes_eq
  consumer_stops host rounds dial =
      rw (dial, first_reply)
        (round_failed (consume cfg rounds) _ (ask (pop_of cfg) after_first) (read_failed eof)
          second_reply)
