-- ===== src/Standalone/Whole.antt =====
-- examples/go/standalone-client/main.go: the whole program at a daemon of this repository, with
-- handleConn and the broker behind it.
use atomic_queue.Prelude.{
  suc, ◌+◌, ◌-◌, ◌≤◌, ◌≡◌, refl, sym, ap, ◌∙◌, none, List, [], ◌∷◌, ◌++◌, append-nil, length,
  drop-length-append, All, arith,
}
use atomic_queue.Prelude.Int.{pos}
use atomic_queue.Limits.{default_max_bytes}
use atomic_queue.Fault.{Bytes}
use atomic_queue.Fault.Text.{Format, codes}
use atomic_queue.Channel.{validate_channel}
use atomic_queue.Broker.Waiters.{NoTaker}
use atomic_queue.Broker.Valid.{IsValid}
use atomic_queue.Broker.Fifo.{view}
use atomic_queue.Protocol.Stream.{to_be}
use atomic_queue.Protocol.Request.{Request}
use atomic_queue.Protocol.RoundTrip.{fresh}
use atomic_queue.Protocol.Wire.{wire_request, wire_response, flushed}
use atomic_queue.Server.{done}
use atomic_queue.Server.Loop.{wire_requests, IsSendable, serve_all, handle_conn-serve_all, carry_on}
use atomic_queue.Server.Rpc.{got, Peer, daemon, sent_by}
use atomic_queue.Server.Live.{Live, Others, broker_calls}
use atomic_queue.Server.Requests.{
  push_request, pop_request, pop_requests, delivery_of, push-IsSendable, pop-IsSendable,
  done-CanReply, delivered-CanReply,
}
use atomic_queue.Server.Session.{StayOff, queues_in_turn, serve_pop-takes}
use atomic_queue.Cli.Connect.{Host, connected}
use atomic_queue.Stress.Workers.{Conn, dialled}
use atomic_queue.Load.Workers.{send_and_read, pushed_on, popped_on}
use atomic_queue.Standalone.{milliseconds}
use atomic_queue.Standalone.Agrees.{sends-wire, reads-wire}
use atomic_queue.Standalone.Dial.{after_dial, dial_client}
use atomic_queue.Standalone.Main.{jobs, job, after_message, after_job, on_dialled, push_and_pop}

jobs_known : validate_channel jobs ≡ none
unfolding validate_channel
jobs_known = refl

abbrev the_push : Request
the_push = push_request jobs job

abbrev the_pop : Request
the_pop = pop_request jobs (pos 5000)

the_push-IsSendable : IsSendable the_push
the_push-IsSendable = push-IsSendable jobs job jobs_known (omega arith)

pop_requests-IsSendable : All IsSendable (pop_requests jobs (pos 5000) 1)
pop_requests-IsSendable = pop-IsSendable jobs (pos 5000) 1 jobs_known (omega arith)

module _ (fmt : Format) (others : Others) (off : StayOff jobs others) (s : Live)
    (v : IsValid s.broker) (max : s.broker.max_bytes ≡ default_max_bytes)
    (none_wait : NoTaker jobs s.broker.waiters)
    (room : s.broker.queued_bytes + length job ≤ s.broker.max_queued_bytes) (p : Bytes)
    (q : List Bytes) (oldest : view s.broker jobs ++ job ∷ [] ≡ p ∷ q)
    (small : length p ≤ default_max_bytes) where
  -- The daemon on whole requests.
  daemon-serve_all :
      (reqs : List Request)
      → All IsSendable reqs
      → length reqs ≤ length (wire_requests reqs)
      → daemon fmt (broker_calls others) s (wire_requests reqs)
        ≡ (serve_all fmt (broker_calls others) reqs fresh s).0.sent
  unfolding daemon
  daemon-serve_all reqs sendable enough = ap (sent_by fmt (broker_calls others) s) (
      handle_conn-serve_all fmt (broker_calls others) reqs (suc (length (wire_requests reqs))) fresh
        s sendable (omega arith))

  heard_first : daemon fmt (broker_calls others) s (wire_request the_push) ≡ wire_response done
  heard_first =
      let (l, served, valid, same) =
        queues_in_turn fmt others jobs jobs_known off (job ∷ []) [] s fresh v
          (omega (arith, max), tt) none_wait (omega arith) refl in
      ap (daemon fmt (broker_calls others) s) (sym (append-nil (wire_request the_push)))
      ∙ daemon-serve_all (the_push ∷ []) (the_push-IsSendable, tt) (omega arith)
      ∙ ap (λ r. r.0.sent) served

  heard_both :
      daemon fmt (broker_calls others) s (wire_request the_push ++ wire_request the_pop)
      ≡ wire_response done ++ wire_response (delivery_of jobs p)
  unfolding to_be
  heard_both =
      let (l, served, valid, same) =
        queues_in_turn fmt others jobs jobs_known off (job ∷ []) (the_pop ∷ []) s fresh v
          (omega (arith, max), tt) none_wait (omega arith) refl in
      let popped =
        serve_pop-takes fmt others jobs jobs_known l (flushed fresh (wire_response done)) (pos 5000)
          p q (off l valid).valid ((off l valid).same ∙ same ∙ oldest) small refl in
      ap (λ x. daemon fmt (broker_calls others) s (wire_request the_push ++ x))
        (sym (append-nil (wire_request the_pop)))
      ∙ daemon-serve_all (the_push ∷ the_pop ∷ []) (the_push-IsSendable, pop_requests-IsSendable)
          (omega arith)
      ∙ ap (λ r. r.0.sent) served
      ∙ ap
          (λ r.
            (carry_on fmt (broker_calls others) (serve_all fmt (broker_calls others) []) r).0.sent)
          popped

  abbrev peer : Peer
  peer = daemon fmt (broker_calls others) s

  abbrev pushed_conn : Conn
  pushed_conn = record {
    peer = peer;
    writer = flushed fresh (wire_request the_push);
    read = length (wire_response done);
  }

  push_answered : pushed_on (dialled peer) jobs job ≡ (got tt, pushed_conn)
  unfolding send_and_read
  push_answered =
      let whole : 0 + (length (wire_response done) - 0) ≡ length (wire_response done) =
        omega arith in
      let back = rw append-nil at (reads-wire done [] done-CanReply) in
      rw (sends-wire the_push fresh the_push-IsSendable.0 refl)
        (rw heard_first (rw back (rw whole refl)))

  pop_answered : (popped_on pushed_conn (jobs ∷ []) (pos 5_000_000_000)).0 ≡ got p
  unfolding send_and_read milliseconds
  pop_answered =
      let reply = delivery_of jobs p in
      let back =
        rw append-nil at (reads-wire reply [] (delivered-CanReply jobs p jobs_known small)) in
      rw
        (sends-wire the_pop (flushed fresh (wire_request the_push)) pop_requests-IsSendable.0.0
          refl)
        (rw (heard_both, drop-length-append (wire_response done) (wire_response reply), back) refl)

  -- The whole program, at a daemon that can be dialled, whose broker is valid, has the daemon's
  -- maximum size, has nobody waiting for the channel `jobs` and has room for the message: when the
  -- other goroutines, before its push and its pop, keep the broker valid, neither push to that
  -- channel, pop from it nor wait for it, and take no room, the program pushes its message, and prints the oldest
  -- message of that channel, which is its own if the channel was empty, and its exit code is 0.
  pub push_and_pop-daemon :
      (host : Host)
      → host.dial 0 ≡ connected (daemon fmt (broker_calls others) s)
      → push_and_pop host ≡ record { code = 0; output = codes "received: " ++ (p ++ b'\n' ∷ []) }
  unfolding push_and_pop dial_client
  push_and_pop-daemon host dial =
      ap (λ d. on_dialled (after_dial host d)) dial
      ∙ ap (λ r. after_job r.0 r.1) push_answered
      ∙ ap after_message pop_answered
