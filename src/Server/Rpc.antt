-- ===== src/Server/Rpc.antt =====
-- main.go: the client's side of a connection, `rpcClient`, and a request on its way through the
-- daemon and back.
use atomic_queue.Prelude.{
  suc, ◌≡◌, refl, ◌∙◌, ap, true, false, Option, none, some, List, [], ◌∷◌, append-nil, length,
  arith, if◌then◌else◌,
}
use atomic_queue.Prelude.Int.{ℤ, pos, IsInt64}
use atomic_queue.Fault.{Bytes, Error, Result, ok, err}
use atomic_queue.Fault.Text.{Format, error_text}
use atomic_queue.Broker.Queues.{Delivery}
use atomic_queue.Protocol.Stream.{Writer}
use atomic_queue.Protocol.Request.{Request, write_request}
use atomic_queue.Protocol.Response.{Response, read_response}
use atomic_queue.Protocol.Wire.{
  CanSend, CanReply, wire_request, wire_response, flushed, write_request-wire, write_response-wire,
}
use atomic_queue.Protocol.RoundTrip.{fresh, read_response-wire}
use atomic_queue.Server.{Calls, deadline_of, delivered, failure, serve_request, handle_conn}
use atomic_queue.Server.Loop.{carry_on, handle_conn-serve_all, pop_served}

-- The errors of the client: what `Do`, `Push` and `Pop` put in front of the cause, and an answer
-- of the daemon that is not OK.
pub data ClientError : Type 0 where
  send_failed : Error → ClientError
  read_failed : Error → ClientError
  refused : Bytes → ClientError

pub data Reply (A : Type 0) : Type 0 where
  got : A → Reply A
  failed : ClientError → Reply A

-- The daemon behind a connection: what it sends, given all that it has been sent.
abbrev pub Peer : Type 0
Peer = Bytes → Bytes

abbrev read_reply : Result Response × Bytes → Reply Response
read_reply (ok resp, rest) = got resp
read_reply (err e, rest) = failed (read_failed e)

abbrev answer_to : Peer → Result (Unit {0}) × Writer → Reply Response
answer_to peer (ok u, w) = read_reply (read_response (peer w.sent))
answer_to peer (err e, w) = failed (send_failed e)

-- `Do`, on a connection that `newRPCClient` has just made.
unfoldable pub do_request : Peer → Request → Reply Response
do_request peer req = answer_to peer (write_request req fresh)

abbrev check_reply : Reply Response → Reply (Unit {0})
check_reply (failed e) = failed e
check_reply (got resp) = if resp.is_ok then got tt else failed (refused resp.error)

-- `Push`
unfoldable pub client_push : Peer → Bytes → Bytes → Reply (Unit {0})
unfolding do_request
client_push peer channel payload = check_reply (
    do_request peer
      (record { op = "push"; channels = channel ∷ []; payload = payload; timeout_ms = pos 0 }))

-- `Pop`
unfoldable pub client_pop : Peer → List Bytes → ℤ → Reply Response
unfolding do_request
client_pop peer channels timeout_ms =
    do_request peer
      (record { op = "pop"; channels = channels; payload = []; timeout_ms = timeout_ms })

module _ {S : Type 0} (fmt : Format) (calls : Calls S) (s : S) where
  abbrev pub sent_by : Option (Writer × S) → Bytes
  sent_by none = []
  sent_by (some (w, s')) = w.sent

  -- The daemon with a handler of its own for the connection.
  unfoldable pub daemon : Peer
  daemon input = sent_by (handle_conn fmt calls (suc (length input)) input fresh s)

  pub pop_delivered :
      (req : Request) (w : Writer) (s' : S) (d : Delivery)
      → req.op ≡ "pop"
      → CanReply (delivered d)
      → w.gone ≡ false
      → calls.pop s (deadline_of req.timeout_ms) req.channels ≡ (ok d, s')
      → serve_request fmt calls req w s ≡ (true, flushed w (wire_response (delivered d)), s')
  unfolding serve_request
  pop_delivered req w s' d is_pop can up answer =
      rw (is_pop, answer) (rw (write_response-wire (delivered d) w can up))

  pub read_sent :
      (resp : Response) → CanReply resp → read_response (wire_response resp) ≡ (ok resp, [])
  read_sent resp can = rw append-nil at (read_response-wire resp [] can)

  -- A daemon that gets one request serves it and then finds the connection closed.
  pub daemon_one :
      (req : Request)
      → CanSend req
      → IsInt64 req.timeout_ms
      → daemon (wire_request req)
        ≡ (carry_on fmt calls (λ w s'. (w, s')) (serve_request fmt calls req fresh s)).0.sent
  unfolding daemon
  daemon_one req can fits = ap sent_by (
      rw (append-nil (wire_request req)) at (
        handle_conn-serve_all fmt calls (req ∷ []) (suc (length (wire_request req))) fresh s
          ((can, fits), tt) (omega arith)))

  -- When the client pops with at most 1024 channels of at most 65535 bytes each and a timeout of 64
  -- bits, and the broker answers the pop of those channels, with the deadline of that timeout, by a
  -- message within the limits of the protocol, then the client gets that message.
  pub client_pop-daemon :
      (channels : List Bytes) (timeout_ms : ℤ) (s' : S) (d : Delivery)
      → CanSend (record { op = "pop"; channels = channels; payload = []; timeout_ms = timeout_ms })
      → IsInt64 timeout_ms
      → CanReply (delivered d)
      → calls.pop s (deadline_of timeout_ms) channels ≡ (ok d, s')
      → client_pop daemon channels timeout_ms ≡ got (delivered d)
  unfolding client_pop daemon
  client_pop-daemon channels timeout_ms s' d can fits reply answer =
      let req : Request = record {
        op = "pop";
        channels = channels;
        payload = [];
        timeout_ms = timeout_ms;
      } in
      rw (write_request-wire req fresh can refl) (
        rw (daemon_one req can fits, pop_delivered req fresh s' d refl reply refl answer)
          (rw (read_sent (delivered d) reply)))

  pub pop_refused :
      (req : Request) (s' : S) (e : Error)
      → req.op ≡ "pop"
      → CanReply (failure (error_text fmt e))
      → calls.pop s (deadline_of req.timeout_ms) req.channels ≡ (err e, s')
      → serve_request fmt calls req fresh s
        ≡ (false, flushed fresh (wire_response (failure (error_text fmt e))), s')
  pop_refused req s' e is_pop can answer =
      pop_served fmt calls req fresh s s' e is_pop answer
      ∙ rw (write_response-wire (failure (error_text fmt e)) fresh can refl)

  -- When the client pops with at most 1024 channels of at most 65535 bytes each and a timeout of 64
  -- bits, and the broker answers with an error whose text is at most 64 KiB, then the client gets a
  -- response that is not OK and carries that text.
  pub client_pop-daemon_error :
      (channels : List Bytes) (timeout_ms : ℤ) (s' : S) (e : Error)
      → CanSend (record { op = "pop"; channels = channels; payload = []; timeout_ms = timeout_ms })
      → IsInt64 timeout_ms
      → CanReply (failure (error_text fmt e))
      → calls.pop s (deadline_of timeout_ms) channels ≡ (err e, s')
      → client_pop daemon channels timeout_ms ≡ got (failure (error_text fmt e))
  unfolding client_pop daemon
  client_pop-daemon_error channels timeout_ms s' e can fits reply answer =
      let req : Request = record {
        op = "pop";
        channels = channels;
        payload = [];
        timeout_ms = timeout_ms;
      } in
      rw (write_request-wire req fresh can refl) (
        rw (daemon_one req can fits, pop_refused req s' e refl reply answer)
          (rw (read_sent (failure (error_text fmt e)) reply)))
