-- ===== src/Standalone/Agrees.antt =====
-- examples/go/standalone-client/main.go against protocol.go and the daemon.
use atomic_queue.Prelude.{
  suc, ◌^◌, ◌≤◌, ◌<◌, ◌≡◌, refl, sym, ◌∙◌, Bool, true, false, List, [], ◌∷◌, ◌++◌, length, All,
  append_assoc, append-nil, ◌==◌, suc-==-zero, arith, if◌then◌else◌,
}
use atomic_queue.Prelude.Int.{ℤ, IsInt64}
use atomic_queue.Limits.{status_ok, status_error}
use atomic_queue.Fault.{Bytes, Result, ok}
use atomic_queue.Fault.Text.{Format}
use atomic_queue.Broker.Queues.{Delivery}
use atomic_queue.Protocol.Stream.{
  Writer, to_be, read_byte, read_full, pure, write, write_uint, flush,
}
use atomic_queue.Protocol.Fields.{read_uint-to_be, read_full-append}
use atomic_queue.Protocol.Request.{Request, write_request as write_protocol_request}
use atomic_queue.Protocol.Response.{Response}
use atomic_queue.Protocol.RoundTrip.{fresh}
use atomic_queue.Protocol.Wire.{
  CanSend, CanReply, Fits16, code_of, mod16, mod32, wire_channels, wire_request, wire_response,
  flushed, write_request-wire,
}
use atomic_queue.Server.{Calls, deadline_of, delivered}
use atomic_queue.Server.Rpc.{got, daemon, daemon_one, pop_delivered}
use atomic_queue.Standalone.{
  write_channels, write_request, read_string16, read_bytes32, read_string32, read_response,
  milliseconds, pop,
}

write_channels-wire :
    (cs : List Bytes) (w : Writer)
    → All Fits16 cs
    → write_channels cs w ≡ (ok tt, record w { buffered = w.buffered ++ wire_channels cs })
unfolding write_channels write_uint write
write_channels-wire [] w h = rw append-nil
write_channels-wire (c ∷ cs) w h =
    rw (mod16 (length c) h.0) (write_channels-wire cs _ h.1 ∙ simp append_assoc)

pub sends-wire :
    (req : Request) (w : Writer)
    → CanSend req
    → w.gone ≡ false
    → write_request (code_of req.op) req.channels req.payload req.timeout_ms w
      ≡ (ok tt, flushed w (wire_request req))
unfolding write_request write_uint write flush
sends-wire req w can up =
    rw
      (
        mod16 (length req.channels) (omega (arith, can.few)),
        mod32 (length req.payload) (omega (arith, can.small)),
      )
      (rw (write_channels-wire req.channels _ can.short, up) (simp append_assoc))

-- On a connection that is up, and for a request that the `writeRequest` of the protocol accepts,
-- the example's own `writeRequest` does to the connection just what that one does.
pub write_request-agrees :
    (req : Request) (w : Writer)
    → CanSend req
    → w.gone ≡ false
    → write_request (code_of req.op) req.channels req.payload req.timeout_ms w
      ≡ write_protocol_request req w
write_request-agrees req w can up = sends-wire req w can up ∙ sym (write_request-wire req w can up)

read_bytes32-field :
    (value rest : Bytes)
    → length value < 2 ^ 32
    → read_bytes32 (to_be 4 (length value) ++ (value ++ rest)) ≡ (ok value, rest)
unfolding read_bytes32
read_bytes32-field value rest h =
    rw (read_uint-to_be 4 (length value) (value ++ rest) (omega arith)) (body value)
  where
    body :
        (v : Bytes)
        → (if length v == 0 then pure [] else read_full (length v)) (v ++ rest) ≡ (ok v, rest)
    body [] = refl
    body (x ∷ v) = rw (suc-==-zero (length v)) (read_full-append (suc (length v)) (x ∷ v) rest refl)

read_string16-field :
    (value rest : Bytes)
    → length value ≤ 0xffff
    → read_string16 (to_be 2 (length value) ++ (value ++ rest)) ≡ (ok value, rest)
unfolding read_string16
read_string16-field value rest h =
    rw (read_uint-to_be 2 (length value) (value ++ rest) (omega arith))
      (read_full-append (length value) value rest refl)

-- The example's `readResponse` reads back what the daemon's `writeResponse` puts on the wire.
pub reads-wire :
    (resp : Response) (rest : Bytes)
    → CanReply resp
    → read_response (wire_response resp ++ rest) ≡ (ok resp, rest)
unfolding read_response read_byte read_string32
reads-wire resp rest can = simp append_assoc (
    rw
      (
        read_string16-field resp.channel _ can.short,
        read_bytes32-field resp.payload _ (omega (arith, can.small)),
        read_bytes32-field resp.error rest (omega (arith, can.brief)),
      )
      (flag resp.is_ok))
  where
    flag :
        (b : Bool)
        → ◌≡◌ {A = Result Response × Bytes}
            (
              ok (record {
                is_ok = (if b then status_ok else status_error) == status_ok;
                channel = resp.channel;
                payload = resp.payload;
                error = resp.error;
              }),
              rest,
            )
            (
              ok (record {
                is_ok = b;
                channel = resp.channel;
                payload = resp.payload;
                error = resp.error;
              }),
              rest,
            )
    flag true = refl
    flag false = refl

module _ {S : Type 0} (fmt : Format) (calls : Calls S) (s : S) where
  -- The example's `Pop` at a daemon of this repository, with at most 1024 channels of at most 65535
  -- bytes each: when the broker answers the pop of those channels, with the deadline of the whole
  -- milliseconds of the timeout, by a message within the limits of the protocol, then `Pop` returns
  -- its payload.
  pub pop-daemon :
      (channels : List Bytes) (timeout : ℤ) (s' : S) (d : Delivery)
      → CanSend (record {
        op = "pop";
        channels = channels;
        payload = [];
        timeout_ms = milliseconds timeout;
      })
      → IsInt64 (milliseconds timeout)
      → CanReply (delivered d)
      → calls.pop s (deadline_of (milliseconds timeout)) channels ≡ (ok d, s')
      → pop (daemon fmt calls s) channels timeout ≡ got d.payload
  unfolding pop
  pop-daemon channels timeout s' d can fits reply answer =
      let req : Request = record {
        op = "pop";
        channels = channels;
        payload = [];
        timeout_ms = milliseconds timeout;
      } in
      let back : read_response (wire_response (delivered d)) ≡ (ok (delivered d), []) =
        rw append-nil at (reads-wire (delivered d) [] reply) in
      rw (sends-wire req fresh can refl) (
        rw
          (
            daemon_one fmt calls s req can fits,
            pop_delivered fmt calls s req fresh s' d refl reply refl answer,
          )
          (rw back refl))
