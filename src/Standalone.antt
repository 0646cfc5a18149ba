-- ===== src/Standalone.antt =====
-- examples/go/standalone-client/main.go: a client that has its own copy of the protocol.
pub mod Agrees
pub mod Dial
pub mod Paths
pub mod Main
pub mod Whole
mod Tests
use atomic_queue.Prelude.{
  ℕ, zero, suc, ◌+◌, ◌*◌, ◌/◌, ◌%◌, ◌^◌, Bool, true, false, List, [], ◌∷◌, length, ◌==◌,
  if◌then◌else◌,
}
use atomic_queue.Prelude.Int.{ℤ, pos, negsuc, to_word}
use atomic_queue.Limits.{op_push, op_pop, status_ok}
use atomic_queue.Fault.{Bytes, Result, ok, err}
use atomic_queue.Protocol.Stream.{
  M, ◌>>=◌, ◌>>◌, pure, read_byte, read_full, read_uint, Writer, write, write_uint, flush,
}
use atomic_queue.Protocol.Response.{Response}
use atomic_queue.Protocol.RoundTrip.{fresh}
use atomic_queue.Server.Rpc.{
  ClientError, send_failed, read_failed, refused, Peer, Reply, got, failed,
}

unfoldable pub write_channels : List Bytes → M Writer (Unit {0})
write_channels [] = pure tt
write_channels (channel ∷ rest) = do
  write_uint 2 (length channel % 2 ^ 16)
  write channel
  write_channels rest

unfoldable pub write_request : ℕ → List Bytes → Bytes → ℤ → M Writer (Unit {0})
unfolding write_channels
write_request op channels payload timeout_ms = do
  write (op ∷ [])
  write_uint 8 (to_word timeout_ms)
  write_uint 2 (length channels % 2 ^ 16)
  write_channels channels
  write_uint 4 (length payload % 2 ^ 32)
  write payload
  flush

unfoldable pub read_string16 : M Bytes Bytes
read_string16 = do n ← read_uint 2; read_full n

unfoldable pub read_bytes32 : M Bytes Bytes
read_bytes32 = do n ← read_uint 4; if n == 0 then pure [] else read_full n

unfoldable pub read_string32 : M Bytes Bytes
unfolding read_bytes32
read_string32 = do buf ← read_bytes32; pure buf

unfoldable pub read_response : M Bytes Response
unfolding read_string16 read_bytes32 read_string32
read_response = do
  status ← read_byte
  channel ← read_string16
  payload ← read_bytes32
  error_text ← read_string32
  pure (record {
    is_ok = status == status_ok;
    channel = channel;
    payload = payload;
    error = error_text;
  })

abbrev pub read_answer : Result Response × Bytes → Reply Response
read_answer (ok resp, rest) = got resp
read_answer (err e, rest) = failed (read_failed e)

abbrev pub answer_of : Peer → Result (Unit {0}) × Writer → Reply Response
answer_of peer (ok u, w) = read_answer (read_response (peer w.sent))
answer_of peer (err e, w) = failed (send_failed e)

-- `errors.New(errText)` unless the response is OK.
abbrev pub accepted_payload : Reply Response → Reply Bytes
accepted_payload (failed e) = failed e
accepted_payload (got resp) = if resp.is_ok then got resp.payload else failed (refused resp.error)

abbrev pub accepted_push : Reply Response → Reply (Unit {0})
accepted_push (failed e) = failed e
accepted_push (got resp) = if resp.is_ok then got tt else failed (refused resp.error)

-- `timeout.Milliseconds()`: nanoseconds to milliseconds, towards zero.
abbrev negated : ℕ → ℤ
negated zero = pos 0
negated (suc n) = negsuc n

unfoldable pub milliseconds : ℤ → ℤ
milliseconds (pos n) = pos (n / 1_000_000)
milliseconds (negsuc n) = negated (suc n / 1_000_000)

-- `Push` and `Pop` on a connection that `Dial` has just made.
unfoldable pub push : Peer → Bytes → Bytes → Reply (Unit {0})
unfolding write_request read_response
push peer channel payload =
    accepted_push (answer_of peer (write_request op_push (channel ∷ []) payload (pos 0) fresh))

unfoldable pub pop : Peer → List Bytes → (timeout : ℤ) → Reply Bytes
unfolding write_request read_response milliseconds
pop peer channels timeout =
    accepted_payload
      (answer_of peer (write_request op_pop channels [] (milliseconds timeout) fresh))
