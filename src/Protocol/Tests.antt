-- ===== src/Protocol/Tests.antt =====
-- A request and a response on the wire.
use atomic_queue.Prelude.{◌≡◌, refl, inr, true, [], ◌∷◌, ◌++◌, arith}
use atomic_queue.Prelude.Int.{negsuc}
use atomic_queue.Fault.{Bytes, Error, ok, err, unexpected_eof}
use atomic_queue.Protocol.Stream.{
  to_be, from_be, read_byte, read_full, read_uint, write, write_uint, flush,
}
use atomic_queue.Protocol.Frames.{read_string16, read_bytes32}
use atomic_queue.Protocol.Request.{
  Request, op_byte, op_name, write_channels, write_request, read_channels, read_request,
}
use atomic_queue.Protocol.Response.{Response, write_response, read_response}
use atomic_queue.Protocol.Wire.{CanSend}
use atomic_queue.Protocol.RoundTrip.{
  fresh, read_request-write_request, read_response-write_response,
}
use atomic_queue.Protocol.Local.{read_request-IsLocal, read_request_truncated}

abbrev ping : Request
ping = record {
  op = "pop";
  channels = (b'a' ∷ []) ∷ (b'b' ∷ b'c' ∷ []) ∷ [];
  payload = [];
  timeout_ms = negsuc 0;
}

abbrev ping_bytes : Bytes
ping_bytes =
    2 ∷ 255 ∷ 255 ∷ 255 ∷ 255 ∷ 255 ∷ 255 ∷ 255 ∷ 255 ∷ 0 ∷ 2 ∷ 0 ∷ 1 ∷ b'a' ∷ 0 ∷ 2 ∷ b'b' ∷ b'c'
    ∷ 0 ∷ 0 ∷ 0 ∷ 0 ∷ []

ping_sent : (write_request ping fresh).1.sent ≡ ping_bytes
unfolding write_request op_byte write_channels write_uint write flush to_be
ping_sent = refl

ping_cut : (read_request (2 ∷ 255 ∷ [])).0 ≡ err unexpected_eof
unfolding read_request read_byte read_uint read_full
ping_cut = refl

ping-CanSend : CanSend ping
ping-CanSend = record {
  known = inr refl;
  few = omega arith;
  short = (omega arith, (omega arith, tt));
  small = omega arith;
}

read_request-write_request_example :
    read_request ((write_request ping fresh).1.sent ++ 9 ∷ []) ≡ (ok ping, 9 ∷ [])
read_request-write_request_example =
    read_request-write_request ping (9 ∷ []) ping-CanSend (omega arith)

abbrev pong : Response
pong = record { is_ok = true; channel = b'a' ∷ []; payload = 0 ∷ 255 ∷ []; error = [] }

read_response-write_response_example :
    read_response ((write_response pong fresh).1.sent ++ []) ≡ (ok pong, [])
read_response-write_response_example = read_response-write_response pong [] (omega arith)

ping_read : read_request ping_bytes ≡ (ok ping, [])
unfolding read_request read_byte read_uint read_full read_channels read_string16 read_bytes32
    op_name from_be
ping_read = refl

ping_then_more : read_request (ping_bytes ++ 1 ∷ 2 ∷ []) ≡ (ok ping, 1 ∷ 2 ∷ [])
ping_then_more = read_request-IsLocal ping_bytes ping [] (1 ∷ 2 ∷ []) ping_read

read_request_truncated_example : (e : Error) × ((read_request (2 ∷ 255 ∷ [])).0 ≡ err e)
unfolding to_be
read_request_truncated_example =
    read_request_truncated ping (2 ∷ 255 ∷ []) 255
      (255 ∷ 255 ∷ 255 ∷ 255 ∷ 255 ∷ 255 ∷ 0 ∷ 2 ∷ 0 ∷ 1 ∷ b'a' ∷ 0 ∷ 2 ∷ b'b' ∷ b'c' ∷ 0 ∷ 0 ∷ 0
        ∷ 0 ∷ [])
      ping-CanSend (omega arith) refl
