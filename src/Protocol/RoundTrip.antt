-- ===== src/Protocol/RoundTrip.antt =====
-- What one side of the connection writes, the other side reads back.
use atomic_queue.Prelude.{
  ◌≡◌, refl, ◌∙◌, Bool, true, false, List, [], ◌∷◌, ◌++◌, length, All, le→leb, append_assoc,
  append-nil, arith, if◌then◌else◌,
}
use atomic_queue.Prelude.Int.{IsInt64, to_word, to_word-lt, signed-to_word}
use atomic_queue.Limits.{
  default_max_bytes, protocol_max_channels, protocol_max_error_size, status_ok, status_error,
}
use atomic_queue.Fault.{Bytes, ok}
use atomic_queue.Protocol.Stream.{Writer, read_byte}
use atomic_queue.Protocol.Fields.{
  read_uint-to_be, read_string16-field16, read_bytes32-field32, read_string32-field32,
}
use atomic_queue.Protocol.Request.{Request, write_request, read_channels, read_request}
use atomic_queue.Protocol.Response.{Response, write_response, status_flag, read_response}
use atomic_queue.Protocol.Wire.{
  CanSend, CanReply, Fits16, wire_channels, wire_request, wire_response, write_request-wire,
  write_response-wire, op_name-code_of,
}

read_channels-wire :
    (cs done : List Bytes) (rest : Bytes)
    → All Fits16 cs
    → read_channels (length cs) done (wire_channels cs ++ rest) ≡ (ok (done ++ cs), rest)
unfolding read_channels
read_channels-wire [] done rest h = rw append-nil
read_channels-wire (c ∷ cs) done rest h = simp append_assoc (
    rw (read_string16-field16 c (wire_channels cs ++ rest) h.0)
      (read_channels-wire cs (done ++ c ∷ []) rest h.1 ∙ rw (append_assoc done (c ∷ []) cs)))

-- An acceptable request is read back from its layout, and what follows it is left.
pub read_request-wire :
    (req : Request) (rest : Bytes)
    → CanSend req
    → IsInt64 req.timeout_ms
    → read_request (wire_request req ++ rest) ≡ (ok req, rest)
unfolding read_request read_byte
read_request-wire req rest can fits = simp append_assoc (
    rw
      (
        read_uint-to_be 8 (to_word req.timeout_ms) _ (to_word-lt req.timeout_ms),
        read_uint-to_be 2 (length req.channels) _ (omega (arith, can.few)),
        le→leb (length req.channels) protocol_max_channels can.few,
      )
      (rw (read_channels-wire req.channels [] _ can.short) (
        rw (
          read_bytes32-field32 default_max_bytes req.payload rest can.small (omega arith),
          op_name-code_of req.op can.known,
          signed-to_word req.timeout_ms fits,
        ))))

pub read_response-wire :
    (resp : Response) (rest : Bytes)
    → CanReply resp
    → read_response (wire_response resp ++ rest) ≡ (ok resp, rest)
unfolding read_response read_byte status_flag
read_response-wire resp rest can = simp append_assoc (
    rw (
      read_string16-field16 resp.channel _ can.short,
      read_bytes32-field32 default_max_bytes resp.payload _ can.small (omega arith),
      read_string32-field32 protocol_max_error_size resp.error rest can.brief (omega arith),
      flag resp.is_ok,
    ))
  where
    flag : (b : Bool) → status_flag (if b then status_ok else status_error) rest ≡ (ok b, rest)
    flag true = refl
    flag false = refl

abbrev pub fresh : Writer
fresh = record { sent = []; buffered = []; gone = false }

-- For a request with the operation "push" or "pop", at most 1024 channels of at most 65535 bytes
-- each, at most `default_max_bytes` of payload and a timeout of 64 bits: reading what
-- `write_request` has sent on a fresh connection gives that request back, and leaves all that
-- follows it on the stream.
pub read_request-write_request :
    (req : Request) (rest : Bytes)
    → CanSend req
    → IsInt64 req.timeout_ms
    → read_request ((write_request req fresh).1.sent ++ rest) ≡ (ok req, rest)
read_request-write_request req rest can fits =
    rw (write_request-wire req fresh can refl) (read_request-wire req rest can fits)

-- For a response with a payload, a channel and an error text within the limits of the protocol:
-- reading what `write_response` has sent on a fresh connection gives that response back, and
-- leaves all that follows it on the stream.
pub read_response-write_response :
    (resp : Response) (rest : Bytes)
    → CanReply resp
    → read_response ((write_response resp fresh).1.sent ++ rest) ≡ (ok resp, rest)
read_response-write_response resp rest can =
    rw (write_response-wire resp fresh can refl) (read_response-wire resp rest can)
