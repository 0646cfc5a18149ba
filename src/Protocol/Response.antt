-- ===== src/Protocol/Response.antt =====
-- protocol.go: writeResponse and readResponse, and `response` of main.go.
use atomic_queue.Prelude.{ℕ, Bool, true, false, [], ◌∷◌, length, leb, ◌==◌, if◌then◌else◌}
use atomic_queue.Limits.{default_max_bytes, protocol_max_error_size, status_ok, status_error}
use atomic_queue.Fault.{Bytes, unknown_status, channel_too_long, payload_too_large, error_too_long}
use atomic_queue.Protocol.Stream.{
  M, ◌>>=◌, ◌>>◌, pure, throw, guard, read_byte, Writer, write, flush,
}
use atomic_queue.Protocol.Frames.{
  write_string16, write_string32, write_bytes32, read_string16, read_bytes32, read_string32,
}

-- The field `OK` is `is_ok`.
pub record Response : Type 0 where
  pub is_ok : Bool
  pub channel : Bytes
  pub payload : Bytes
  pub error : Bytes

unfoldable pub write_response : Response → M Writer (Unit {0})
write_response resp = do
  guard (leb (length resp.payload) default_max_bytes) (payload_too_large default_max_bytes)
  guard (leb (length resp.channel) 0xffff) (channel_too_long (length resp.channel))
  guard (leb (length resp.error) protocol_max_error_size) (error_too_long (length resp.error))
  write ((if resp.is_ok then status_ok else status_error) ∷ [])
  write_string16 resp.channel
  write_bytes32 resp.payload
  write_string32 resp.error
  flush

-- The `switch` on the status.
unfoldable pub status_flag : {S : Type 0} → ℕ → M S Bool
status_flag status =
    if status == status_ok
    then pure true
    else if status == status_error
    then pure false
    else throw (unknown_status status)

unfoldable pub read_response : M Bytes Response
read_response = do
  status ← read_byte
  channel ← read_string16
  payload ← read_bytes32 default_max_bytes
  error_text ← read_string32 protocol_max_error_size
  flag ← status_flag status
  pure (record { is_ok = flag; channel = channel; payload = payload; error = error_text })
