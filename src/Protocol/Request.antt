-- ===== src/Protocol/Request.antt =====
-- protocol.go: writeRequest and readRequest, and `request` of main.go.
use Prim.Native.String.{String}
use text.Mathlib.Text.{◌==◌ as str_eq}
use atomic_queue.Prelude.{
  ℕ, zero, suc, ◌%◌, ◌^◌, List, [], ◌∷◌, ◌++◌, length, leb, ◌==◌, if◌then◌else◌,
}
use atomic_queue.Prelude.Int.{ℤ, to_word, signed}
use atomic_queue.Limits.{default_max_bytes, protocol_max_channels, op_push, op_pop}
use atomic_queue.Fault.{
  Bytes, unknown_request_op, unknown_op_byte, too_many_channels, channel_too_long,
  payload_too_large,
}
use atomic_queue.Protocol.Stream.{
  M, ◌>>=◌, ◌>>◌, pure, throw, guard, read_byte, read_uint, Writer, write, write_uint, flush,
}
use atomic_queue.Protocol.Frames.{read_string16, read_bytes32}

pub record Request : Type 0 where
  pub op : String
  pub channels : List Bytes
  pub payload : Bytes
  pub timeout_ms : ℤ

-- The two `switch` statements on the operation.
unfoldable pub op_byte : {S : Type 0} → String → M S ℕ
op_byte op =
    if str_eq op "push"
    then pure op_push
    else if str_eq op "pop"
    then pure op_pop
    else throw (unknown_request_op op)

unfoldable pub op_name : {S : Type 0} → ℕ → M S String
op_name op =
    if op == op_push
    then pure "push"
    else if op == op_pop
    then pure "pop"
    else throw (unknown_op_byte op)

unfoldable pub write_channels : List Bytes → M Writer (Unit {0})
write_channels [] = pure tt
write_channels (channel ∷ rest) = do
  guard (leb (length channel) 0xffff) (channel_too_long (length channel))
  write_uint 2 (length channel % 2 ^ 16)
  write channel
  write_channels rest

unfoldable pub write_request : Request → M Writer (Unit {0})
write_request req = do
  op ← op_byte req.op
  guard (leb (length req.channels) protocol_max_channels) (too_many_channels (length req.channels))
  guard (leb (length req.payload) default_max_bytes) (payload_too_large default_max_bytes)
  write (op ∷ [])
  write_uint 8 (to_word req.timeout_ms)
  write_uint 2 (length req.channels % 2 ^ 16)
  write_channels req.channels
  write_uint 4 (length req.payload % 2 ^ 32)
  write req.payload
  flush

-- The loop `for i := 0; i < int(channelCount); i++`, by the rounds left.
unfoldable pub read_channels : ℕ → List Bytes → M Bytes (List Bytes)
read_channels zero channels = pure channels
read_channels (suc n) channels = do
  channel ← read_string16
  read_channels n (channels ++ channel ∷ [])

unfoldable pub read_request : M Bytes Request
read_request = do
  op ← read_byte
  timeout ← read_uint 8
  count ← read_uint 2
  guard (leb count protocol_max_channels) (too_many_channels count)
  channels ← read_channels count []
  payload ← read_bytes32 default_max_bytes
  name ← op_name op
  pure (record { op = name; channels = channels; payload = payload; timeout_ms = signed timeout })
