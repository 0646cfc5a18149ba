-- ===== src/Fault.antt =====
-- The errors that the program's functions return, a constructor for each place that makes one,
-- and the result of a fallible function.
pub mod Text
use Prim.Native.String.{String}
use atomic_queue.Prelude.{ℕ, List}

-- A Go string or byte slice: its bytes.
abbrev pub Bytes : Type 0
Bytes = List ℕ

pub data Error : Type 0 where
  -- of the streams: io.EOF, io.ErrUnexpectedEOF, and a write to a connection that is gone
  eof unexpected_eof write_failed : Error
  -- broker.go: ErrTimeout, and `Pop` of no channel
  timed_out no_channels : Error
  -- validateChannel and validatePayload; writeRequest and writeResponse give the second one too
  invalid_channel : Bytes → Error
  payload_too_large : ℕ → Error
  -- protocol.go
  unknown_request_op : String → Error
  unknown_op_byte : ℕ → Error
  unknown_status : ℕ → Error
  too_many_channels : ℕ → Error
  channel_too_long : ℕ → Error
  string_too_long : ℕ → Error
  error_too_long : ℕ → Error
  frame_too_large : ℕ → ℕ → Error

pub data Result {ℓ} (A : Type ℓ) : Type ℓ where
  ok : A → Result A
  err : Error → Result A
