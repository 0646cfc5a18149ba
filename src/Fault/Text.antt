-- ===== src/Fault/Text.antt =====
-- What `Error()` gives for the errors of main.go, broker.go and protocol.go. `%q`, `%d`, the
-- texts of the operating system and what `make` can give are parameters.
use Prim.Native.Char.{code}
use Prim.Native.String.{String}
use atomic_queue.Prelude.{ℕ, [], ◌∷◌, ◌++◌, Bool}
use atomic_queue.Fault.{
  Bytes, Error, eof, unexpected_eof, write_failed, timed_out, no_channels, invalid_channel,
  payload_too_large, unknown_request_op, unknown_op_byte, unknown_status, too_many_channels,
  channel_too_long, string_too_long, error_too_long, frame_too_large,
}

-- The bytes of an ASCII text.
abbrev pub codes : String → Bytes
codes String.[] = []
codes (String.◌∷◌ c s) = code c ∷ codes s

-- What Go's runtime and packages give: `%q`, `%d`, the texts of the operating system, and whether
-- `make` gives a slice of so many bytes; else it panics.
pub record Format : Type 0 where
  pub quote : Bytes → Bytes
  pub decimal : ℕ → Bytes
  pub system : Error → Bytes
  pub allocates : ℕ → Bool

module _ (fmt : Format) where
  unfoldable pub error_text : Error → Bytes
  error_text timed_out = codes "timeout"
  error_text no_channels = codes "at least one channel is required"
  error_text (invalid_channel channel) =
      codes "invalid channel "
      ++ (fmt.quote channel ++ codes ": use [A-Za-z0-9._-], max length 128")
  error_text (payload_too_large max) =
      codes "payload exceeds maximum size of " ++ (fmt.decimal max ++ codes " bytes")
  error_text (unknown_request_op op) = codes "unknown request op " ++ fmt.quote (codes op)
  error_text (unknown_op_byte op) = codes "unknown request op " ++ fmt.decimal op
  error_text (unknown_status status) = codes "unknown response status " ++ fmt.decimal status
  error_text (too_many_channels n) = codes "too many channels: " ++ fmt.decimal n
  error_text (channel_too_long n) = codes "channel too long: " ++ fmt.decimal n
  error_text (string_too_long n) = codes "string too long: " ++ fmt.decimal n
  error_text (error_too_long n) = codes "error message too long: " ++ fmt.decimal n
  error_text (frame_too_large n max) =
      codes "frame too large: " ++ (fmt.decimal n ++ (codes " > " ++ fmt.decimal max))
  error_text eof = fmt.system eof
  error_text unexpected_eof = fmt.system unexpected_eof
  error_text write_failed = fmt.system write_failed
