-- ===== src/Protocol/Frames.antt =====
-- protocol.go: the fields with a length in front.
use atomic_queue.Prelude.{ℕ, ◌%◌, ◌^◌, [], length, leb, ◌==◌, if◌then◌else◌}
use atomic_queue.Fault.{Bytes, eof, unexpected_eof, Result, err, string_too_long, frame_too_large}
use atomic_queue.Protocol.Stream.{
  M, ◌>>=◌, ◌>>◌, pure, guard, read_full, read_uint, Writer, write, write_uint,
}

unfoldable pub write_string16 : Bytes → M Writer (Unit {0})
write_string16 value = do
  guard (leb (length value) 0xffff) (string_too_long (length value))
  write_uint 2 (length value % 2 ^ 16)
  write value

unfoldable pub write_string32 : Bytes → M Writer (Unit {0})
write_string32 value = do write_uint 4 (length value % 2 ^ 32); write value

unfoldable pub write_bytes32 : Bytes → M Writer (Unit {0})
write_bytes32 value = do write_uint 4 (length value % 2 ^ 32); write value

unfoldable pub read_string16 : M Bytes Bytes
read_string16 = do n ← read_uint 2; read_full n

-- `if errors.Is(err, io.EOF) { return nil, io.ErrUnexpectedEOF }`
abbrev pub whole_frame : Result Bytes × Bytes → Result Bytes × Bytes
whole_frame (err eof, s) = (err unexpected_eof, s)
whole_frame r = r

unfoldable pub read_bytes32 : ℕ → M Bytes Bytes
read_bytes32 max = do
  n ← read_uint 4
  guard (leb n max) (frame_too_large n max)
  if n == 0 then pure [] else (λ s. whole_frame (read_full n s))

unfoldable pub read_string32 : ℕ → M Bytes Bytes
read_string32 max = do buf ← read_bytes32 max; pure buf
