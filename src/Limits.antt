-- ===== src/Limits.antt =====
-- The constants of main.go and protocol.go.
use atomic_queue.Prelude.{ℕ, ◌*◌, ◌^◌}

-- `256 << 20`
abbrev pub default_max_bytes : ℕ
default_max_bytes = 256 * 2 ^ 20

abbrev pub default_max_queued_gbytes : ℕ
default_max_queued_gbytes = 4

abbrev pub protocol_max_channels : ℕ
protocol_max_channels = 1024

-- `64 << 10`
abbrev pub protocol_max_error_size : ℕ
protocol_max_error_size = 64 * 2 ^ 10

abbrev pub op_push : ℕ
op_push = 1

abbrev pub op_pop : ℕ
op_pop = 2

abbrev pub status_ok : ℕ
status_ok = 1

abbrev pub status_error : ℕ
status_error = 2

abbrev pub exit_ok : ℕ
exit_ok = 0

abbrev pub exit_runtime : ℕ
exit_runtime = 1

abbrev pub exit_timeout : ℕ
exit_timeout = 2

abbrev pub exit_usage : ℕ
exit_usage = 64
