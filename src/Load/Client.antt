-- ===== src/Load/Client.antt =====
-- examples/go/stress/main.go: its client, whose functions are those of the standalone example, word
-- for word but for the constants that are written out, with its paths.
use atomic_queue.Prelude.{ℕ, List, [], ◌∷◌, Option, none, some}
use atomic_queue.Prelude.Int.{ℤ}
use atomic_queue.Fault.{Bytes}
use atomic_queue.Fault.Text.{Format, codes}
use atomic_queue.Protocol.Stream.{M, Writer}
use atomic_queue.Protocol.Response.{Response}
use atomic_queue.Server.Rpc.{Peer}
use atomic_queue.Cli.Connect.{Host, Started, Client, client, no_client}
use atomic_queue.Standalone.{
  write_request as standalone_write_request, read_response as standalone_read_response,
  read_string16 as standalone_read_string16, read_string32 as standalone_read_string32,
  read_bytes32 as standalone_read_bytes32,
}
use atomic_queue.Cli.Paths.{Place, or_else, default_socket_path as program_socket_path}
use atomic_queue.Standalone.Paths.{Program}
use atomic_queue.Standalone.Dial.{start_daemon, dial_client}

abbrev pub write_request : ℕ → List Bytes → Bytes → ℤ → M Writer (Unit {0})
write_request = standalone_write_request

abbrev pub read_string16 : M Bytes Bytes
read_string16 = standalone_read_string16

abbrev pub read_bytes32 : M Bytes Bytes
read_bytes32 = standalone_read_bytes32

abbrev pub read_string32 : M Bytes Bytes
read_string32 = standalone_read_string32

abbrev pub read_response : M Bytes Response
read_response = standalone_read_response

abbrev pub ensure_daemon : Host → Started
ensure_daemon = start_daemon

abbrev peer_of : Client → Option Peer
peer_of (client peer) = some peer
peer_of (no_client e) = none

-- `Dial`, without its error.
unfoldable pub dial : Host → Option Peer
unfolding dial_client
dial host = peer_of (dial_client host)

abbrev pub default_socket_path : Format → Place → Bytes
default_socket_path = program_socket_path

unfoldable pub binary_path : Place → Program → Bytes
binary_path place program = or_else (place.getenv "ATOMIC_QUEUE_BIN") (
    program.clean (
      place.join (
        program.dir program.name
        ∷ codes ".."
        ∷ codes ".."
        ∷ codes ".."
        ∷ codes ".."
        ∷ codes "atomic-queue"
        ∷ [])))
