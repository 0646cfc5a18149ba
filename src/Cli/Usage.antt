-- ===== src/Cli/Usage.antt =====
-- main.go: printUsage.
use Prim.Native.String.{String}
use atomic_queue.Prelude.{List, [], ◌∷◌, ◌++◌}
use atomic_queue.Fault.{Bytes}
use atomic_queue.Fault.Text.{codes}

-- `fmt.Fprintln` of one text after the other.
abbrev lines : List String → Bytes
lines [] = []
lines (text ∷ texts) = codes text ++ b'\n' ∷ lines texts

unfoldable pub print_usage : (default_socket : Bytes) → Bytes
print_usage default_socket =
    lines (
      "atomic-queue: small local message queue" ∷ "" ∷ "Usage:" ∷ "  atomic-queue"
      ∷ "  atomic-queue help" ∷ "  atomic-queue push channel '{\"foo\":123}'"
      ∷ "  cat file.msgpack | atomic-queue push --stdin channel" ∷ "  atomic-queue pop channel"
      ∷ "  atomic-queue pop channel1 channel2 --timeout 1500ms" ∷ "  atomic-queue serve"
      ∷ "  atomic-queue stress --duration 10s --threads 1000"
      ∷ "  atomic-queue stress --duration 10s --publishers 500 --consumers 500 --format json" ∷ ""
      ∷ [])
    ++ (codes "Default socket: "
        ++ (default_socket
            ++ b'\n'
              ∷ lines (
                  "Override socket: ATOMIC_QUEUE_SOCKET=/path/to.sock or --socket /path/to.sock"
                  ∷ "Override queue cap: ATOMIC_QUEUE_MAX_QUEUED_GBYTES=<GiB> or --max-queued-gbytes <GiB>"
                  ∷ "GitHub: https://github.com/parf/atomic-queue" ∷ [])))
