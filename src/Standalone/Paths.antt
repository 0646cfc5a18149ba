-- ===== src/Standalone/Paths.antt =====
-- examples/go/standalone-client/main.go: defaultSocketPath and binaryPath.
use atomic_queue.Prelude.{[], ◌∷◌}
use atomic_queue.Fault.{Bytes}
use atomic_queue.Fault.Text.{Format, codes}
use atomic_queue.Cli.Paths.{Place, or_else}

-- `filepath.Dir`, `filepath.Clean` and `os.Args[0]`.
pub record Program : Type 0 where
  pub dir : Bytes → Bytes
  pub clean : Bytes → Bytes
  pub name : Bytes

module _ (fmt : Format) (place : Place) (program : Program) where
  unfoldable pub client_socket_path : Bytes
  client_socket_path = or_else (place.getenv "ATOMIC_QUEUE_SOCKET") (
      place.join
        (codes "/run/user" ∷ fmt.decimal place.uid ∷ codes "atomic-queue/atomic-queue.sock" ∷ []))

  unfoldable pub binary_path : Bytes
  binary_path = or_else (place.getenv "ATOMIC_QUEUE_BIN") (
      program.clean (
        place.join (
          program.dir program.name
          ∷ codes ".."
          ∷ codes ".."
          ∷ codes ".."
          ∷ codes "atomic-queue"
          ∷ [])))
