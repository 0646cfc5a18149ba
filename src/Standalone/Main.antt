-- ===== src/Standalone/Main.antt =====
-- examples/go/standalone-client/main.go: `main`, one push and one pop on the same connection. Its
-- Push and Pop are those of the load generator, word for word, and so are their definitions in
-- Load.Workers, for a connection that lasts.
use atomic_queue.Prelude.{[], ◌∷◌, ◌++◌}
use atomic_queue.Prelude.Int.{pos}
use atomic_queue.Fault.{Bytes}
use atomic_queue.Fault.Text.{codes}
use atomic_queue.Server.Rpc.{Reply, got, failed}
use atomic_queue.Stress.Workers.{Conn, dialled}
use atomic_queue.Load.Workers.{send_and_read, pushed_on, popped_on}
use atomic_queue.Cli.Connect.{Host, Client, client, no_client}
use atomic_queue.Cli.Run.{Outcome, exits}
use atomic_queue.Standalone.{milliseconds}
use atomic_queue.Standalone.Dial.{dial_client}

abbrev pub jobs : Bytes
jobs = codes "jobs"

abbrev pub job : Bytes
job = codes "{\"job\":\"reindex\",\"id\":123}"

-- `os.Exit(1)` after an error, and `fmt.Printf("received: %s\n", message)`.
abbrev pub after_message : Reply Bytes → Outcome
after_message (failed e) = exits 1
after_message (got message) = record {
  code = 0;
  output = codes "received: " ++ (message ++ b'\n' ∷ []);
}

abbrev pop_job : Conn → Outcome
pop_job conn = after_message (popped_on conn (jobs ∷ []) (pos 5_000_000_000)).0

abbrev pub after_job : Reply (Unit {0}) → Conn → Outcome
after_job (failed e) conn = exits 1
after_job (got u) conn = pop_job conn

abbrev push_job : Conn → Outcome
push_job conn = let r = pushed_on conn jobs job in after_job r.0 r.1

abbrev pub on_dialled : Client → Outcome
on_dialled (no_client e) = exits 1
on_dialled (client peer) = push_job (dialled peer)

unfoldable pub push_and_pop : Host → Outcome
unfolding dial_client send_and_read milliseconds
push_and_pop host = on_dialled (dial_client host)
