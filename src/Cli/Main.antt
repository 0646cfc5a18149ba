-- ===== src/Cli/Main.antt =====
-- main.go: `run`, the choice of the subcommand, and runServe.
use atomic_queue.Prelude.{ℕ, Option, none, some, List, [], ◌∷◌, bytes_eq, if◌then◌else◌}
use atomic_queue.Prelude.Int.{ℤ}
use atomic_queue.Limits.{exit_ok, exit_runtime, exit_usage}
use atomic_queue.Fault.{Bytes}
use atomic_queue.Fault.Text.{Format, codes}
use atomic_queue.Daemon.{Entry}
use atomic_queue.Daemon.Serve.{Answers, ServeError, serve}
use atomic_queue.Cli.Number.{accept, reject}
use atomic_queue.Cli.Serve.{parse_serve_args}
use atomic_queue.Cli.Connect.{Host}
use atomic_queue.Cli.Run.{Outcome, exits, Streams, run_push, run_pop}
use atomic_queue.Cli.Paths.{Place, default_socket_path}
use atomic_queue.Cli.Usage.{print_usage}
use atomic_queue.Stress.Config.{parse_stress_args}
use atomic_queue.Stress.Report.{StressResult, Scene, run_stress}

-- What a run gets from outside: the environment, what a client and what `serve` find at each path,
-- the streams, and what a stress run finds. A connection to `serve` is its number.
pub record World : Type 0 where
  pub place : Place
  pub host : Bytes → Host
  pub streams : Streams
  pub process : ℕ
  pub entry : Bytes → Entry
  pub answers : Bytes → Answers ℕ
  pub format : Format
  pub json : StressResult → Option Bytes
  pub scene : Scene

abbrev pub default_socket : World → Bytes
default_socket world = default_socket_path world.format world.place

-- `runServe` after `serve`.
abbrev pub serve_code : Option ServeError → ℕ
serve_code none = exit_ok
serve_code (some e) = exit_runtime

-- The limit on what is queued goes to the broker.
unfoldable pub run_serve : World → List Bytes → ℕ
unfolding parse_serve_args default_socket_path serve
run_serve world args =
    elim (parse_serve_args (default_socket world)
      (world.place.getenv "ATOMIC_QUEUE_MAX_QUEUED_GBYTES") args) [
        | reject e ↦ exit_usage
        | accept read ↦
            let served = serve (world.answers read.0) world.process (world.entry read.0) in
            serve_code served.error
      ]

pub data Command : Type 0 where
  push_command pop_command serve_command stress_command help_command unknown_command : Command

-- The `switch`.
unfoldable pub command_of : Bytes → Command
command_of name =
    if bytes_eq name (codes "push")
    then push_command
    else if bytes_eq name (codes "pop")
    then pop_command
    else if bytes_eq name (codes "serve")
    then serve_command
    else if bytes_eq name (codes "stress")
    then stress_command
    else if bytes_eq name (codes "help")
    then help_command
    else if bytes_eq name (codes "-h")
    then help_command
    else if bytes_eq name (codes "--help")
    then help_command
    else unknown_command

module _ (parse_duration : Bytes → Option ℤ) (trim_space : Bytes → Bytes) (world : World) where
  abbrev pub shows_usage : Outcome
  shows_usage = record { code = exit_ok; output = print_usage (default_socket world) }

  unfoldable pub run_command : Command → List Bytes → Outcome
  unfolding default_socket_path print_usage run_push run_pop run_serve run_stress parse_stress_args
  run_command push_command args =
      exits (run_push world.host world.streams (default_socket world) args)
  run_command pop_command args =
      run_pop world.host world.streams parse_duration (default_socket world) args
  run_command serve_command args = exits (run_serve world args)
  run_command stress_command args =
      run_stress world.format world.json world.scene world.host
        (parse_stress_args parse_duration trim_space (default_socket world) args)
  run_command help_command args = shows_usage
  run_command unknown_command args = exits exit_usage

  unfoldable pub run : List Bytes → Outcome
  unfolding run_command command_of
  run [] = shows_usage
  run (name ∷ args) = run_command (command_of name) args
