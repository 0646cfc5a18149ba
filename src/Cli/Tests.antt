-- ===== src/Cli/Tests.antt =====
-- Command lines of `push`, `pop` and `serve`, and runs of `pop` at a daemon with one message.
use atomic_queue.Prelude.{
  ℕ, zero, suc, ◌*◌, ◌^◌, ◌≡◌, ◌≤◌, ◌<◌, ◌+◌, refl, inr, true, false, Option, none, some, List, [],
  ◌∷◌, bytes_eq, arith,
}
use atomic_queue.Prelude.Int.{ℤ, pos}
use atomic_queue.Limits.{default_max_bytes, exit_ok, exit_timeout, exit_usage}
use atomic_queue.Fault.{Bytes, Result, ok, err, timed_out}
use atomic_queue.Fault.Text.{Format, codes, error_text}
use atomic_queue.Channel.{validate_channel}
use atomic_queue.Broker.Queues.{Delivery, message}
use atomic_queue.Broker.Ops.{new_broker, check_pop}
use atomic_queue.Broker.Valid.{IsValid}
use atomic_queue.Protocol.Wire.{CanSend}
use atomic_queue.Server.{Calls, deadline_of}
use atomic_queue.Server.Rpc.{Peer, daemon}
use atomic_queue.Cli.Number.{accept, cut_prefix, trim_option}
use atomic_queue.Cli.Push.{
  PushItem, socket_item, stdin_item, plain, push_words, parse_push_args, parse_push_args-words,
}
use atomic_queue.Cli.Pop.{PopArgs, parse_pop_args}
use atomic_queue.Cli.Pop.Words.{
  PopItem, timeout_item, channel_item, pop_words, parse_pop_args-words,
}
use atomic_queue.Cli.Serve.{
  parse_serve_args, parse_serve_args-IsValid, serve_limit, serve_limit_wraps, env_gbytes,
  serve_args,
}
use atomic_queue.Cli.Connect.{
  Dial, connected, absent, refusing, Host, new_rpc_client, new_rpc_client-started,
  should_start_daemon, is_connected, client, no_client, no_connection,
}
use atomic_queue.Cli.Run.{
  Streams, exits, pop_request, pop_timeout_ms, run_pop, deadline_of-pop_timeout_ms,
}
use atomic_queue.Cli.Run.Codes.{run_pop-delivered, run_pop-timed_out}
use atomic_queue.Cli.Main.{World, run, run_command, command_of, run_serve}
use atomic_queue.Stress.Report.{StressResult, Scene}
use atomic_queue.Cli.Paths.{Place}
use atomic_queue.Daemon.Serve.{Answers, listener_closed, serve, after_start, accept_loop}
use atomic_queue.Daemon.{
  nothing, start_up, remove_stale_socket, dial_or_stop, after_stat, listen_or_stop, after_listen,
}

abbrev jobs : Bytes
jobs = codes "jobs"

abbrev here : Bytes
here = codes "/tmp/q"

abbrev push_line : List PushItem
push_line = plain jobs ∷ socket_item here ∷ stdin_item ∷ []

push_line_read :
    parse_push_args [] (push_words push_line)
    ≡ accept (record { socket = here; positionals = jobs ∷ []; read_stdin = true })
unfolding bytes_eq trim_option cut_prefix
push_line_read = parse_push_args-words [] push_line ((refl, refl, refl), (tt, (tt, tt)))

-- Two texts, for no time and for five seconds.
abbrev durations : Bytes → Option ℤ
durations [] = some (pos 0)
durations text = some (pos 5_000_000_000)

abbrev pop_line : List PopItem
pop_line = timeout_item (codes "5s") (pos 5_000_000_000) ∷ channel_item jobs ∷ []

abbrev pop_args : PopArgs
pop_args = record { socket = here; positionals = jobs ∷ []; timeout = pos 5_000_000_000 }

parse_pop_args-words_example : parse_pop_args durations here (pop_words pop_line) ≡ accept pop_args
unfolding bytes_eq trim_option cut_prefix
parse_pop_args-words_example =
    parse_pop_args-words durations here pop_line 5_000_000_000
      (((refl, refl), refl), (((refl, refl), (refl, refl)), tt)) refl

two_gbytes_read :
    (default_max_bytes ≤ 2 * 2 ^ 30) × IsValid (new_broker default_max_bytes (2 * 2 ^ 30))
unfolding parse_serve_args bytes_eq trim_option cut_prefix
two_gbytes_read =
    parse_serve_args-IsValid here [] (codes "--max-queued-gbytes=2" ∷ []) here (2 * 2 ^ 30) refl

serve_limit_wraps_example :
    (serve_limit here 1 ≡ accept (here, 1 * 2 ^ 30))
    × (serve_limit here (1 + 2 ^ 34) ≡ accept (here, 1 * 2 ^ 30))
serve_limit_wraps_example = serve_limit_wraps here 1 (omega arith) (omega arith)

deadline_of-pop_timeout_ms_example : deadline_of (pop_timeout_ms (pos 500_000)) ≡ none
deadline_of-pop_timeout_ms_example = deadline_of-pop_timeout_ms 500_000 (omega arith)

abbrev plain_text : Format
plain_text = record { quote = λ s. s; decimal = λ n. []; system = λ e. []; allocates = λ n. true }

abbrev one : Delivery
one = message jobs (1 ∷ 2 ∷ [])

-- The state is the number of messages left.
abbrev pop_one : ℕ → Option ℕ → List Bytes → Result Delivery × ℕ
pop_one zero deadline channels = (err timed_out, zero)
pop_one (suc n) deadline channels = (ok one, n)

abbrev counter : Calls ℕ
counter = record { push_owned = λ n channel payload. (none, suc n); pop = pop_one }

abbrev serving : ℕ → Peer
serving n = daemon plain_text counter n

-- A daemon that is started answers from the third dial on.
abbrev late : ℕ → Dial
late zero = absent
late (suc zero) = refusing
late (suc (suc k)) = connected (serving 1)

abbrev late_host : Host
late_host = record {
  dial = λ k. absent;
  dial_started = late;
  has_executable = true;
  can_start = true;
  probes = 9;
}

late-fails : (j : ℕ) → j < 1 → is_connected (late (1 + j)) ≡ false
late-fails zero h = refl
late-fails (suc j) h = absurd (omega arith)

late-answers : (j : ℕ) → 1 ≤ j → late (1 + j) ≡ connected (serving 1)
late-answers zero h = absurd (omega arith)
late-answers (suc j) h = let same : 1 + suc j ≡ suc (suc j) = omega arith in rw same refl

new_rpc_client-started_example :
    (new_rpc_client late_host true ≡ client (serving 1))
    × (new_rpc_client late_host false ≡ no_client no_connection)
unfolding should_start_daemon
new_rpc_client-started_example =
    new_rpc_client-started late_host 1 (serving 1) (λ j. refl) refl refl (omega arith) late-fails
      late-answers

abbrev running : ℕ → Bytes → Host
running n socket = record {
  dial = λ k. connected (serving n);
  dial_started = λ k. connected (serving n);
  has_executable = true;
  can_start = true;
  probes = 9;
}

abbrev terminal : Streams
terminal = record { stdin = none; stdout_open = true }

pop_args-CanSend : CanSend (pop_request (jobs ∷ []) (pop_timeout_ms (pos 5_000_000_000)))
pop_args-CanSend = record {
  known = inr refl;
  few = omega arith;
  short = (omega arith, tt);
  small = omega arith;
}

jobs-checked : check_pop (jobs ∷ []) ≡ none
unfolding check_pop validate_channel
jobs-checked = refl

run_pop-delivered_example :
    run_pop (running 1) terminal durations here (pop_words pop_line)
    ≡ record { code = exit_ok; output = 1 ∷ 2 ∷ [] }
unfolding pop_timeout_ms
run_pop-delivered_example =
    run_pop-delivered (running 1) terminal plain_text counter 1 0 durations here
      (pop_words pop_line) pop_args parse_pop_args-words_example jobs-checked pop_args-CanSend
      (omega arith) refl one
      (record { short = omega arith; small = omega arith; brief = omega arith }) refl refl

run_pop-timed_out_example :
    run_pop (running 0) terminal durations here (pop_words pop_line) ≡ exits exit_timeout
unfolding pop_timeout_ms error_text
run_pop-timed_out_example =
    run_pop-timed_out (running 0) terminal plain_text counter 0 0 durations here
      (pop_words pop_line) pop_args parse_pop_args-words_example jobs-checked pop_args-CanSend
      (omega arith) refl (record { short = omega arith; small = omega arith; brief = omega arith })
      refl

-- A world in which `serve` ends well, for the subcommands that need no daemon.
module _ (host : Bytes → Host) (streams : Streams) (fmt : Format)
    (json : StressResult → Option Bytes) (scene : Scene) where
  abbrev no_variables : Place
  no_variables = record { getenv = λ name. []; uid = 1000; join = λ names. here }

  abbrev until_signal : Answers ℕ
  until_signal = record {
    makes_dir = true;
    changes_mode = true;
    makes_epoll = true;
    connections = 0 ∷ 1 ∷ [];
    last = listener_closed;
  }

  abbrev world : World
  world = record {
    place = no_variables;
    host = host;
    streams = streams;
    process = 7;
    entry = λ path. nothing;
    answers = λ path. until_signal;
    format = fmt;
    json = json;
    scene = scene;
  }

  help_shown : (run durations (λ text. text) world (codes "--help" ∷ [])).code ≡ exit_ok
  unfolding run run_command command_of bytes_eq
  help_shown = refl

  serve_done : run durations (λ text. text) world (codes "serve" ∷ []) ≡ exits exit_ok
  unfolding run run_command command_of run_serve parse_serve_args env_gbytes serve_args serve_limit
      bytes_eq serve start_up remove_stale_socket dial_or_stop after_stat listen_or_stop
      after_listen after_start accept_loop
  serve_done = refl

  subcommand_unknown : run durations (λ text. text) world (codes "pull" ∷ []) ≡ exits exit_usage
  unfolding run run_command command_of bytes_eq
  subcommand_unknown = refl
