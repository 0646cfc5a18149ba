-- ===== src/Cli/Run/Tests.antt =====
-- A run of `push` at a daemon that accepts every push.
use atomic_queue.Prelude.{ℕ, suc, ◌≡◌, refl, true, false, none, List, [], ◌∷◌, bytes_eq, arith}
use atomic_queue.Limits.{exit_ok}
use atomic_queue.Fault.{Bytes, timed_out, err}
use atomic_queue.Fault.Text.{Format, codes}
use atomic_queue.Channel.{validate_channel}
use atomic_queue.Server.{Calls}
use atomic_queue.Server.Rpc.{daemon}
use atomic_queue.Cli.Number.{accept, trim_option, cut_prefix}
use atomic_queue.Cli.Push.{PushArgs, push_arg, push_args, parse_push_args}
use atomic_queue.Cli.Connect.{Host, connected}
use atomic_queue.Cli.Run.{Streams, run_push}
use atomic_queue.Cli.Run.Pushed.{from_arguments, run_push_codes}

abbrev letters : Format
letters = record { quote = λ s. s; decimal = λ n. []; system = λ e. []; allocates = λ n. true }

abbrev accepting_all : Calls ℕ
accepting_all = record {
  push_owned = λ n channel payload. (none, suc n);
  pop = λ n deadline channels. (err timed_out, n);
}

abbrev up : Bytes → Host
up socket = record {
  dial = λ k. connected (daemon letters accepting_all 0);
  dial_started = λ k. connected (daemon letters accepting_all 0);
  has_executable = true;
  can_start = true;
  probes = 1;
}

abbrev no_stdin : Streams
no_stdin = record { stdin = none; stdout_open = true }

abbrev words : List Bytes
words = codes "jobs" ∷ codes "hi" ∷ []

abbrev words_read : PushArgs
words_read = record { socket = codes "s"; positionals = words; read_stdin = false }

words_parsed : parse_push_args (codes "s") words ≡ accept words_read
unfolding parse_push_args push_args push_arg bytes_eq trim_option cut_prefix
words_parsed = refl

run_push_codes_example : run_push up no_stdin (codes "s") words ≡ exit_ok
unfolding validate_channel
run_push_codes_example =
    run_push_codes letters accepting_all 0 1 (codes "jobs") (codes "hi") none refl
      (record { small = omega arith; short = omega arith; brief = omega arith }) refl (omega arith)
      up no_stdin (codes "s") words words_read words_parsed (from_arguments refl refl) refl
