-- ===== src/Stress/Tests.antt =====
-- Command lines of `stress`, and a consumer at an empty broker.
use atomic_queue.Prelude.{ℕ, ◌≡◌, refl, inr, true, Option, none, some, [], ◌∷◌, bytes_eq, arith}
use atomic_queue.Prelude.Int.{ℤ, pos}
use atomic_queue.Fault.{Bytes, timed_out, err}
use atomic_queue.Fault.Text.{Format, codes}
use atomic_queue.Protocol.Wire.{CanSend}
use atomic_queue.Server.{Calls}
use atomic_queue.Server.Rpc.{daemon}
use atomic_queue.Cli.Number.{accept, trim_option, cut_prefix, parse_positive}
use atomic_queue.Cli.Connect.{Host, connected}
use atomic_queue.Cli.Run.{pop_timeout_ms}
use atomic_queue.Stress.Config.{StressConfig, parse_stress_args}
use atomic_queue.Stress.Counts.{IsSound, parse_stress_args-IsSound}
use atomic_queue.Stress.Workers.{pop_of, consumer}
use atomic_queue.Stress.Workers.Stops.{consumer_stops}
use atomic_queue.Stress.Report.{Scene}

abbrev digit_text : Format
digit_text = record {
  quote = λ s. s;
  decimal = λ n. b'7' ∷ [];
  system = λ e. [];
  allocates = λ n. true;
}

abbrev untrimmed : Bytes → Bytes
untrimmed text = text

abbrev some_seconds : Bytes → Option ℤ
some_seconds text = some (pos 5_000_000_000)

abbrev pairs_config : StressConfig
pairs_config = record {
  socket = [];
  duration = pos 10_000_000_000;
  threads = 5;
  publishers = 2;
  consumers = 3;
  channels = codes "stress-a" ∷ codes "stress-b" ∷ codes "stress-c" ∷ codes "stress-d" ∷ [];
  pop_timeout = pos 200_000_000;
  payload_len = 128;
  format = codes "text";
}

pairs_parsed :
    parse_stress_args some_seconds untrimmed []
      (codes "--publishers" ∷ codes "2" ∷ codes "--consumers=3" ∷ [])
    ≡ accept pairs_config
unfolding parse_stress_args bytes_eq trim_option cut_prefix parse_positive
pairs_parsed = refl

pairs_config-IsSound : IsSound pairs_config
pairs_config-IsSound =
    parse_stress_args-IsSound some_seconds untrimmed []
      (codes "--publishers" ∷ codes "2" ∷ codes "--consumers=3" ∷ []) pairs_config pairs_parsed

abbrev empty : Calls ℕ
empty = record {
  push_owned = λ n channel payload. (none, n);
  pop = λ n deadline channels. (err timed_out, n);
}

abbrev one_channel : StressConfig
one_channel = record pairs_config { channels = codes "stress-a" ∷ [] }

one_channel-CanSend : CanSend (pop_of one_channel)
one_channel-CanSend = record {
  known = inr refl;
  few = omega arith;
  short = (omega arith, tt);
  small = omega arith;
}

abbrev at_empty : Host
at_empty = record {
  dial = λ k. connected (daemon digit_text empty 0);
  dial_started = λ k. connected (daemon digit_text empty 0);
  has_executable = true;
  can_start = true;
  probes = 9;
}

consumer_stops_example :
    consumer at_empty one_channel 9
    ≡ record { pushed = 0; served = 0; pop_timeouts = 1; failures = 1 }
unfolding pop_timeout_ms
consumer_stops_example =
    consumer_stops digit_text empty 0 0 one_channel one_channel-CanSend (omega arith) refl at_empty
      7 refl

-- A daemon that accepts whatever it is sent, and what the workers find there.
abbrev always_fine : Host
always_fine = record {
  dial = λ k. connected (λ sent. 1 ∷ 0 ∷ 0 ∷ 0 ∷ 0 ∷ 0 ∷ 0 ∷ 0 ∷ 0 ∷ 0 ∷ 0 ∷ []);
  dial_started = λ k. connected (λ sent. 1 ∷ 0 ∷ 0 ∷ 0 ∷ 0 ∷ 0 ∷ 0 ∷ 0 ∷ 0 ∷ 0 ∷ 0 ∷ []);
  has_executable = true;
  can_start = true;
  probes = 9;
}

abbrev short_run : Scene
short_run = record {
  at_producer = λ i. always_fine;
  at_consumer = λ i. always_fine;
  picks = λ i k. codes "stress-a";
  uint64 = λ i k n. 5;
  producer_rounds = λ i. 2;
  consumer_rounds = λ i. 1;
  elapsed = codes "10s";
  rate = λ n. codes "1.00";
}
