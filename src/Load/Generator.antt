-- ===== src/Load/Generator.antt =====
-- examples/go/stress/main.go: `main`, from its flags to the numbers that it reports.
use atomic_queue.Prelude.{ℕ, ◌+◌, Option, none, some, List}
use atomic_queue.Prelude.Int.{ℤ}
use atomic_queue.Fault.{Bytes}
use atomic_queue.Fault.Text.{Format}
use atomic_queue.Cli.Connect.{Host}
use atomic_queue.Stress.Workers.{Counters, both}
use atomic_queue.Stress.Report.{sum_counts}
use atomic_queue.Load.{split_csv, stress_counts}
use atomic_queue.Load.Client.{dial}
use atomic_queue.Load.Workers.{publisher, receiver}

-- The flags that `main` uses to the end; the package `flag` reads them. The socket and the duration
-- are in what the connections and the clock come to.
pub record Flags : Type 0 where
  pub threads : ℤ
  pub publishers : ℤ
  pub consumers : ℤ
  pub channels_csv : Bytes
  pub timeout : ℤ
  pub payload_size : ℤ

-- What the warm-up and each worker find at the socket, and how many rounds the clock leaves it.
pub record Scene : Type 0 where
  pub warm : Host
  pub at_publisher : ℕ → Host
  pub at_consumer : ℕ → Host
  pub publisher_rounds : ℕ → ℕ
  pub consumer_rounds : ℕ → ℕ

pub record Report : Type 0 where
  pub threads : ℕ
  pub publishers : ℕ
  pub consumers : ℕ
  pub channels : List Bytes
  pub counts : Counters

pub data LoadEnd : Type 0 where
  no_daemon panicked : LoadEnd
  reported : Report → LoadEnd

abbrev ended : (Counters → Report) → Option Counters → LoadEnd
ended report none = panicked
ended report (some m) = reported (report m)

module _ (fmt : Format) (flags : Flags) (scene : Scene) where
  abbrev pub counts_of : ℕ × ℕ
  counts_of = stress_counts flags.threads flags.publishers flags.consumers

  abbrev pub published : ℕ → Option Counters
  published i =
      publisher fmt (split_csv flags.channels_csv) (dial (scene.at_publisher i)) i
        flags.payload_size (scene.publisher_rounds i)

  abbrev pub received : ℕ → Option Counters
  received i =
      receiver fmt (split_csv flags.channels_csv) (dial (scene.at_consumer i)) flags.timeout
        (scene.consumer_rounds i)

  abbrev pub report : Counters → Report
  report m = record {
    threads = counts_of.0 + counts_of.1;
    publishers = counts_of.0;
    consumers = counts_of.1;
    channels = split_csv flags.channels_csv;
    counts = m;
  }

  -- The answer of the warm-up's pop is not looked at.
  unfoldable pub generate : LoadEnd
  unfolding split_csv stress_counts dial publisher receiver
  generate = elim (dial scene.warm) [
    | none ↦ no_daemon
    | some peer ↦
        ended report (both (sum_counts counts_of.0 published) (sum_counts counts_of.1 received))
  ]
