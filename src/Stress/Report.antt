-- ===== src/Stress/Report.antt =====
-- stress.go: runStress from its arguments to its report. What depends on the clock, and the numbers
-- with a fraction, are given as texts.
use atomic_queue.Prelude.{
  ℕ, zero, suc, Option, none, some, List, [], ◌∷◌, ◌++◌, bytes_eq, if◌then◌else◌,
}
use atomic_queue.Limits.{exit_ok, exit_runtime, exit_usage}
use atomic_queue.Fault.{Bytes}
use atomic_queue.Fault.Text.{Format, codes}
use atomic_queue.Cli.Number.{Parse, accept, reject}
use atomic_queue.Cli.Connect.{Host}
use atomic_queue.Cli.Run.{Outcome, exits}
use atomic_queue.Stress.Config.{StressConfig}
use atomic_queue.Stress.Counts.{stress_worker_counts}
use atomic_queue.Stress.Workers.{Counters, no_counts, producer, consumer, start_stress, both}

-- What the workers find at the socket, the channels and the numbers that their generators draw, the
-- rounds that the clock leaves them; how long it took, and the rates.
pub record Scene : Type 0 where
  pub at_producer : ℕ → Host
  pub at_consumer : ℕ → Host
  pub picks : ℕ → ℕ → Bytes
  pub uint64 : ℕ → ℕ → ℕ → ℕ
  pub producer_rounds : ℕ → ℕ
  pub consumer_rounds : ℕ → ℕ
  pub elapsed : Bytes
  pub rate : ℕ → Bytes

-- `stressResult`, less its numbers with a fraction.
pub record StressResult : Type 0 where
  pub threads : ℕ
  pub publishers : ℕ
  pub consumers : ℕ
  pub channels : List Bytes
  pub messages_pushed : ℕ
  pub messages_served : ℕ
  pub pop_timeouts : ℕ
  pub client_failures : ℕ

abbrev pub sum_counts : ℕ → (ℕ → Option Counters) → Option Counters
sum_counts zero worker = some no_counts
sum_counts (suc n) worker = both (sum_counts n worker) (worker n)

-- `strings.Join(channels, ", ")`
abbrev pub comma_separated : List Bytes → Bytes
comma_separated [] = []
comma_separated (c ∷ []) = c
comma_separated (c ∷ d ∷ cs) = c ++ (codes ", " ++ comma_separated (d ∷ cs))

-- `json` is what `encoding/json` makes of a result, or none.
module _ (fmt : Format) (json : StressResult → Option Bytes) (scene : Scene) where
  unfoldable pub run_workers : StressConfig → Option Counters
  unfolding stress_worker_counts producer consumer
  run_workers cfg =
      let (producer_count, consumer_count) = stress_worker_counts cfg in
      both
        (sum_counts producer_count λ i.
          producer fmt (scene.at_producer i) cfg (scene.uint64 i) (scene.picks i) i
            (scene.producer_rounds i))
        (sum_counts consumer_count
          λ i. some (consumer (scene.at_consumer i) cfg (scene.consumer_rounds i)))

  abbrev pub result_of : StressConfig → Counters → StressResult
  result_of cfg n = record {
    threads = cfg.threads;
    publishers = (stress_worker_counts cfg).0;
    consumers = (stress_worker_counts cfg).1;
    channels = cfg.channels;
    messages_pushed = n.pushed;
    messages_served = n.served;
    pop_timeouts = n.pop_timeouts;
    client_failures = n.failures;
  }

  -- The format of `fmt.Fprintf`, line by line.
  unfoldable pub text_report : StressResult → Bytes
  text_report r =
      codes "stress duration: "
      ++ (scene.elapsed
          ++ (codes "\nthreads: "
              ++ (fmt.decimal r.threads
                  ++ (codes " ("
                      ++ (fmt.decimal r.publishers
                          ++ (codes " producers, "
                              ++ (fmt.decimal r.consumers
                                  ++ (codes " consumers)\nchannels: "
                                      ++ (comma_separated r.channels
                                          ++ (codes "\nmessages pushed: "
                                              ++ (fmt.decimal r.messages_pushed
                                                  ++ (codes "\nmessages served: "
                                                      ++ (fmt.decimal r.messages_served
                                                          ++ (codes "\npop timeouts: "
                                                            ++ (fmt.decimal r.pop_timeouts
                                                            ++ (codes "\nclient failures: "
                                                            ++ (fmt.decimal r.client_failures
                                                            ++ (codes "\npush rate: "
                                                            ++ (scene.rate r.messages_pushed
                                                            ++ (codes " msg/s\nserve rate: "
                                                            ++ (scene.rate r.messages_served
                                                            ++ codes " msg/s\n")))))))))))))))))))))

  unfoldable pub write_report : Bytes → StressResult → Outcome
  unfolding text_report
  write_report format r =
      if bytes_eq format (codes "json")
      then elim (json r) [
        | none ↦ exits exit_runtime
        | some text ↦ record { code = exit_ok; output = text }
      ]
      else record { code = exit_ok; output = text_report r }

  -- A panic ends the process with exit code 2.
  abbrev after_workers : StressConfig → Option Counters → Outcome
  after_workers cfg none = exits 2
  after_workers cfg (some n) = write_report cfg.format (result_of cfg n)

  abbrev after_start : StressConfig → Option ℕ → Outcome
  after_start cfg (some code) = exits code
  after_start cfg none = after_workers cfg (run_workers cfg)

  unfoldable pub run_stress : (Bytes → Host) → Parse StressConfig → Outcome
  unfolding start_stress run_workers write_report
  run_stress host (reject e) = exits exit_usage
  run_stress host (accept cfg) = after_start cfg (start_stress host (accept cfg))
