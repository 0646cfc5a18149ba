-- ===== src/Load/Output.antt =====
-- examples/go/stress/main.go: what `main` prints of a report, and its exit code.
use atomic_queue.Prelude.{ℕ, ◌++◌, bytes_eq, if◌then◌else◌}
use atomic_queue.Fault.{Bytes}
use atomic_queue.Fault.Text.{Format, codes}
use atomic_queue.Cli.Run.{Outcome, exits}
use atomic_queue.Stress.Report.{comma_separated}
use atomic_queue.Load.Generator.{
  Flags, Scene, Report, LoadEnd, no_daemon, panicked, reported, generate,
}

-- The texts that depend on the clock, and what `encoding/json` makes of a report.
pub record Measured : Type 0 where
  pub elapsed : Bytes
  pub rate : ℕ → Bytes
  pub json : Report → Bytes

module _ (fmt : Format) (measured : Measured) where
  unfoldable pub print_report : Report → Bytes
  print_report r =
      codes "stress duration: "
      ++ (measured.elapsed
          ++ (codes "s\nthreads: "
              ++ (fmt.decimal r.threads
                  ++ (codes " ("
                      ++ (fmt.decimal r.publishers
                          ++ (codes " producers, "
                              ++ (fmt.decimal r.consumers
                                  ++ (codes " consumers)\nchannels: "
                                      ++ (comma_separated r.channels
                                          ++ (codes "\nmessages pushed: "
                                              ++ (fmt.decimal r.counts.pushed
                                                  ++ (codes "\nmessages served: "
                                                      ++ (fmt.decimal r.counts.served
                                                          ++ (codes "\npop timeouts: "
                                                            ++ (fmt.decimal r.counts.pop_timeouts
                                                            ++ (codes "\nclient failures: "
                                                            ++ (fmt.decimal r.counts.failures
                                                            ++ (codes "\npush rate: "
                                                            ++ (measured.rate r.counts.pushed
                                                            ++ (codes " msg/s\nserve rate: "
                                                            ++ (measured.rate r.counts.served
                                                            ++ codes " msg/s\n")))))))))))))))))))))

  -- An error of the encoder is not looked at.
  unfoldable pub output_report : (format : Bytes) → Report → Bytes
  unfolding print_report
  output_report format r =
      if bytes_eq format (codes "json") then measured.json r else print_report r

  -- `os.Exit(1)`, and the code of a process that panics.
  unfoldable pub exit_of : (format : Bytes) → LoadEnd → Outcome
  unfolding output_report
  exit_of format no_daemon = exits 1
  exit_of format panicked = exits 2
  exit_of format (reported r) = record { code = 0; output = output_report format r }

  unfoldable pub main : Flags → Scene → (format : Bytes) → Outcome
  unfolding generate exit_of
  main flags scene format = exit_of format (generate fmt flags scene)
