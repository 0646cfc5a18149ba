-- ===== src/Load/Tests.antt =====
-- The names, the numbers of workers and the payloads of the load generator on concrete input.
use atomic_queue.Prelude.{◌≡◌, refl, [], ◌∷◌, true}
use atomic_queue.Prelude.Int.{pos}
use atomic_queue.Fault.Text.{Format, codes}
use atomic_queue.Load.{
  drop_spaces, drop_last_spaces, trim_spaces, scan, or_default, split_csv, stress_counts,
}
use atomic_queue.Server.Rpc.{Peer}
use atomic_queue.Load.Csv.{split_csv-agrees}
use atomic_queue.Stress.Csv.{split, split_csv as plain_split_csv}
use atomic_queue.Cli.Connect.{Host, connected}
use atomic_queue.Load.Generator.{Flags, Scene}
use atomic_queue.Load.Client.{dial}

names_found : split_csv (codes " jobs ,, b c") ≡ codes "jobs" ∷ codes "b c" ∷ []
unfolding split_csv scan trim_spaces drop_spaces drop_last_spaces
names_found = refl

shares_odd : stress_counts (pos 5) (pos 0) (pos 3) ≡ (2, 3)
unfolding stress_counts
shares_odd = refl

split_csv-agrees_example :
    split_csv (codes " a, b") ≡ or_default (plain_split_csv trim_spaces (codes " a, b"))
unfolding split
split_csv-agrees_example = split_csv-agrees trim_spaces (codes " a, b") (refl, (refl, tt))

abbrev wordless : Format
wordless = record { quote = λ s. s; decimal = λ n. []; system = λ e. []; allocates = λ n. true }

-- A peer that accepts one push and says no more.
abbrev agreeing : Peer
agreeing sent = 1 ∷ 0 ∷ 0 ∷ 0 ∷ 0 ∷ 0 ∷ 0 ∷ 0 ∷ 0 ∷ 0 ∷ 0 ∷ []

abbrev reached : Host
reached = record {
  dial = λ n. connected agreeing;
  dial_started = λ n. connected agreeing;
  has_executable = true;
  can_start = true;
  probes = 1;
}

-- Two publishers and three consumers, of two rounds each.
abbrev busy : Scene
busy = record {
  warm = reached;
  at_publisher = λ i. reached;
  at_consumer = λ i. reached;
  publisher_rounds = λ i. 2;
  consumer_rounds = λ i. 2;
}

abbrev small : Flags
small = record {
  threads = pos 5;
  publishers = pos 0;
  consumers = pos 3;
  channels_csv = codes "a, b";
  timeout = pos 1;
  payload_size = pos 20;
}
