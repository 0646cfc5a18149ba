-- ===== src/Stress/Counts.antt =====
-- stress.go: stressWorkerCounts, for the configurations that parseStressArgs accepts.
use atomic_queue.Prelude.{
  ℕ, ◌+◌, ◌-◌, ◌/◌, ◌%◌, ◌^◌, ◌≤◌, ◌<◌, ◌≡◌, ◌≢◌, refl, ◌⊎◌, inl, inr, Bool, true, false,
  Bool-cases, Option, none, List, [], ◌∷◌, ◌&&◌, ◌||◌, ◌==◌, not, ltb, lt→ltb, ltb→lt, le-or-lt,
  bytes_eq, eq_of_bytes_eq, arith, if◌then◌else◌,
}
use atomic_queue.Prelude.Int.{ℤ, pos, negsuc, add64}
use atomic_queue.Fault.{Bytes}
use atomic_queue.Fault.Text.{codes}
use atomic_queue.Cli.Number.{
  CliError, Parse, accept, reject, not_positive, no_channels_left, unpaired_workers, unknown_format,
}
use atomic_queue.Stress.Config.{
  StressConfig, require, is_positive, is_nil, check_stress, pair_workers, check_format, checked,
  stress_args, default_config, parse_stress_args,
}

abbrev at_least_one : ℕ → ℕ
at_least_one n = if ltb n 1 then 1 else n

-- `threads` is divided as a number: only a sum of publishers and consumers, and then both are set,
-- can be a negative int.
unfoldable pub stress_worker_counts : StressConfig → ℕ × ℕ
stress_worker_counts cfg =
    let producer_count = at_least_one (cfg.threads / 2) in
    if ltb 0 cfg.publishers && ltb 0 cfg.consumers
    then (cfg.publishers, cfg.consumers)
    else (producer_count, at_least_one (cfg.threads - producer_count))

abbrev IsAbove : ℤ → Type 0
IsAbove z = (n : ℕ) × (z ≡ pos n) × (0 < n)

-- What holds of an accepted configuration.
pub record IsSound (cfg : StressConfig) : Type 0 where
  pub lasts : IsAbove cfg.duration
  pub waits : IsAbove cfg.pop_timeout
  pub filled : 0 < cfg.payload_len
  pub somewhere : cfg.channels ≢ []
  pub printable : (cfg.format ≡ codes "text") ⊎ (cfg.format ≡ codes "json")
  pub producers : 1 ≤ (stress_worker_counts cfg).0
  pub receivers : 1 ≤ (stress_worker_counts cfg).1
  pub shared :
      (cfg.threads ≡ 1)
      ⊎ (((stress_worker_counts cfg).0 + (stress_worker_counts cfg).1) % 2 ^ 64
          ≡ cfg.threads % 2 ^ 64)

require-accept :
    {A : Type 0} (test : Bool) (e : CliError) (p : Parse A) (a : A)
    → require test e p ≡ accept a
    → (test ≡ true) × (p ≡ accept a)
require-accept true e p a h = (refl, h)
require-accept false e p a h = cc

IsAbove-of_test : (z : ℤ) → is_positive z ≡ true → IsAbove z
IsAbove-of_test (pos n) h = (n, refl, ground arith)
IsAbove-of_test (negsuc n) h = cc

or-cases : (a b : Bool) → (a || b) ≡ true → (a ≡ true) ⊎ (b ≡ true)
or-cases true b h = inl refl
or-cases false b h = inr h

check_format-accept :
    (p : Parse StressConfig) (cfg : StressConfig)
    → check_format p ≡ accept cfg
    → (p ≡ accept cfg) × ((cfg.format ≡ codes "text") ⊎ (cfg.format ≡ codes "json"))
unfolding check_format
check_format-accept (reject e) cfg h = cc
check_format-accept (accept c) cfg h =
    let (test, same) =
      require-accept (bytes_eq c.format (codes "text") || bytes_eq c.format (codes "json"))
        unknown_format (accept c) cfg h in
    (
      same,
      elim (or-cases (bytes_eq c.format (codes "text")) (bytes_eq c.format (codes "json")) test) [
        | inl e ↦ inl (cc (eq_of_bytes_eq c.format (codes "text") e))
        | inr e ↦ inr (cc (eq_of_bytes_eq c.format (codes "json") e))
      ],
    )

-- What the workers' numbers are after `pair_workers`.
data Paired (c cfg : StressConfig) : Type 0 where
  unset : c.publishers ≡ 0 → c.consumers ≡ 0 → cfg ≡ c → Paired c cfg
  both :
      0 < c.publishers
      → 0 < c.consumers
      → cfg ≡ record c { threads = add64 c.publishers c.consumers }
      → Paired c cfg

pair_workers-Paired : (c cfg : StressConfig) → pair_workers c ≡ accept cfg → Paired c cfg
unfolding pair_workers
pair_workers-Paired c cfg h = elim (Bool-cases (c.publishers == 0 && c.consumers == 0)) [
  | inl e ↦
      let same : accept c ≡ accept cfg = rw e at h in
      unset (ground (arith, e)) (ground (arith, e)) (cc same)
  | inr e ↦
      let (test, same) =
        require-accept _ unpaired_workers
          (accept (record c { threads = add64 c.publishers c.consumers })) cfg (rw e at h) in
      both (ground (arith, test)) (ground (arith, test)) (cc same)
]

-- With two threads or more and no publishers asked for, there is a publisher and a consumer at
-- least, and together they are as many as the threads.
stress_worker_counts-share :
    (cfg : StressConfig)
    → 2 ≤ cfg.threads
    → cfg.publishers ≡ 0
    → (1 ≤ (stress_worker_counts cfg).0)
      × (1 ≤ (stress_worker_counts cfg).1)
      × ((stress_worker_counts cfg).0 + (stress_worker_counts cfg).1 ≡ cfg.threads)
unfolding stress_worker_counts
stress_worker_counts-share cfg two none_asked = ground arith

counts-shared :
    (c cfg : StressConfig)
    → 0 < c.threads
    → Paired c cfg
    → (1 ≤ (stress_worker_counts cfg).0)
      × (1 ≤ (stress_worker_counts cfg).1)
      × ((cfg.threads ≡ 1)
          ⊎ (((stress_worker_counts cfg).0 + (stress_worker_counts cfg).1) % 2 ^ 64
              ≡ cfg.threads % 2 ^ 64))
unfolding stress_worker_counts
counts-shared c cfg some_threads (unset none_p none_c same) =
    rw (same, none_p)
      (
        ground arith,
        ground arith,
        elim (le-or-lt c.threads 1) [ inl few ↦ inl (omega arith) | inr many ↦ inr (ground arith) ],
      )
counts-shared c cfg some_threads (both p r same) =
    rw (same, lt→ltb 0 c.publishers p, lt→ltb 0 c.consumers r) (p, r, inr (omega arith))

same_fields :
    (c cfg : StressConfig)
    → Paired c cfg
    → (cfg.duration ≡ c.duration)
      × (cfg.pop_timeout ≡ c.pop_timeout)
      × (cfg.payload_len ≡ c.payload_len)
      × (cfg.channels ≡ c.channels)
same_fields c cfg (unset none_p none_c same) = rw same (refl, refl, refl, refl)
same_fields c cfg (both p r same) = rw same (refl, refl, refl, refl)

not_nil : (cs : List Bytes) → not (is_nil cs) ≡ true → cs ≢ []
not_nil [] h = cc
not_nil (c ∷ cs) h = λ e. cc

check_stress-IsSound : (c cfg : StressConfig) → check_stress c ≡ accept cfg → IsSound cfg
unfolding check_stress
check_stress-IsSound c cfg h =
    let (lasts, h₁) = require-accept (is_positive c.duration) (not_positive "duration") _ cfg h in
    let (some_threads, h₂) = require-accept (ltb 0 c.threads) (not_positive "threads") _ cfg h₁ in
    let (waits, h₃) =
      require-accept (is_positive c.pop_timeout) (not_positive "pop-timeout") _ cfg h₂ in
    let (filled, h₄) =
      require-accept (ltb 0 c.payload_len) (not_positive "payload-size") _ cfg h₃ in
    let (somewhere, h₅) = require-accept (not (is_nil c.channels)) no_channels_left _ cfg h₄ in
    let (h₆, printable) = check_format-accept (pair_workers c) cfg h₅ in
    let p = pair_workers-Paired c cfg h₆ in
    let (duration, pop_timeout, payload_len, channels) = same_fields c cfg p in
    let (producers, receivers, shared) = counts-shared c cfg (ltb→lt 0 c.threads some_threads) p in
    record {
      lasts = rw duration (IsAbove-of_test c.duration lasts);
      waits = rw pop_timeout (IsAbove-of_test c.pop_timeout waits);
      filled = rw payload_len (ltb→lt 0 c.payload_len filled);
      somewhere = rw channels (not_nil c.channels somewhere);
      printable = printable;
      producers = producers;
      receivers = receivers;
      shared = shared;
    }

checked-IsSound :
    (p : Parse StressConfig) (cfg : StressConfig) → checked p ≡ accept cfg → IsSound cfg
unfolding checked
checked-IsSound (accept c) cfg h = check_stress-IsSound c cfg h
checked-IsSound (reject e) cfg h = cc

-- Whatever arguments of `stress` are accepted: the duration, the timeout of a pop and the size of a
-- payload are positive, there is a channel, the format is one of the two; there is a publisher and
-- a consumer at least, and the two numbers add up to the threads, as 64-bit numbers, unless there
-- is only one thread.
pub parse_stress_args-IsSound :
    (parse_duration : Bytes → Option ℤ) (trim_space : Bytes → Bytes) (default_socket : Bytes)
    (args : List Bytes) (cfg : StressConfig)
    → parse_stress_args parse_duration trim_space default_socket args ≡ accept cfg
    → IsSound cfg
unfolding parse_stress_args
parse_stress_args-IsSound parse_duration trim_space default_socket args cfg h =
    checked-IsSound
      (stress_args parse_duration trim_space none (default_config default_socket) args) cfg h
