-- ===== src/Stress/Config.antt =====
-- stress.go: parseStressArgs.
use Prim.Native.String.{String}
use atomic_queue.Prelude.{
  ℕ, ◌*◌, Bool, true, false, Option, none, some, List, [], ◌∷◌, ◌||◌, ◌&&◌, not, bytes_eq, ltb,
  ◌==◌, if◌then◌else◌,
}
use atomic_queue.Prelude.Int.{ℤ, pos, negsuc, add64}
use atomic_queue.Fault.{Bytes}
use atomic_queue.Fault.Text.{codes}
use atomic_queue.Cli.Number.{
  CliError, Parse, accept, reject, missing_value, not_positive, unknown_option, invalid_duration,
  no_channels_left, unpaired_workers, unknown_format, trim_option, parse_positive,
}
use atomic_queue.Stress.Csv.{split_csv}

-- `stressConfig`. The fields of type int are numbers from 0, but `threads` is a 64-bit pattern.
pub record StressConfig : Type 0 where
  pub socket : Bytes
  pub duration : ℤ
  pub threads : ℕ
  pub publishers : ℕ
  pub consumers : ℕ
  pub channels : List Bytes
  pub pop_timeout : ℤ
  pub payload_len : ℕ
  pub format : Bytes

abbrev pub millisecond : ℕ
millisecond = 1_000_000

unfoldable pub default_config : (default_socket : Bytes) → StressConfig
default_config default_socket = record {
  socket = default_socket;
  duration = pos (10_000 * millisecond);
  threads = 1000;
  publishers = 0;
  consumers = 0;
  channels = codes "stress-a" ∷ codes "stress-b" ∷ codes "stress-c" ∷ codes "stress-d" ∷ [];
  pop_timeout = pos (200 * millisecond);
  payload_len = 128;
  format = codes "text";
}

pub data StressOption : Type 0 where
  socket_option duration_option threads_option publishers_option consumers_option channels_option
        pop_timeout_option payload_size_option format_option :
      StressOption

unfoldable pub option_name : StressOption → String
option_name socket_option = "--socket"
option_name duration_option = "--duration"
option_name threads_option = "--threads"
option_name publishers_option = "--publishers"
option_name consumers_option = "--consumers"
option_name channels_option = "--channels"
option_name pop_timeout_option = "--pop-timeout"
option_name payload_size_option = "--payload-size"
option_name format_option = "--format"

-- The order of the cases of the `switch`.
abbrev pub stress_options : List StressOption
stress_options =
    socket_option ∷ duration_option ∷ threads_option ∷ publishers_option ∷ consumers_option
    ∷ channels_option ∷ pop_timeout_option ∷ payload_size_option ∷ format_option ∷ []

-- How an argument is read: an option whose value is the next argument, or stands behind `=`.
pub data StressArg : Type 0 where
  value_next : StressOption → StressArg
  value_is : StressOption → Bytes → StressArg
  unknown : StressArg

unfoldable pub find_exact : Bytes → List StressOption → Option StressOption
unfolding option_name
find_exact arg [] = none
find_exact arg (option ∷ options) =
    let rest = find_exact arg options in
    if bytes_eq arg (codes (option_name option)) then some option else rest

unfoldable pub find_long : Bytes → List StressOption → StressArg
unfolding option_name
find_long arg [] = unknown
find_long arg (option ∷ options) =
    let rest = find_long arg options in
    elim (trim_option arg (option_name option)) [ some value ↦ value_is option value | none ↦ rest ]

unfoldable pub stress_arg : Bytes → StressArg
unfolding find_exact find_long
stress_arg arg = elim (find_exact arg stress_options) [
  | some option ↦ value_next option
  | none ↦ find_long arg stress_options
]

abbrev pub is_positive : ℤ → Bool
is_positive (pos n) = ltb 0 n
is_positive (negsuc n) = false

-- A test of the accepted configuration, or a value put into it.
abbrev pub require {ℓ} : {A : Type ℓ} → Bool → CliError → Parse A → Parse A
require test e p = if test then p else reject e

abbrev pub with_number : Parse ℕ → (ℕ → StressConfig) → Parse StressConfig
with_number (accept n) f = accept (f n)
with_number (reject e) f = reject e

abbrev pub with_duration : String → Option ℤ → (ℤ → StressConfig) → Parse StressConfig
with_duration name (some d) f = accept (f d)
with_duration name none f = reject (invalid_duration name)

-- `publishers` and `consumers`, when either is set.
unfoldable pub pair_workers : StressConfig → Parse StressConfig
pair_workers cfg =
    if cfg.publishers == 0 && cfg.consumers == 0
    then accept cfg
    else require (ltb 0 cfg.publishers && ltb 0 cfg.consumers) unpaired_workers
        (accept (record cfg { threads = add64 cfg.publishers cfg.consumers }))

unfoldable pub check_format : Parse StressConfig → Parse StressConfig
check_format (reject e) = reject e
check_format (accept cfg) =
    require (bytes_eq cfg.format (codes "text") || bytes_eq cfg.format (codes "json"))
      unknown_format (accept cfg)

abbrev pub is_nil : List Bytes → Bool
is_nil [] = true
is_nil (c ∷ cs) = false

-- What follows the loop.
unfoldable pub check_stress : StressConfig → Parse StressConfig
unfolding pair_workers check_format
check_stress cfg = require (is_positive cfg.duration) (not_positive "duration") (
    require (ltb 0 cfg.threads) (not_positive "threads") (
      require (is_positive cfg.pop_timeout) (not_positive "pop-timeout") (
        require (ltb 0 cfg.payload_len) (not_positive "payload-size") (
          require (not (is_nil cfg.channels)) no_channels_left (check_format (pair_workers cfg))))))

unfoldable pub checked : Parse StressConfig → Parse StressConfig
unfolding check_stress
checked (accept cfg) = check_stress cfg
checked (reject e) = reject e

module _ (parse_duration : Bytes → Option ℤ) (trim_space : Bytes → Bytes) where
  -- The body of the case of an option.
  unfoldable pub set_option : StressOption → Bytes → StressConfig → Parse StressConfig
  unfolding parse_positive split_csv
  set_option socket_option value cfg = accept (record cfg { socket = value })
  set_option duration_option value cfg =
      with_duration "duration" (parse_duration value) λ d. record cfg { duration = d }
  set_option threads_option value cfg =
      with_number (parse_positive value "threads") λ n. record cfg { threads = n }
  set_option publishers_option value cfg =
      with_number (parse_positive value "publishers") λ n. record cfg { publishers = n }
  set_option consumers_option value cfg =
      with_number (parse_positive value "consumers") λ n. record cfg { consumers = n }
  set_option channels_option value cfg =
      accept (record cfg { channels = split_csv trim_space value })
  set_option pop_timeout_option value cfg =
      with_duration "pop-timeout" (parse_duration value) λ d. record cfg { pop_timeout = d }
  set_option payload_size_option value cfg =
      with_number (parse_positive value "payload-size") λ n. record cfg { payload_len = n }
  set_option format_option value cfg = accept (record cfg { format = value })

  -- The loop over the arguments: `wanting` is the option that takes the argument at hand.
  unfoldable pub stress_args :
      (wanting : Option StressOption) → StressConfig → List Bytes → Parse StressConfig
  unfolding stress_arg set_option option_name
  stress_args none cfg [] = accept cfg
  stress_args (some option) cfg [] = reject (missing_value (option_name option))
  stress_args (some option) cfg (value ∷ rest) = elim (set_option option value cfg) [
    | accept next ↦ stress_args none next rest
    | reject e ↦ reject e
  ]
  stress_args none cfg (arg ∷ rest) = elim (stress_arg arg) [
    | value_next option ↦ stress_args (some option) cfg rest
    | value_is option value ↦ elim (set_option option value cfg) [
      | accept next ↦ stress_args none next rest
      | reject e ↦ reject e
    ]
    | unknown ↦ reject (unknown_option arg)
  ]

  unfoldable pub parse_stress_args : (default_socket : Bytes) → List Bytes → Parse StressConfig
  unfolding stress_args checked default_config
  parse_stress_args default_socket args =
      checked (stress_args none (default_config default_socket) args)
