-- ===== src/Cli/Number.antt =====
-- main.go: trimOption, hasLongOption, parsePositiveInt64, and what they use of `strings` and
-- `strconv`.
use Prim.Native.String.{String}
use atomic_queue.Prelude.{
  ℕ, zero, suc, ◌+◌, ◌-◌, ◌*◌, ◌^◌, Bool, true, false, Option, none, some, [], ◌∷◌, ◌++◌, ltb, ◌==◌,
  if◌then◌else◌,
}
use atomic_queue.Prelude.Int.{ℤ, pos, negsuc}
use atomic_queue.Fault.{Bytes}
use atomic_queue.Fault.Text.{codes}
use atomic_queue.Channel.{in_range}

-- The errors of the command lines.
pub data CliError : Type 0 where
  missing_value : (option : String) → CliError
  invalid_number : (name : String) → CliError
  not_positive : (name : String) → CliError
  invalid_timeout : CliError
  negative_timeout : CliError
  limit_too_small : CliError
  unknown_option : Bytes → CliError
  -- of `stress`
  invalid_duration : (name : String) → CliError
  no_channels_left unpaired_workers unknown_format : CliError

pub data Parse {ℓ} (A : Type ℓ) : Type ℓ where
  accept : A → Parse A
  reject : CliError → Parse A

-- `strings.CutPrefix`
unfoldable pub cut_prefix : Bytes → Bytes → Option Bytes
cut_prefix [] s = some s
cut_prefix (p ∷ ps) [] = none
cut_prefix (p ∷ ps) (c ∷ cs) = let rest = cut_prefix ps cs in if p == c then rest else none

unfoldable pub trim_option : Bytes → String → Option Bytes
trim_option arg name = cut_prefix (codes name ++ b'=' ∷ []) arg

unfoldable pub has_long_option : Bytes → String → Bool
has_long_option arg name = elim (trim_option arg name) [ none ↦ false | some value ↦ true ]

-- `strconv.ParseInt(value, 10, 64)`: an optional sign and decimal digits, and what they stand for
-- in the range of int64.
unfoldable pub digits : ℕ → Bytes → Option ℕ
digits acc [] = some acc
digits acc (c ∷ cs) =
    let rest = digits (acc * 10 + (c - b'0')) cs in if in_range b'0' b'9' c then rest else none

unfoldable pub unsigned : Bytes → Option ℕ
unfolding digits
unsigned [] = none
unsigned (c ∷ cs) = digits 0 (c ∷ cs)

unfoldable pub positive : Option ℕ → Option ℤ
positive none = none
positive (some n) = if ltb n (2 ^ 63) then some (pos n) else none

unfoldable pub negative : Option ℕ → Option ℤ
negative none = none
negative (some zero) = some (pos 0)
negative (some (suc n)) = if ltb n (2 ^ 63) then some (negsuc n) else none

unfoldable pub parse_int : Bytes → Option ℤ
unfolding unsigned positive negative
parse_int [] = none
parse_int (c ∷ cs) =
    if c == b'+'
    then positive (unsigned cs)
    else if c == b'-'
    then negative (unsigned cs)
    else positive (unsigned (c ∷ cs))

unfoldable pub check_positive : String → Option ℤ → Parse ℕ
check_positive name none = reject (invalid_number name)
check_positive name (some (pos zero)) = reject (not_positive name)
check_positive name (some (pos (suc n))) = accept (suc n)
check_positive name (some (negsuc n)) = reject (not_positive name)

unfoldable pub parse_positive : Bytes → String → Parse ℕ
unfolding parse_int check_positive
parse_positive value name = check_positive name (parse_int value)
