-- ===== src/Cli/Pop.antt =====
-- main.go: parseArgs and parsePopArgs. `time.ParseDuration` is a parameter: the nanoseconds of a
-- text, or none.
pub mod Words
use atomic_queue.Prelude.{
  ℕ, ◌≡◌, refl, ◌∙◌, Bool, true, false, Option, none, some, List, [], ◌∷◌, ◌++◌, All, bytes_eq,
  append_assoc, append-nil, arith, if◌then◌else◌,
}
use atomic_queue.Prelude.Int.{ℤ, pos, negsuc}
use atomic_queue.Fault.{Bytes}
use atomic_queue.Fault.Text.{codes}
use atomic_queue.Cli.Number.{
  Parse, accept, reject, missing_value, invalid_timeout, negative_timeout, cut_prefix, trim_option,
}

pub record PopArgs : Type 0 where
  pub socket : Bytes
  pub positionals : List Bytes
  pub timeout : ℤ

-- How `parseArgs` and `parsePopArgs` each read an argument, for the option they know.
pub data OptionArg : Type 0 where
  value_next : OptionArg
  value_is : Bytes → OptionArg
  other : OptionArg

unfoldable pub socket_arg : Bytes → OptionArg
socket_arg arg =
    if bytes_eq arg (codes "--socket")
    then value_next
    else elim (trim_option arg "--socket") [ some value ↦ value_is value | none ↦ other ]

unfoldable pub timeout_arg : Bytes → OptionArg
timeout_arg arg =
    if bytes_eq arg (codes "--timeout")
    then value_next
    else elim (trim_option arg "--timeout") [ some value ↦ value_is value | none ↦ other ]

-- The loop of `parseArgs`: what is no socket option is kept, whether it looks like a timeout or
-- not. `at_value` says that the argument before takes this one as its value.
unfoldable pub socket_loop :
    (at_value : Bool) → Bytes → List Bytes → List Bytes → Parse (Bytes × List Bytes)
unfolding socket_arg
socket_loop true socket kept [] = reject (missing_value "--socket")
socket_loop true socket kept (value ∷ rest) = socket_loop false value kept rest
socket_loop false socket kept [] = accept (socket, kept)
socket_loop false socket kept (arg ∷ rest) = elim (socket_arg arg) [
  | value_next ↦ socket_loop true socket kept rest
  | value_is value ↦ socket_loop false value kept rest
  | other ↦ socket_loop false socket (kept ++ arg ∷ []) rest
]

unfoldable pub parse_args : (default_socket : Bytes) → List Bytes → Parse (Bytes × List Bytes)
unfolding socket_loop
parse_args default_socket args = socket_loop false default_socket [] args

module _ (parse_duration : Bytes → Option ℤ) where
  -- The loop of `parsePopArgs` over what `parseArgs` kept.
  unfoldable pub timeout_loop :
      (at_value : Bool) → ℤ → List Bytes → List Bytes → Parse (ℤ × List Bytes)
  unfolding timeout_arg
  timeout_loop true timeout kept [] = reject (missing_value "--timeout")
  timeout_loop true timeout kept (value ∷ rest) = elim (parse_duration value) [
    | none ↦ reject invalid_timeout
    | some d ↦ timeout_loop false d kept rest
  ]
  timeout_loop false timeout kept [] = accept (timeout, kept)
  timeout_loop false timeout kept (arg ∷ rest) = elim (timeout_arg arg) [
    | value_next ↦ timeout_loop true timeout kept rest
    | value_is value ↦ elim (parse_duration value) [
      | none ↦ reject invalid_timeout
      | some d ↦ timeout_loop false d kept rest
    ]
    | other ↦ timeout_loop false timeout (kept ++ arg ∷ []) rest
  ]

  -- `if timeout < 0`
  unfoldable pub check_timeout : Bytes → Parse (ℤ × List Bytes) → Parse PopArgs
  check_timeout socket (reject e) = reject e
  check_timeout socket (accept (negsuc n, kept)) = reject negative_timeout
  check_timeout socket (accept (pos n, kept)) =
      accept (record { socket = socket; positionals = kept; timeout = pos n })

  unfoldable pub parse_timeouts : Parse (Bytes × List Bytes) → Parse PopArgs
  unfolding timeout_loop check_timeout
  parse_timeouts (reject e) = reject e
  parse_timeouts (accept (socket, kept)) = check_timeout socket (timeout_loop false (pos 0) [] kept)

  unfoldable pub parse_pop_args : (default_socket : Bytes) → List Bytes → Parse PopArgs
  unfolding parse_args parse_timeouts
  parse_pop_args default_socket args = parse_timeouts (parse_args default_socket args)
