-- ===== src/Cli/Serve.antt =====
-- main.go: parseServeArgs.
use atomic_queue.Prelude.{
  ℕ, ◌+◌, ◌*◌, ◌%◌, ◌^◌, ◌≤◌, ◌<◌, ◌≡◌, refl, true, none, some, List, [], ◌∷◌, bytes_eq, arith,
  if◌then◌else◌,
}
use atomic_queue.Prelude.Int.{le64}
use atomic_queue.Limits.{default_max_bytes, default_max_queued_gbytes}
use atomic_queue.Fault.{Bytes}
use atomic_queue.Fault.Text.{codes}
use atomic_queue.Broker.Ops.{new_broker}
use atomic_queue.Broker.Valid.{IsValid, new_broker-IsValid}
use atomic_queue.Cli.Number.{
  Parse, accept, reject, missing_value, limit_too_small, unknown_option, trim_option,
  parse_positive,
}

pub data ServeArg : Type 0 where
  socket_next : ServeArg
  socket_is : Bytes → ServeArg
  limit_next : ServeArg
  limit_is : Bytes → ServeArg
  unknown : ServeArg

-- The cases of the `switch`, in their order.
unfoldable pub serve_arg : Bytes → ServeArg
serve_arg arg =
    if bytes_eq arg (codes "--socket") then socket_next else elim (trim_option arg "--socket") [
      | some value ↦ socket_is value
      | none ↦
          if bytes_eq arg (codes "--max-queued-gbytes")
          then limit_next
          else elim (trim_option arg "--max-queued-gbytes") [
            | some value ↦ limit_is value
            | none ↦ unknown
          ]
    ]

-- What the argument at hand is: one for the `switch`, or the value of the option before it.
pub data Place : Type 0 where
  at_option at_socket at_limit : Place

-- The loop over the arguments, with the socket and the gigabytes so far.
unfoldable pub serve_args : Place → Bytes → ℕ → List Bytes → Parse (Bytes × ℕ)
unfolding serve_arg parse_positive
serve_args at_option socket gbytes [] = accept (socket, gbytes)
serve_args at_socket socket gbytes [] = reject (missing_value "--socket")
serve_args at_limit socket gbytes [] = reject (missing_value "--max-queued-gbytes")
serve_args at_socket socket gbytes (value ∷ rest) = serve_args at_option value gbytes rest
serve_args at_limit socket gbytes (value ∷ rest) = elim (parse_positive value "max-queued-gbytes") [
  | reject e ↦ reject e
  | accept n ↦ serve_args at_option socket n rest
]
serve_args at_option socket gbytes (arg ∷ rest) = elim (serve_arg arg) [
  | socket_next ↦ serve_args at_socket socket gbytes rest
  | socket_is value ↦ serve_args at_option value gbytes rest
  | limit_next ↦ serve_args at_limit socket gbytes rest
  | limit_is value ↦ elim (parse_positive value "max-queued-gbytes") [
    | reject e ↦ reject e
    | accept n ↦ serve_args at_option socket n rest
  ]
  | unknown ↦ reject (unknown_option arg)
]

-- `gbytes << 30` on int64, and its test.
unfoldable pub serve_limit : Bytes → ℕ → Parse (Bytes × ℕ)
serve_limit socket gbytes =
    let max_queued_bytes = gbytes * 2 ^ 30 % 2 ^ 64 in
    if le64 default_max_bytes max_queued_bytes
    then accept (socket, max_queued_bytes)
    else reject limit_too_small

-- The gigabytes before the arguments are read; an empty value is a variable that is not set.
unfoldable pub env_gbytes : Bytes → Parse ℕ
unfolding parse_positive
env_gbytes [] = accept default_max_queued_gbytes
env_gbytes (c ∷ cs) = parse_positive (c ∷ cs) "ATOMIC_QUEUE_MAX_QUEUED_GBYTES"

abbrev and_parse {ℓ ℓ'} : {A : Type ℓ} {B : Type ℓ'} → Parse A → (A → Parse B) → Parse B
and_parse (accept a) f = f a
and_parse (reject e) f = reject e

unfoldable pub parse_serve_args : (default_socket env : Bytes) → List Bytes → Parse (Bytes × ℕ)
unfolding env_gbytes serve_args serve_limit
parse_serve_args default_socket env args = and_parse (env_gbytes env) λ gbytes.
    and_parse (serve_args at_option default_socket gbytes args) λ read. serve_limit read.0 read.1

shifted : (g : ℕ) → g * 2 ^ 30 % 2 ^ 64 ≡ g % 2 ^ 34 * 2 ^ 30
shifted g = omega arith

serve_limit_fits :
    (start socket : Bytes) (g limit : ℕ)
    → serve_limit start g ≡ accept (socket, limit)
    → (default_max_bytes ≤ limit) × (limit + default_max_bytes < 2 ^ 63)
unfolding serve_limit
serve_limit_fits start socket g limit h = ground (arith, shifted g)

accepted :
    {A B : Type 0} (p : Parse A) (f : A → Parse B) (b : B)
    → and_parse p f ≡ accept b
    → (a : A) × (f a ≡ accept b)
accepted (accept a) f b h = (a, h)
accepted (reject e) f b h = cc

-- Whatever the environment and the arguments of `serve` are: when they are accepted with a limit,
-- then a payload of the largest size fits below it, and the broker that `serve` makes with it is
-- valid.
pub parse_serve_args-IsValid :
    (default_socket env : Bytes) (args : List Bytes) (socket : Bytes) (limit : ℕ)
    → parse_serve_args default_socket env args ≡ accept (socket, limit)
    → (default_max_bytes ≤ limit) × IsValid (new_broker default_max_bytes limit)
unfolding parse_serve_args
parse_serve_args-IsValid default_socket env args socket limit h =
    let (gbytes, h₁) = accepted (env_gbytes env) _ (socket, limit) h in
    let (read, h₂) =
      accepted (serve_args at_option default_socket gbytes args) _ (socket, limit) h₁ in
    let (large, fits) = serve_limit_fits read.0 socket read.1 limit h₂ in
    (large, new_broker-IsValid default_max_bytes limit fits)

-- Of a number of gigabytes from 1 to 2^33 - 1 the limit is exactly that number times 2^30; and so
-- it is for the number that is larger by 2^34, since the shift wraps around.
pub serve_limit_wraps :
    (socket : Bytes) (g : ℕ)
    → 0 < g
    → g < 2 ^ 33
    → (serve_limit socket g ≡ accept (socket, g * 2 ^ 30))
      × (serve_limit socket (g + 2 ^ 34) ≡ accept (socket, g * 2 ^ 30))
unfolding serve_limit
serve_limit_wraps socket g some_of small =
    let one : g * 2 ^ 30 % 2 ^ 64 ≡ g * 2 ^ 30 = omega arith in
    let two : (g + 2 ^ 34) * 2 ^ 30 % 2 ^ 64 ≡ g * 2 ^ 30 = omega arith in
    let enough : le64 default_max_bytes (g * 2 ^ 30) ≡ true = ground arith in
    rw (one, two, enough) (refl, refl)
