-- ===== src/Load.antt =====
-- examples/go/stress/main.go: the load generator for users to copy. Its own splitCSV, stressCounts
-- and makePayload, and its publishers and consumers; its client is that of the standalone example.
pub mod Csv
pub mod Client
pub mod Workers
pub mod Runs
pub mod Generator
pub mod Output
pub mod Totals
mod Tests
use atomic_queue.Prelude.{
  ℕ, zero, suc, ◌+◌, ◌-◌, ◌/◌, ◌%◌, ◌^◌, Option, none, some, List, [], ◌∷◌, ◌++◌, length, get_elem?,
  take, ltb, leb, ◌==◌, if◌then◌else◌,
}
use atomic_queue.Prelude.Int.{ℤ, pos, negsuc}
use atomic_queue.Fault.{Bytes}
use atomic_queue.Fault.Text.{Format, codes}
use atomic_queue.Stress.Payload.{hex_digit, payload_prefix}

-- The two loops that cut spaces off a part.
unfoldable pub drop_spaces : Bytes → Bytes
drop_spaces [] = []
drop_spaces (c ∷ cs) = let rest = drop_spaces cs in if c == b' ' then rest else c ∷ cs

abbrev unless_blank : ℕ → Bytes → Bytes
unless_blank c [] = if c == b' ' then [] else c ∷ []
unless_blank c (d ∷ ds) = c ∷ d ∷ ds

unfoldable pub drop_last_spaces : Bytes → Bytes
drop_last_spaces [] = []
drop_last_spaces (c ∷ cs) = unless_blank c (drop_last_spaces cs)

unfoldable pub trim_spaces : Bytes → Bytes
unfolding drop_spaces drop_last_spaces
trim_spaces part = drop_last_spaces (drop_spaces part)

-- `append` of a part that is not empty.
abbrev pub add_part : Bytes → List Bytes → List Bytes
add_part [] out = out
add_part (c ∷ cs) out = out ++ (c ∷ cs) ∷ []

abbrev pub next_part : ℕ → Bytes → Bytes
next_part c part = if c == b',' then [] else part ++ c ∷ []

abbrev pub next_out : ℕ → Bytes → List Bytes → List Bytes
next_out c part out = if c == b',' then add_part (trim_spaces part) out else out

-- The loop over `value`: `part` is `value[start:i]`, and the list after it `value[i:]`.
unfoldable pub scan : (part : Bytes) → Bytes → (out : List Bytes) → List Bytes
unfolding trim_spaces
scan part [] out = add_part (trim_spaces part) out
scan part (c ∷ cs) out = scan (next_part c part) cs (next_out c part out)

abbrev pub or_default : List Bytes → List Bytes
or_default [] = codes "stress-a" ∷ []
or_default (c ∷ cs) = c ∷ cs

unfoldable pub split_csv : Bytes → List Bytes
unfolding scan
split_csv [] = codes "stress-a" ∷ []
split_csv (c ∷ cs) = or_default (scan [] (c ∷ cs) [])

abbrev at_least_one : ℕ → ℕ
at_least_one n = if ltb n 1 then 1 else n

-- Of a number of threads below zero both shares are below one.
abbrev share : ℤ → ℕ × ℕ
share (negsuc n) = (1, 1)
share (pos n) = (at_least_one (n / 2), at_least_one (n - at_least_one (n / 2)))

unfoldable pub stress_counts : (threads publishers consumers : ℤ) → ℕ × ℕ
stress_counts threads (pos (suc p)) (pos (suc c)) = (suc p, suc c)
stress_counts threads _ _ = share threads

-- `payload[i]` for `n` indices from `i` on.
abbrev pub filling : (worker_id seq i n : ℕ) → Bytes
filling worker_id seq i zero = []
filling worker_id seq i (suc n) =
    hex_digit ((worker_id + seq + i) % 16) ∷ filling worker_id seq (suc i) n

-- None is the panic of `prefix[:size]` for a size below zero.
unfoldable pub make_payload : Format → (worker_id seq : ℕ) (size : ℤ) → Option Bytes
make_payload fmt worker_id seq (negsuc n) = none
make_payload fmt worker_id seq (pos size) =
    let prefix = payload_prefix fmt worker_id seq in
    if leb size (length prefix)
    then some (take size prefix)
    else if fmt.allocates size
    then some (prefix ++ filling worker_id seq (length prefix) (size - length prefix))
    else none
