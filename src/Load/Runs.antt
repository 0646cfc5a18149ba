-- ===== src/Load/Runs.antt =====
-- examples/go/stress/main.go: what becomes of a publisher of the load generator.
use atomic_queue.Prelude.{
  ℕ, zero, suc, ◌+◌, ◌%◌, ◌<◌, ◌≡◌, refl, Bool-cases, inl, inr, true, leb, take, ◌++◌, ◌-◌, Option,
  none, some, List, [], ◌∷◌, length, get_elem?, arith,
}
use native.Mathlib.Nat.{mod-lt}
use atomic_queue.Prelude.Int.{pos}
use atomic_queue.Fault.{Bytes}
use atomic_queue.Fault.Text.{Format}
use atomic_queue.Server.Rpc.{Peer, Reply, got, failed}
use atomic_queue.Stress.Workers.{Conn, dialled, Counters, no_counts}
use atomic_queue.Stress.Sums.{Ran, every_round, gave_up, later}
use atomic_queue.Load.{split_csv, or_default, payload_prefix, filling, make_payload, scan}
use atomic_queue.Load.Workers.{count_push, pushed_on, publish, publisher}

place_below :
    {A : Type 0} (xs : List A) (i : ℕ) → i < length xs → (x : A) × (get_elem? xs i ≡ some x)
place_below [] i h = absurd (omega arith)
place_below (x ∷ xs) zero h = (x, refl)
place_below (x ∷ xs) (suc i) h = place_below xs i (omega arith)

length-or_default : (names : List Bytes) → 0 < length (or_default names)
length-or_default [] = omega arith
length-or_default (name ∷ names) = omega arith

length-split_csv : (value : Bytes) → 0 < length (split_csv value)
unfolding split_csv
length-split_csv [] = omega arith
length-split_csv (c ∷ cs) = length-or_default (scan [] (c ∷ cs) [])

Runs : Counters → ℕ → Option Counters → Type 0
Runs n rounds r = (m : Counters) × (r ≡ some m) × Ran n rounds m

count_push-Runs :
    (loop : Conn → Counters → Option Counters) (n : Counters) (r : Reply (Unit {0})) (conn : Conn)
    (rounds : ℕ)
    → ((k : Counters) → Runs k rounds (loop conn k))
    → Runs n (suc rounds) (count_push loop n r conn)
unfolding Runs
count_push-Runs loop n (failed e) conn rounds go = (_, refl, gave_up (omega arith) refl refl)
count_push-Runs loop n (got u) conn rounds go =
    let (m, e, ran) = go (record n { pushed = n.pushed + 1 }) in (m, e, later n m rounds ran)

payload_made :
    (fmt : Format) (worker_id seq size : ℕ)
    → fmt.allocates size ≡ true
    → (payload : Bytes) × (make_payload fmt worker_id seq (pos size) ≡ some payload)
unfolding make_payload
payload_made fmt worker_id seq size room =
    let prefix = payload_prefix fmt worker_id seq in
    elim (Bool-cases (leb size (length prefix))) [
      | inl short ↦ (take size prefix, rw short refl)
      | inr long ↦ (
        prefix ++ filling worker_id seq (length prefix) (size - length prefix),
        rw (long, room) refl,
      )
    ]

module _ (fmt : Format) (channels : List Bytes) (filled : 0 < length channels) (worker_id size : ℕ)
    (room : fmt.allocates size ≡ true) where
  publish-Runs :
      (rounds index seq : ℕ) (conn : Conn) (n : Counters)
      → index < length channels
      → Runs n rounds (publish fmt channels worker_id (pos size) rounds index seq conn n)
  unfolding Runs publish
  publish-Runs zero index seq conn n h = (n, refl, every_round (omega arith) refl refl)
  publish-Runs (suc rounds) index seq conn n h =
      let (channel, at) = place_below channels index h in
      let next : (index + 1) % length channels < length channels = mod-lt (index + 1) filled in
      let (payload, made) = payload_made fmt worker_id seq size room in
      let rest : Conn → Counters → Option Counters =
        publish fmt channels worker_id (pos size) rounds ((index + 1) % length channels)
          (seq + 1) in
      let (reply, then) = pushed_on conn channel payload in
      rw (publish, at, made)
        (count_push-Runs rest n reply then rounds
          (λ k. publish-Runs rounds ((index + 1) % length channels) (seq + 1) then k next))

-- A publisher whose channels are what splitCSV has found, and whose payload size is not below zero
-- and can be allocated, never panics: it pushes in every round of its run, or ends with one failure
-- counted.
pub publisher_runs :
    (fmt : Format) (value : Bytes) (dial : Option Peer) (worker_id size rounds : ℕ)
    → fmt.allocates size ≡ true
    → (m : Counters) × (publisher fmt (split_csv value) dial worker_id (pos size) rounds ≡ some m)
      × Ran no_counts rounds m
unfolding publisher Runs
publisher_runs fmt value none worker_id size rounds room =
    (_, refl, gave_up (omega arith) refl refl)
publisher_runs fmt value (some peer) worker_id size rounds room =
    let filled = length-split_csv value in
    publish-Runs fmt (split_csv value) filled worker_id size room rounds
      (worker_id % length (split_csv value)) 0 (dialled peer) no_counts (mod-lt worker_id filled)
