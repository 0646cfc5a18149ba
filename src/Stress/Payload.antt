-- ===== src/Stress/Payload.antt =====
-- stress.go: makeStressPayload.
use atomic_queue.Prelude.{
  ℕ, zero, suc, ◌+◌, ◌-◌, ◌*◌, ◌/◌, ◌%◌, ◌^◌, ◌≤◌, ◌<◌, ◌≡◌, refl, Bool-cases, inl, inr, [], ◌∷◌,
  ◌++◌, length, length-append, take, ltb, leb, arith, if◌then◌else◌, true, Option, none, some, ◌&&◌,
}
use atomic_queue.Fault.{Bytes}
use atomic_queue.Fault.Text.{Format, codes}

-- `hex.EncodeToString`
abbrev pub hex_digit : ℕ → ℕ
hex_digit d = if ltb d 10 then b'0' + d else b'a' + (d - 10)

unfoldable pub hex_encode : Bytes → Bytes
hex_encode [] = []
hex_encode (b ∷ bs) = hex_digit (b / 16) ∷ hex_digit (b % 16) ∷ hex_encode bs

-- The bytes of `raw` from index `k` on: each number of the generator gives eight, the lowest first.
unfoldable pub raw_bytes : (uint64 : ℕ → ℕ) → ℕ → ℕ → Bytes
raw_bytes uint64 k zero = []
raw_bytes uint64 k (suc n) = uint64 (k / 8) / 2 ^ (8 * (k % 8)) % 256 ∷ raw_bytes uint64 (suc k) n

abbrev pub payload_prefix : Format → ℕ → ℕ → Bytes
payload_prefix fmt worker_id seq =
    codes "worker=" ++ (fmt.decimal worker_id ++ (codes " seq=" ++ (fmt.decimal seq ++ codes " ")))

-- None is the panic of `make` for a slice that cannot be had.
module _ (fmt : Format) (uint64 : ℕ → ℕ) where
  unfoldable pub make_stress_payload : (worker_id seq size : ℕ) → Option Bytes
  unfolding hex_encode raw_bytes
  make_stress_payload worker_id seq size =
      let prefix = payload_prefix fmt worker_id seq in
      let room = size - length prefix in
      let raw_len = (room + 1) / 2 in
      let body = hex_encode (raw_bytes uint64 0 raw_len) in
      if leb size (length prefix)
      then some (take size prefix)
      else if fmt.allocates raw_len && fmt.allocates (2 * raw_len)
      then some (prefix ++ (if ltb room (length body) then take room body else body))
      else none

length-hex_encode : (bs : Bytes) → length (hex_encode bs) ≡ 2 * length bs
unfolding hex_encode
length-hex_encode [] = refl
length-hex_encode (b ∷ bs) = omega (arith, length-hex_encode bs)

length-raw_bytes : (u : ℕ → ℕ) (k n : ℕ) → length (raw_bytes u k n) ≡ n
unfolding raw_bytes
length-raw_bytes u k zero = refl
length-raw_bytes u k (suc n) = omega (arith, length-raw_bytes u (suc k) n)

length-cut : (n : ℕ) (bs : Bytes) → n ≤ length bs → length (take n bs) ≡ n
length-cut zero bs h = refl
length-cut (suc n) [] h = absurd (omega arith)
length-cut (suc n) (b ∷ bs) h = omega (arith, length-cut n bs (omega arith))

length-body :
    (room : ℕ) (body : Bytes)
    → length body ≡ 2 * ((room + 1) / 2)
    → length (if ltb room (length body) then take room body else body) ≡ room
length-body room body h = elim (Bool-cases (ltb room (length body))) [
  | inl e ↦ rw e (length-cut room body (ground arith))
  | inr e ↦ rw e (ground arith)
]

-- When every slice of at most one byte more than the size can be had: there is a payload, and it
-- has exactly the size asked for.
pub stress_payload_made :
    (fmt : Format) (uint64 : ℕ → ℕ) (worker_id seq size : ℕ)
    → ((n : ℕ) → n ≤ size + 1 → fmt.allocates n ≡ true)
    → (p : Bytes) × (make_stress_payload fmt uint64 worker_id seq size ≡ some p) × (length p ≡ size)
unfolding make_stress_payload
stress_payload_made fmt uint64 worker_id seq size had =
    let prefix = payload_prefix fmt worker_id seq in
    let room = size - length prefix in
    let raw_len = (room + 1) / 2 in
    let body = hex_encode (raw_bytes uint64 0 raw_len) in
    elim (Bool-cases (leb size (length prefix))) [
      | inl e ↦ (take size prefix, rw e refl, length-cut size prefix (ground arith))
      | inr e ↦
          let whole = length-body room body (rw (length-hex_encode, length-raw_bytes) refl) in
          let more : length prefix < size = ground arith in
          (
            prefix ++ (if ltb room (length body) then take room body else body),
            rw (e, had raw_len (omega arith), had (2 * raw_len) (omega arith)) refl,
            rw (length-append, whole) (omega arith),
          )
    ]
