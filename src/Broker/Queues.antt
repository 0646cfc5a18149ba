-- ===== src/Broker/Queues.antt =====
-- broker.go: `queues map[string][][]byte`, a Go map as a list of entries. A missing key reads as
-- the empty queue.
use atomic_queue.Prelude.{
  ℕ, ◌+◌, ◌≡◌, refl, ◌≢◌, Bool, false, ◌||◌, Bool-cases, List, [], ◌∷◌, total, inl, inr, bytes_eq,
  bytes_eq_refl, eq_of_bytes_eq, arith, if◌then◌else◌,
}
use atomic_queue.Fault.{Bytes}

-- A message: `delivery`.
pub record Delivery : Type 0 where
  pub channel : Bytes
  pub payload : Bytes

abbrev pub message : Bytes → Bytes → Delivery
message channel payload = record { channel = channel; payload = payload }

abbrev pub Queues : Type 0
Queues = List (Bytes × List Bytes)

-- `b.queues[channel]`
unfoldable pub get_queue : Bytes → Queues → List Bytes
get_queue c [] = []
get_queue c ((k, q) ∷ m) = if bytes_eq k c then q else get_queue c m

-- `b.queues[channel] = queue`
unfoldable pub put_queue : Bytes → List Bytes → Queues → Queues
put_queue c q [] = (c, q) ∷ []
put_queue c q ((k, old) ∷ m) = if bytes_eq k c then (k, q) ∷ m else (k, old) ∷ put_queue c q m

-- `delete(b.queues, channel)`
unfoldable pub delete_queue : Bytes → Queues → Queues
delete_queue c [] = []
delete_queue c ((k, q) ∷ m) =
    let rest = delete_queue c m in if bytes_eq k c then rest else (k, q) ∷ rest

unfoldable pub has_key : Bytes → Queues → Bool
has_key c [] = false
has_key c ((k, q) ∷ m) = bytes_eq k c || has_key c m

-- Each key stands once, and no entry is empty.
abbrev pub IsTidy : Queues → Type 0
IsTidy [] = Unit {0}
IsTidy ((k, q) ∷ m) = (q ≢ []) × (has_key k m ≡ false) × IsTidy m

pub get_queue-put_queue :
    (c d : Bytes) (q : List Bytes) (m : Queues)
    → get_queue d (put_queue c q m) ≡ (if bytes_eq c d then q else get_queue d m)
unfolding get_queue put_queue
get_queue-put_queue c d q [] = refl
get_queue-put_queue c d q ((k, old) ∷ m) = ground (
  arith,
  eq_of_bytes_eq k c,
  eq_of_bytes_eq k d,
  eq_of_bytes_eq c d,
  bytes_eq_refl c,
  get_queue-put_queue c d q m,
)

pub get_queue-delete_queue :
    (c d : Bytes) (m : Queues)
    → get_queue d (delete_queue c m) ≡ (if bytes_eq c d then [] else get_queue d m)
unfolding get_queue delete_queue
get_queue-delete_queue c d [] = ground arith
get_queue-delete_queue c d ((k, q) ∷ m) = ground (
  arith,
  eq_of_bytes_eq k c,
  eq_of_bytes_eq k d,
  eq_of_bytes_eq c d,
  bytes_eq_refl c,
  get_queue-delete_queue c d m,
)

has_key-put_queue :
    (c d : Bytes) (q : List Bytes) (m : Queues)
    → has_key d (put_queue c q m) ≡ (bytes_eq c d || has_key d m)
unfolding has_key put_queue
has_key-put_queue c d q [] = ground arith
has_key-put_queue c d q ((k, old) ∷ m) =
    ground (arith, eq_of_bytes_eq k c, bytes_eq_refl c, has_key-put_queue c d q m)

has_key-delete_queue :
    (c d : Bytes) (m : Queues) → has_key d m ≡ false → has_key d (delete_queue c m) ≡ false
unfolding has_key delete_queue
has_key-delete_queue c d [] h = refl
has_key-delete_queue c d ((k, q) ∷ m) h = ground (arith, has_key-delete_queue c d m)

pub put_queue-IsTidy :
    (c : Bytes) (q : List Bytes) (m : Queues) → q ≢ [] → IsTidy m → IsTidy (put_queue c q m)
unfolding put_queue has_key
put_queue-IsTidy c q [] h t = (h, refl, tt)
put_queue-IsTidy c q ((k, old) ∷ m) h t = elim (Bool-cases (bytes_eq k c)) [
  | inl e ↦ rw e (h, t.1, t.2)
  | inr e ↦ rw e (
    t.0,
    ground (arith, has_key-put_queue c k q m, eq_of_bytes_eq c k, bytes_eq_refl c, t.1),
    put_queue-IsTidy c q m h t.2,
  )
]

pub delete_queue-IsTidy : (c : Bytes) (m : Queues) → IsTidy m → IsTidy (delete_queue c m)
unfolding delete_queue
delete_queue-IsTidy c [] t = tt
delete_queue-IsTidy c ((k, q) ∷ m) t = elim (Bool-cases (bytes_eq k c)) [
  | inl e ↦ rw e (delete_queue-IsTidy c m t.2)
  | inr e ↦ rw e (t.0, has_key-delete_queue c k m t.1, delete_queue-IsTidy c m t.2)
]

-- The sum of a weight of messages over all that is queued.
abbrev pub on_channel : (Delivery → ℕ) → Bytes → Bytes → ℕ
on_channel f c payload = f (record { channel = c; payload = payload })

unfoldable pub queued_weight : (Delivery → ℕ) → Queues → ℕ
queued_weight f [] = 0
queued_weight f ((k, q) ∷ m) = total (on_channel f k) q + queued_weight f m

pub queued_weight-put_queue :
    (f : Delivery → ℕ) (c : Bytes) (q : List Bytes) (m : Queues)
    → queued_weight f (put_queue c q m) + total (on_channel f c) (get_queue c m)
      ≡ queued_weight f m + total (on_channel f c) q
unfolding queued_weight put_queue get_queue
queued_weight-put_queue f c q [] = omega arith
queued_weight-put_queue f c q ((k, old) ∷ m) = elim (Bool-cases (bytes_eq k c)) [
  | inl e ↦ rw (eq_of_bytes_eq k c e, bytes_eq_refl c) (omega arith)
  | inr e ↦ rw e (omega (arith, queued_weight-put_queue f c q m))
]

absent :
    (f : Delivery → ℕ) (c : Bytes) (m : Queues)
    → has_key c m ≡ false
    → queued_weight f (delete_queue c m) ≡ queued_weight f m
unfolding has_key delete_queue queued_weight
absent f c [] h = refl
absent f c ((k, q) ∷ m) h = ground (arith, absent f c m)

pub queued_weight-delete_queue :
    (f : Delivery → ℕ) (c : Bytes) (m : Queues)
    → IsTidy m
    → queued_weight f (delete_queue c m) + total (on_channel f c) (get_queue c m)
      ≡ queued_weight f m
unfolding queued_weight delete_queue get_queue
queued_weight-delete_queue f c [] t = omega arith
queued_weight-delete_queue f c ((k, q) ∷ m) t = elim (Bool-cases (bytes_eq k c)) [
  | inl e ↦
      rw (eq_of_bytes_eq k c e, bytes_eq_refl c)
        (omega (arith, absent f c m (rw (eq_of_bytes_eq k c e) at t.1)))
  | inr e ↦ rw e (omega (arith, queued_weight-delete_queue f c m t.2))
]
