-- ===== src/Broker/Waiters.antt =====
-- broker.go: the list of blocked pops, `waiters []*waiter`.
use atomic_queue.Prelude.{
  ℕ, zero, suc, ◌+◌, ◌-◌, ◌<◌, ◌≡◌, refl, ap, Bool, true, false, Bool-cases, inl, inr, Option, none,
  some, List, [], ◌∷◌, ◌++◌, length, take, drop, total, All, take-length-append, get_elem?,
  bytes_eq, ◌==◌, arith, if◌then◌else◌,
}
use atomic_queue.Fault.{Bytes}

-- `waiter`. The pointer to it and its reply channel are `id`.
pub record Waiter : Type 0 where
  pub id : ℕ
  pub channels : List Bytes

-- `waiterMatches`, over the channels of the waiter.
unfoldable pub waiter_matches : List Bytes → Bytes → Bool
waiter_matches [] channel = false
waiter_matches (candidate ∷ rest) channel =
    if bytes_eq candidate channel then true else waiter_matches rest channel

-- The loop of `push` over the waiters: the first that matches, and its index.
unfoldable pub find_waiter : Bytes → ℕ → List Waiter → Option (ℕ × Waiter)
find_waiter channel i [] = none
find_waiter channel i (w ∷ ws) =
    if waiter_matches w.channels channel then some (i, w) else find_waiter channel (i + 1) ws

-- `removeWaiterAtLocked`: `copy` moves what stands behind `i` one place down and leaves the last
-- element where it was, and the slice then loses its last place.
unfoldable pub remove_waiter_at : ℕ → List Waiter → List Waiter
remove_waiter_at i ws =
    let last = length ws - 1 in take last (take i ws ++ (drop (i + 1) ws ++ drop last ws))

-- The loop of `removeWaiterLocked`: the index of the waiter.
unfoldable pub index_of_waiter : ℕ → ℕ → List Waiter → Option ℕ
index_of_waiter id i [] = none
index_of_waiter id i (w ∷ ws) = if w.id == id then some i else index_of_waiter id (i + 1) ws

unfoldable pub remove_waiter : ℕ → List Waiter → Bool × List Waiter
remove_waiter id ws = elim (index_of_waiter id 0 ws) [
  | none ↦ (false, ws)
  | some i ↦ (true, remove_waiter_at i ws)
]

-- The list without the element at an index.
abbrev pub erase_idx : List Waiter → ℕ → List Waiter
erase_idx [] i = []
erase_idx (w ∷ ws) zero = ws
erase_idx (w ∷ ws) (suc i) = w ∷ erase_idx ws i

pub remove_waiter_at-erase_idx :
    (i : ℕ) (ws : List Waiter) → i < length ws → remove_waiter_at i ws ≡ erase_idx ws i
unfolding remove_waiter_at
remove_waiter_at-erase_idx i [] h = absurd (omega arith)
remove_waiter_at-erase_idx zero (w ∷ ws) h =
    let one : 0 + 1 ≡ suc 0 = omega arith in
    let last : suc (length ws) - 1 ≡ length ws = omega arith in
    rw (one, last) (take-length-append ws _)
remove_waiter_at-erase_idx (suc i) (w ∷ ws) h =
    let next : suc i + 1 ≡ suc (i + 1) = omega arith in
    let last : suc (length ws) - 1 ≡ suc (length ws - 1) = omega arith in
    rw (next, last) (ap (◌∷◌ w) (remove_waiter_at-erase_idx i ws (omega arith)))

pub total-erase_idx :
    (f : Waiter → ℕ) (ws : List Waiter) (i : ℕ) (w : Waiter)
    → get_elem? ws i ≡ some w
    → total f ws ≡ f w + total f (erase_idx ws i)
total-erase_idx f [] i w h = ground arith
total-erase_idx f (v ∷ ws) zero w h = ground arith
total-erase_idx f (v ∷ ws) (suc i) w h = omega (arith, total-erase_idx f ws i w h)

pub All-erase_idx {κ} :
    (P : Waiter → Type κ) (ws : List Waiter) (i : ℕ) → All P ws → All P (erase_idx ws i)
All-erase_idx P [] i h = tt
All-erase_idx P (v ∷ ws) zero h = h.1
All-erase_idx P (v ∷ ws) (suc i) h = (h.0, All-erase_idx P ws i h.1)

pub lt-length : (ws : List Waiter) (i : ℕ) (w : Waiter) → get_elem? ws i ≡ some w → i < length ws
lt-length [] i w h = cc
lt-length (v ∷ ws) zero w h = omega arith
lt-length (v ∷ ws) (suc i) w h = omega (arith, lt-length ws i w h)

-- No waiter of the list wants the channel.
abbrev pub NoTaker : Bytes → List Waiter → Type 0
NoTaker c = All (λ w. waiter_matches w.channels c ≡ false)

-- What the loop of `push` finds, read against the list: the waiter at that index, which matches,
-- with none before it that does; or nothing, and then no waiter matches.
abbrev pub Found : Bytes → ℕ → List Waiter → Option (ℕ × Waiter) → Type 0
Found c start ws none = NoTaker c ws
Found c start ws (some (j, w)) =
    (i : ℕ) × (j ≡ start + i)
    × (get_elem? ws i ≡ some w)
    × (waiter_matches w.channels c ≡ true)
    × NoTaker c (take i ws)

pub find_waiter-Found :
    (c : Bytes) (start : ℕ) (ws : List Waiter) → Found c start ws (find_waiter c start ws)
unfolding find_waiter
find_waiter-Found c start [] = tt
find_waiter-Found c start (w ∷ ws) = elim (Bool-cases (waiter_matches w.channels c)) [
  | inl e ↦ rw e (0, omega arith, refl, e, tt)
  | inr e ↦
      rw e
        (later c start w ws e (find_waiter c (start + 1) ws) (find_waiter-Found c (start + 1) ws))
]
  where
    later :
        (c : Bytes) (start : ℕ) (w : Waiter) (ws : List Waiter)
        → waiter_matches w.channels c ≡ false
        → (r : Option (ℕ × Waiter)) → Found c (start + 1) ws r
        → Found c start (w ∷ ws) r
    later c start w ws e none h = (e, h)
    later c start w ws e (some (j, v)) h = (suc h.0, omega (arith, h.1), h.2, h.3, (e, h.4))

-- Removal by identity: some waiter of that identity leaves, or there is none.
abbrev pub Indexed : ℕ → ℕ → List Waiter → Option ℕ → Type 0
Indexed id start ws none = All (λ w. (w.id == id) ≡ false) ws
Indexed id start ws (some j) =
    (i : ℕ) × (w : Waiter) × (j ≡ start + i) × (get_elem? ws i ≡ some w) × (w.id ≡ id)

pub index_of_waiter-Indexed :
    (id start : ℕ) (ws : List Waiter) → Indexed id start ws (index_of_waiter id start ws)
unfolding index_of_waiter
index_of_waiter-Indexed id start [] = tt
index_of_waiter-Indexed id start (w ∷ ws) = elim (Bool-cases (w.id == id)) [
  | inl e ↦ rw e (0, w, omega arith, refl, ground arith)
  | inr e ↦ rw e (
      later id start w ws e (index_of_waiter id (start + 1) ws)
        (index_of_waiter-Indexed id (start + 1) ws))
]
  where
    later :
        (id start : ℕ) (w : Waiter) (ws : List Waiter)
        → (w.id == id) ≡ false
        → (r : Option ℕ) → Indexed id (start + 1) ws r
        → Indexed id start (w ∷ ws) r
    later id start w ws e none h = (e, h)
    later id start w ws e (some j) h = (suc h.0, h.1, omega (arith, h.2), h.3, h.4)
