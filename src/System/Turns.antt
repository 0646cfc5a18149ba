-- ===== src/System/Turns.antt =====
-- broker.go: the order of the waiters. Identities are given in the order in which pops begin to wait.
use mathlib.Core.Option.{some-injective}
use atomic_queue.Prelude.{
  ℕ, zero, suc, ◌+◌, ◌≤◌, ◌<◌, ◌^◌, ◌≡◌, refl, sym, ◌∙◌, ap, Bool, true, false, some, List, [], ◌∷◌,
  ◌++◌, length, length-set, length-append, take, All, All-append, All-get_elem, get_elem?, arith,
}
use atomic_queue.Fault.{Bytes}
use atomic_queue.Broker.Waiters.{Waiter, waiter_matches, erase_idx, All-erase_idx, NoTaker}
use atomic_queue.Broker.Ops.{Broker, handed, push_turn, pop_turn, cancel_turn, enlist, new_broker}
use atomic_queue.Broker.Valid.{IsValid}
use atomic_queue.Broker.Cases.{to_waiter, to_queue, must_wait, push_turn-Pushes}
use atomic_queue.Broker.PopCases.{
  takes, gives_up, waits, pop_turn-Pops, leaves, had_left, cancel_turn-Cancels,
}
use atomic_queue.System.{
  Phase, pushing, Replies, Thread, System, make_reply, Move, push_lock, send, wake, push_expire,
  pop_lock, receive, pop_expire, cancel_lock, last_receive, late_receive, nothing_late, Step,
  call_push, call_pop, finish, run, Reach, start, later,
}
use atomic_queue.System.Grows.{PhaseOk}
use atomic_queue.System.Invariant.{SystemOk, Reach-SystemOk}

-- The identities go up along the list, and stay below `n`.
abbrev pub IsOrdered : ℕ → List Waiter → Type 0
IsOrdered n [] = Unit {0}
IsOrdered n (w ∷ ws) = (w.id < n) × All (λ v. w.id < v.id) ws × IsOrdered n ws

IsOrdered-erase_idx :
    (n : ℕ) (ws : List Waiter) (i : ℕ) → IsOrdered n ws → IsOrdered n (erase_idx ws i)
IsOrdered-erase_idx n [] i h = tt
IsOrdered-erase_idx n (w ∷ ws) zero (below, first, h) = h
IsOrdered-erase_idx n (w ∷ ws) (suc i) (below, first, h) =
    (below, All-erase_idx _ ws i first, IsOrdered-erase_idx n ws i h)

IsOrdered-snoc :
    (n : ℕ) (ws : List Waiter) (w : Waiter)
    → w.id ≡ n
    → IsOrdered n ws
    → IsOrdered (n + 1) (ws ++ w ∷ [])
IsOrdered-snoc n [] w e h = (omega arith, tt, tt)
IsOrdered-snoc n (v ∷ ws) w e (below, first, h) =
    (omega arith, All-append _ ws (w ∷ []) first (omega arith, tt), IsOrdered-snoc n ws w e h)

push-IsOrdered :
    (n : ℕ) (b : Broker) (c p : Bytes)
    → IsValid b
    → length p ≤ b.max_bytes
    → IsOrdered n b.waiters
    → IsOrdered n (push_turn b c p).1.waiters
push-IsOrdered n b c p v small h = elim (push_turn-Pushes b c p v small) [
  | to_waiter i w at fits first r ↦ rw r (IsOrdered-erase_idx n b.waiters i h)
  | to_queue none_wait room r ↦ rw r h
  | must_wait none_wait full r ↦ rw r h
]

pop-IsOrdered :
    (rs : Replies) (b : Broker) (done : Bool) (cs : List Bytes)
    → IsValid b
    → IsOrdered (length rs) b.waiters
    → IsOrdered
        (length (make_reply (pop_turn b done cs (length rs)).0 rs))
        (pop_turn b done cs (length rs)).1.waiters
unfolding make_reply enlist
pop-IsOrdered rs b done cs v h = elim (pop_turn-Pops b done cs (length rs) v) [
  | takes c p rest before after split dry at r ↦ rw r h
  | gives_up dry e r ↦ rw r h
  | waits dry e r ↦
      rw (r, length-append rs ([] ∷ [])) (IsOrdered-snoc (length rs) b.waiters _ refl h)
]

cancel-IsOrdered :
    (n : ℕ) (b : Broker) (id : ℕ) → IsOrdered n b.waiters → IsOrdered n (cancel_turn b id).1.waiters
cancel-IsOrdered n b id h = elim (cancel_turn-Cancels b id) [
  | leaves i w at same r ↦ rw r (IsOrdered-erase_idx n b.waiters i h)
  | had_left others r ↦ rw r h
]

abbrev WaitersOk : Broker → Replies → Type 0
WaitersOk b rs = IsOrdered (length rs) b.waiters

Move-IsOrdered :
    {b : Broker} {rs : Replies} {done : Bool} {phase : Phase} {b' : Broker} {rs' : Replies}
    {phase' : Phase}
    → Move b rs done phase b' rs' phase'
    → IsValid b
    → PhaseOk b phase
    → WaitersOk b rs
    → WaitersOk b' rs'
Move-IsOrdered {b} {rs} (push_lock {c} {p}) v small h = push-IsOrdered (length rs) b c p v small h
Move-IsOrdered {b} {rs} {done} (pop_lock {cs}) v ok h = pop-IsOrdered rs b done cs v h
Move-IsOrdered {b} {rs} (cancel_lock {id}) v ok h = cancel-IsOrdered (length rs) b id h
Move-IsOrdered {rs} (send {id} {d} e) v ok h = rw (length-set rs id (d ∷ [])) h
Move-IsOrdered {rs} (receive {id} {q = q} e) v ok h = rw (length-set rs id q) h
Move-IsOrdered {rs} (last_receive {id} {q = q} e) v ok h = rw (length-set rs id q) h
Move-IsOrdered {rs} (late_receive {id} {q = q} e) v ok h = rw (length-set rs id q) h
Move-IsOrdered (wake e) v ok h = h
Move-IsOrdered (push_expire e) v ok h = h
Move-IsOrdered (pop_expire e) v ok h = h
Move-IsOrdered (nothing_late e) v ok h = h

Step-IsOrdered :
    {m q : ℕ} {s t : System}
    → Step s t
    → SystemOk m q s
    → WaitersOk s.broker s.replies
    → WaitersOk t.broker t.replies
Step-IsOrdered (call_push c p) k h = h
Step-IsOrdered (call_pop cs) k h = h
Step-IsOrdered (finish i t e) k h = h
Step-IsOrdered {s = s} (run i t e mv) k h =
    Move-IsOrdered mv k.valid (All-get_elem _ s.threads i e k.locals) h

Reach-IsOrdered :
    {m q : ℕ} {s : System} → q + m < 2 ^ 63 → Reach m q s → WaitersOk s.broker s.replies
unfolding new_broker
Reach-IsOrdered small start = tt
Reach-IsOrdered small (later r st) =
    Step-IsOrdered st (Reach-SystemOk small r) (Reach-IsOrdered small r)

-- Whom a channel's first waiter comes before.
first_is_oldest :
    (n : ℕ) (c : Bytes) (ws : List Waiter) (i : ℕ) (w : Waiter)
    → IsOrdered n ws
    → get_elem? ws i ≡ some w
    → NoTaker c (take i ws)
    → (j : ℕ) (v : Waiter) → get_elem? ws j ≡ some v
    → waiter_matches v.channels c ≡ true
    → w.id ≤ v.id
first_is_oldest n c [] i w h at first j v there fits = cc
first_is_oldest n c (x ∷ ws) zero w h at first zero v there fits =
    let same : w ≡ v = some-injective _ _ (sym at ∙ there) in rw same (omega arith)
first_is_oldest n c (x ∷ ws) zero w (below, above, h) at first (suc j) v there fits =
    let same : x ≡ w = some-injective _ _ at in
    let after : x.id < v.id = All-get_elem _ ws j there above in
    let it : w.id < v.id = rw same at after in omega (arith, it)
first_is_oldest n c (x ∷ ws) (suc i) w h at first zero v there fits =
    let same : x ≡ v = some-injective _ _ there in
    let not_it : waiter_matches v.channels c ≡ false = rw same at first.0 in absurd cc
first_is_oldest n c (x ∷ ws) (suc i) w (below, above, h) at first (suc j) v there fits =
    first_is_oldest n c ws i w h at first.1 j v there fits

-- In every reachable state, with limits whose sum is below 2^63: when a push that is about to take
-- the mutex will hand its message to a waiter, then that waiter is in the list and wants the
-- channel, and of all the waiters of the list that want it, it is the one whose pop has begun to
-- wait first.
pub oldest_pop_served :
    {max_bytes max_queued_bytes : ℕ} {s : System}
    → max_queued_bytes + max_bytes < 2 ^ 63
    → Reach max_bytes max_queued_bytes s
    → (k : ℕ) (t : Thread) (c p : Bytes) (id : ℕ) → get_elem? s.threads k ≡ some t
    → t.phase ≡ pushing c p
    → (push_turn s.broker c p).0 ≡ handed id
    → (i : ℕ) × (w : Waiter) × (get_elem? s.broker.waiters i ≡ some w)
      × (w.id ≡ id)
      × (waiter_matches w.channels c ≡ true)
      × ((j : ℕ) (v : Waiter)
          → get_elem? s.broker.waiters j ≡ some v
          → waiter_matches v.channels c ≡ true
          → id ≤ v.id)
oldest_pop_served {s = s} small r k t c p id at e hands =
    let ok = Reach-SystemOk small r in
    let fits : PhaseOk s.broker (pushing c p) = rw e at (All-get_elem _ s.threads k at ok.locals) in
    elim (push_turn-Pushes s.broker c p ok.valid fits) [
      | to_waiter i w here wants first turn ↦
          let turns : handed w.id ≡ handed id = sym (ap (λ r. r.0) turn) ∙ hands in
          let same : w.id ≡ id = cc in
          (
            i,
            w,
            here,
            same,
            wants,
            λ j v there likes. rw⁻¹ same (
                first_is_oldest _ c s.broker.waiters i w (Reach-IsOrdered small r) here first j v
                  there likes),
          )
      | to_queue none_wait room turn ↦
          absurd (let turns : _ ≡ handed id = sym (ap (λ r. r.0) turn) ∙ hands in cc)
      | must_wait none_wait full turn ↦
          absurd (let turns : _ ≡ handed id = sym (ap (λ r. r.0) turn) ∙ hands in cc)
    ]
