-- ===== src/System/Replies.antt =====
-- What becomes of the reply channels: a send never blocks, a pop that times out leaves no message
-- behind, and a pop whose waiter was taken gets its message.
use atomic_queue.Prelude.{
  ℕ, zero, suc, ◌+◌, ◌≤◌, ◌<◌, ◌^◌, ◌≡◌, refl, ◌⊎◌, inl, inr, true, some, List, [], ◌∷◌, ◌++◌,
  length, total, total-append, le-or-lt, le-total, All-get_elem, get_elem?, set, arith,
}
use atomic_queue.Fault.{Bytes}
use atomic_queue.Broker.Ops.{Broker, new_broker}
use atomic_queue.System.{
  Phase, checking, Thread, Replies, System, start_push, start_pop, Step, call_push, call_pop,
  finish, run, called, calling, init, Reach, start, later,
}
use atomic_queue.System.Invariant.{SystemOk, Reach-SystemOk}
use atomic_queue.System.Conservation.{over_threads, over_threads-set}
use atomic_queue.System.Tickets.{lists, sends, awaits, receives, checks, Ticket, Move-Ticket}
use atomic_queue.System.Buffers.{buffer_len}

-- The reply channel `id` in the whole system.
pub record ReplyOk (id : ℕ) (s : System) : Type 0 where
  -- its owner has its waiter on the list, or a message on the way or in the buffer
  pub paired :
      total (lists id) s.broker.waiters
        + over_threads (sends id) s.threads
        + buffer_len id s.replies
      ≡ over_threads (awaits id) s.threads + over_threads (receives id) s.threads
  -- no two goroutines own it
  pub single :
      over_threads (awaits id) s.threads
        + over_threads (receives id) s.threads
        + over_threads (checks id) s.threads
      ≤ 1
  -- nobody owns it before it is made
  pub fresh :
      length s.replies ≤ id
      → over_threads (awaits id) s.threads
          + over_threads (receives id) s.threads
          + over_threads (checks id) s.threads
        ≡ 0
  -- a pop receives only after its waiter has left the list
  pub apart : over_threads (receives id) s.threads + total (lists id) s.broker.waiters ≤ 1

pub buffer_len-zero :
    (id : ℕ) (rs : Replies) → id < length rs → buffer_len id rs ≡ 0 → get_elem? rs id ≡ some []
unfolding buffer_len
buffer_len-zero id [] h e = absurd (omega arith)
buffer_len-zero zero ([] ∷ rs) h e = refl
buffer_len-zero zero ((d ∷ q) ∷ rs) h e = absurd (omega arith)
buffer_len-zero (suc id) (q ∷ rs) h e = buffer_len-zero id rs (omega arith) e

pub le-over_threads :
    (g : Phase → ℕ) (ts : List Thread) (i : ℕ) (t : Thread)
    → get_elem? ts i ≡ some t
    → g t.phase ≤ over_threads g ts
le-over_threads g ts i t e = le-total (λ (t : Thread). g t.phase) ts i t e

-- A pop that looks into its buffer a last time finds nothing there.
pub checking-empty :
    (id : ℕ) (s : System) (i : ℕ) (t : Thread)
    → ReplyOk id s
    → get_elem? s.threads i ≡ some t
    → t.phase ≡ checking id
    → get_elem? s.replies id ≡ some []
checking-empty id s i t k e at =
    let here : checks id t.phase ≡ 1 = rw at (ground arith) in
    let one : 1 ≤ over_threads (checks id) s.threads =
      omega (arith, here, le-over_threads (checks id) s.threads i t e) in
    let made : id < length s.replies = elim (le-or-lt (length s.replies) id) [
      | inl early ↦ absurd (omega (arith, one, k.fresh early))
      | inr h ↦ h
    ] in
    buffer_len-zero id s.replies made (omega (arith, k.paired, k.single))

-- The totals of the four kinds of goroutine after one of them has moved.
module _ (id : ℕ) (s : System) (i : ℕ) (t u : Thread) (b : Broker) (rs : Replies)
    (e : get_elem? s.threads i ≡ some t) (k : ReplyOk id s)
    (tk : Ticket id s.broker s.replies t.phase b rs u.phase) where
  abbrev moved : System
  moved = record { broker = b; replies = rs; threads = set s.threads i u }

  moved_paired :
      total (lists id) b.waiters + over_threads (sends id) moved.threads + buffer_len id rs
      ≡ over_threads (awaits id) moved.threads + over_threads (receives id) moved.threads
  moved_paired = omega (
    arith,
    k.paired,
    tk.kept,
    over_threads-set (sends id) s.threads i t u e,
    over_threads-set (awaits id) s.threads i t u e,
    over_threads-set (receives id) s.threads i t u e,
  )

  owners : (System → ℕ)
  owners v =
      over_threads (awaits id) v.threads
      + over_threads (receives id) v.threads
      + over_threads (checks id) v.threads

  own : Phase → ℕ
  own phase = awaits id phase + receives id phase + checks id phase

  owners-moved : owners moved + own t.phase ≡ owners s + own u.phase
  unfolding owners own
  owners-moved = omega (
    arith,
    over_threads-set (awaits id) s.threads i t u e,
    over_threads-set (receives id) s.threads i t u e,
    over_threads-set (checks id) s.threads i t u e,
  )

  -- Either no new owner comes up, or the channel has just been made.
  owners_change :
      (own u.phase ≤ own t.phase)
      ⊎ ((length s.replies ≡ id) × (length rs ≡ id + 1) × (own u.phase ≡ 1) × (own t.phase ≡ 0))
  unfolding own
  owners_change = elim tk.change [
    | inl usual ↦ inl (omega arith)
    | inr (inl taken) ↦ inl (omega arith)
    | inr (inr made) ↦ inr (omega arith)
  ]

  moved-ReplyOk : ReplyOk id moved
  unfolding owners own
  moved-ReplyOk = record {
    paired = moved_paired;
    single = elim owners_change [
      | inl fewer ↦ omega (arith, k.single, owners-moved)
      | inr (h, made, one, none_before) ↦ omega (arith, k.fresh (omega arith), owners-moved)
    ];
    fresh = λ h. elim owners_change [
      | inl fewer ↦ omega (arith, k.fresh (omega (arith, tk.longer)), owners-moved)
      | inr (h', made, one, none_before) ↦ absurd (omega arith)
    ];
    apart = elim tk.change [
      | inl usual ↦ omega (arith, k.apart, over_threads-set (receives id) s.threads i t u e)
      | inr (inl taken) ↦ omega (
        arith,
        k.single,
        over_threads-set (awaits id) s.threads i t u e,
        over_threads-set (receives id) s.threads i t u e,
      )
      | inr (inr made) ↦
          omega (
            arith,
            k.fresh (omega arith),
            k.paired,
            over_threads-set (receives id) s.threads i t u e,
          )
    ];
  }

-- A phase in which no reply channel is owned or about to be sent to.
abbrev IsClear : Phase → Type 0
IsClear phase =
    (id : ℕ)
    → (sends id phase ≡ 0) × (awaits id phase ≡ 0) × (receives id phase ≡ 0) × (checks id phase ≡ 0)

start_push-IsClear : (b : Broker) (c p : Bytes) → IsClear (start_push b c p)
unfolding start_push
start_push-IsClear b c p id = ground arith

start_pop-IsClear : (cs : List Bytes) → IsClear (start_pop cs)
unfolding start_pop
start_pop-IsClear cs id = ground arith

calling-total :
    (g : Phase → ℕ) (ts : List Thread) (phase : Phase)
    → g phase ≡ 0
    → over_threads g (ts ++ called phase ∷ []) ≡ over_threads g ts
calling-total g ts phase h =
    omega (arith, total-append (λ (t : Thread). g t.phase) ts (called phase ∷ []))

calling-ReplyOk :
    (id : ℕ) (s : System) (phase : Phase)
    → IsClear phase
    → ReplyOk id s
    → ReplyOk id (calling s phase)
calling-ReplyOk id s phase clear k =
    let (h₁, h₂, h₃, h₄) = clear id in
    let e₁ = calling-total (sends id) s.threads phase h₁ in
    let e₂ = calling-total (awaits id) s.threads phase h₂ in
    let e₃ = calling-total (receives id) s.threads phase h₃ in
    let e₄ = calling-total (checks id) s.threads phase h₄ in
    record {
      paired = omega (arith, k.paired, e₁, e₂, e₃);
      single = omega (arith, k.single, e₂, e₃, e₄);
      fresh = λ h. omega (arith, k.fresh, e₂, e₃, e₄);
      apart = omega (arith, k.apart, e₃);
    }

same-Ticket : (id : ℕ) (b : Broker) (rs : Replies) (phase : Phase) → Ticket id b rs phase b rs phase
same-Ticket id b rs phase = record {
  kept = refl;
  longer = omega arith;
  change = inl (omega arith, omega arith);
}

Step-ReplyOk :
    {m q : ℕ} {s t : System}
    → Step s t
    → SystemOk m q s
    → ((id : ℕ) → ReplyOk id s)
    → (id : ℕ) → ReplyOk id t
Step-ReplyOk {s = s} (call_push c p) o k id =
    calling-ReplyOk id s _ (start_push-IsClear s.broker c p) (k id)
Step-ReplyOk {s = s} (call_pop cs) o k id = calling-ReplyOk id s _ (start_pop-IsClear cs) (k id)
Step-ReplyOk {s = s} (finish i t e) o k id =
    moved-ReplyOk id s i t (record t { ctx_done = true }) s.broker s.replies e (k id)
      (same-Ticket id s.broker s.replies t.phase)
Step-ReplyOk {s = s} (run i t {b} {rs} {phase} e mv) o k id =
    moved-ReplyOk id s i t (record t { phase = phase }) b rs e (k id)
      (Move-Ticket id mv o.valid (All-get_elem _ s.threads i e o.locals)
        (λ j at. checking-empty j s i t (k j) e at))

init-ReplyOk : (m q id : ℕ) → ReplyOk id (init m q)
unfolding new_broker buffer_len
init-ReplyOk m q id = omega arith

pub Reach-ReplyOk : {m q : ℕ} {s : System} → q + m < 2 ^ 63 → Reach m q s → (id : ℕ) → ReplyOk id s
Reach-ReplyOk {m} {q} h start id = init-ReplyOk m q id
Reach-ReplyOk h (later r st) id = Step-ReplyOk st (Reach-SystemOk h r) (Reach-ReplyOk h r) id
