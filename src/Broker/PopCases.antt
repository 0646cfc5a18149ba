-- ===== src/Broker/PopCases.antt =====
-- What the locked stretches of `Pop` do, branch by branch, in plain arithmetic.
use atomic_queue.Prelude.{
  ℕ, ◌-◌, ◌%◌, ◌^◌, ◌≤◌, ◌≡◌, refl, ap, ◌∙◌, Bool, true, false, Option, none, some, List, [], ◌∷◌,
  ◌++◌, length, All, get_elem?, ◌==◌, arith,
}
use atomic_queue.Prelude.Int.{sub64}
use atomic_queue.Fault.{Bytes}
use atomic_queue.Broker.Queues.{Delivery, message, get_queue}
use atomic_queue.Broker.Waiters.{
  Waiter, remove_waiter_at-erase_idx, lt-length, remove_waiter, index_of_waiter, Indexed,
  index_of_waiter-Indexed,
}
use atomic_queue.Broker.Ops.{
  Broker, take_front, pop_queued, PopTurn, took, over, enlisted, enlist, settle_pop, pop_turn,
  cancel_turn,
}
use atomic_queue.Broker.Served.{IsDry, queued_weight-leave_queue}
use atomic_queue.Broker.Valid.{IsValid, size_of}
use atomic_queue.Broker.Cases.{drained, dismissed}

-- The first requested channel with something queued gives its oldest payload; or there is none.
pub data Fetches (b : Broker) (cs : List Bytes) (r : Option Delivery × Broker) : Type 0 where
  found :
      (c p : Bytes) (q before after : List Bytes)
      → cs ≡ before ++ c ∷ after
      → All (IsDry b.queues) before
      → get_queue c b.queues ≡ p ∷ q
      → r ≡ (some (message c p), drained b c p q)
      → Fetches b cs r
  all_dry : All (IsDry b.queues) cs → r ≡ (none, b) → Fetches b cs r

-- What is queued counts what is at the front.
front-le :
    (b : Broker) (c p : Bytes) (q : List Bytes)
    → IsValid b
    → get_queue c b.queues ≡ p ∷ q
    → length p ≤ b.queued_bytes
front-le b c p q v e =
    omega (arith, v.counted, queued_weight-leave_queue size_of c p q b.queues v.tidy e)

take_front-drained :
    (b : Broker) (c p : Bytes) (q : List Bytes)
    → IsValid b
    → get_queue c b.queues ≡ p ∷ q
    → take_front b c p q ≡ drained b c p q
unfolding take_front
take_front-drained b c p q v e =
    let exact : sub64 b.queued_bytes (length p % 2 ^ 64) ≡ b.queued_bytes - length p =
      omega (arith, front-le b c p q v e, v.bounded, v.roomy) in
    rw exact

pub pop_queued-Fetches : (b : Broker) (cs : List Bytes) → IsValid b → Fetches b cs (pop_queued cs b)
unfolding pop_queued
pop_queued-Fetches b [] v = all_dry tt refl
pop_queued-Fetches b (c ∷ cs) v = go (get_queue c b.queues) refl (pop_queued-Fetches b cs v)
  where
    go :
        (q : List Bytes)
        → get_queue c b.queues ≡ q
        → Fetches b cs (pop_queued cs b)
        → Fetches b (c ∷ cs) (pop_queued (c ∷ cs) b)
    go (p ∷ q) e rest =
        found c p q [] cs refl tt e (rw (e, pop_queued) (rw (take_front-drained b c p q v e)))
    go [] e (found d p q before after split dry at r) =
        found d p q (c ∷ before) after (rw split) (e, dry) at (rw (e, pop_queued) r)
    go [] e (all_dry dry r) = all_dry (e, dry) (rw (e, pop_queued) r)

-- The locked part of `Pop`.
pub data Pops (b : Broker) (ctx_done : Bool) (cs : List Bytes) (id : ℕ) (r : PopTurn × Broker)
    : Type 0 where
  takes :
      (c p : Bytes) (q before after : List Bytes)
      → cs ≡ before ++ c ∷ after
      → All (IsDry b.queues) before
      → get_queue c b.queues ≡ p ∷ q
      → r ≡ (took (message c p), drained b c p q)
      → Pops b ctx_done cs id r
  gives_up : All (IsDry b.queues) cs → ctx_done ≡ true → r ≡ (over, b) → Pops b ctx_done cs id r
  waits :
      All (IsDry b.queues) cs
      → ctx_done ≡ false
      → r ≡ (enlisted, enlist b (record { id = id; channels = cs }))
      → Pops b ctx_done cs id r

pub pop_turn-Pops :
    (b : Broker) (ctx_done : Bool) (cs : List Bytes) (id : ℕ)
    → IsValid b
    → Pops b ctx_done cs id (pop_turn b ctx_done cs id)
unfolding pop_turn
pop_turn-Pops b ctx_done cs id v = go ctx_done refl (pop_queued-Fetches b cs v)
  where
    go :
        (done : Bool)
        → ctx_done ≡ done
        → Fetches b cs (pop_queued cs b)
        → Pops b ctx_done cs id (pop_turn b ctx_done cs id)
    go done e (found c p q before after split dry at r) =
        takes c p q before after split dry at (ap (settle_pop ctx_done cs id) r)
    go true e (all_dry dry r) = gives_up dry e (ap (settle_pop ctx_done cs id) r ∙ rw e)
    go false e (all_dry dry r) = waits dry e (ap (settle_pop ctx_done cs id) r ∙ rw e)

-- The end of a `Pop` whose context is done: its waiter leaves the list, or had left it.
pub data Cancels (b : Broker) (id : ℕ) (r : Bool × Broker) : Type 0 where
  leaves :
      (i : ℕ) (w : Waiter)
      → get_elem? b.waiters i ≡ some w
      → w.id ≡ id
      → r ≡ (true, dismissed b i)
      → Cancels b id r
  had_left : All (λ w. (w.id == id) ≡ false) b.waiters → r ≡ (false, b) → Cancels b id r

pub cancel_turn-Cancels : (b : Broker) (id : ℕ) → Cancels b id (cancel_turn b id)
unfolding cancel_turn remove_waiter
cancel_turn-Cancels b id =
    go (index_of_waiter id 0 b.waiters) refl (index_of_waiter-Indexed id 0 b.waiters)
  where
    go :
        (r : Option ℕ)
        → index_of_waiter id 0 b.waiters ≡ r
        → Indexed id 0 b.waiters r
        → Cancels b id (cancel_turn b id)
    go (some j) e (i, w, at, got, same) =
        let here : j ≡ i = omega arith in
        leaves i w got same (
          rw (e, remove_waiter)
            (rw (here, remove_waiter_at-erase_idx i b.waiters (lt-length b.waiters i w got))))
    go none e h = had_left h (rw (e, remove_waiter))
