-- ===== src/Broker/Fifo.antt =====
-- The broker against its abstract view: a queue of payloads for each channel.
use atomic_queue.Prelude.{
  ℕ, zero, suc, ◌+◌, ◌≤◌, ◌≡◌, refl, sym, ap, subst, ◌∙◌, ◌⊎◌, inl, inr, Option, none, some, List,
  [], ◌∷◌, ◌++◌, length, total, All, All-get_elem, bytes_eq, bytes_eq_refl, append_assoc,
  append-nil, arith, if◌then◌else◌,
}
use atomic_queue.Fault.{Bytes}
use atomic_queue.Broker.Queues.{Delivery, message, get_queue, get_queue-put_queue}
use atomic_queue.Broker.Waiters.{NoTaker}
use atomic_queue.Broker.Ops.{Broker, PushTurn, handed, queued, blocked, push_turn, pop_queued}
use atomic_queue.Broker.Served.{IsDry, get_queue-leave_queue}
use atomic_queue.Broker.Valid.{IsValid}
use atomic_queue.Broker.Cases.{
  Pushes, to_waiter, to_queue, must_wait, push_turn-Pushes, enqueued, drained,
}
use atomic_queue.Broker.PopCases.{Fetches, found, all_dry, pop_queued-Fetches}
use atomic_queue.Broker.Invariant.{enqueued-IsValid, drained-IsValid}

-- The abstract view: what is queued on each channel, oldest first.
abbrev pub view : Broker → Bytes → List Bytes
view b c = get_queue c b.queues

-- A round of a push, on a valid broker and with a payload of at most `max_bytes`: if the outcome is
-- that the payload was queued, it stands at the end of the queue of its channel; in any other
-- outcome that queue is as it was. All other channels are as they were in any case.
pub push_turn-view :
    (b : Broker) (c p d : Bytes)
    → IsValid b
    → length p ≤ b.max_bytes
    → (((push_turn b c p).0 ≡ queued)
        × (view (push_turn b c p).1 d ≡ (if bytes_eq c d then view b c ++ p ∷ [] else view b d)))
      ⊎ ((((id : ℕ) × ((push_turn b c p).0 ≡ handed id))
            ⊎ ((push_turn b c p).0 ≡ blocked b.drain_signal b.queued_bytes b.max_queued_bytes))
          × (view (push_turn b c p).1 d ≡ view b d))
push_turn-view b c p d v small = go (push_turn-Pushes b c p v small)
  where
    go :
        Pushes b c p (push_turn b c p)
        → (((push_turn b c p).0 ≡ queued)
            × (view (push_turn b c p).1 d
                ≡ (if bytes_eq c d then view b c ++ p ∷ [] else view b d)))
          ⊎ ((((id : ℕ) × ((push_turn b c p).0 ≡ handed id))
                ⊎ ((push_turn b c p).0 ≡ blocked b.drain_signal b.queued_bytes b.max_queued_bytes))
              × (view (push_turn b c p).1 d ≡ view b d))
    go (to_waiter i w got fits first r) = rw r (inr (inl (w.id, refl), refl))
    go (to_queue none_wait room r) = rw r (inl (refl, get_queue-put_queue c d _ b.queues))
    go (must_wait none_wait full r) = rw r (inr (inr refl, refl))

-- What `pop_queued` promises of its result, for the view before and the view after.
abbrev pub TakesOldest : Broker → List Bytes → Option Delivery × Broker → Type 0
TakesOldest b cs (none, b') = All (IsDry b.queues) cs × ((d : Bytes) → view b' d ≡ view b d)
TakesOldest b cs (some m, b') =
    (before after : List Bytes) × (cs ≡ before ++ m.channel ∷ after)
    × All (IsDry b.queues) before
    × (view b m.channel ≡ m.payload ∷ view b' m.channel)
    × ((d : Bytes) → view b' d ≡ (if bytes_eq m.channel d then view b' m.channel else view b d))

-- On a valid broker `pop_queued` returns the oldest payload of the first requested channel that has
-- one, takes just that payload off its queue, and leaves all other channels as they were; it
-- returns nothing, and changes no queue, only if no requested channel has anything queued.
pub pop_queued-TakesOldest :
    (b : Broker) (cs : List Bytes) → IsValid b → TakesOldest b cs (pop_queued cs b)
pop_queued-TakesOldest b cs v = go (pop_queued-Fetches b cs v)
  where
    go : Fetches b cs (pop_queued cs b) → TakesOldest b cs (pop_queued cs b)
    go (all_dry dry r) = rw r (dry, λ d. refl)
    go (found c p q before after split dry at r) = rw r (
      before,
      after,
      split,
      dry,
      rw (get_queue-leave_queue c c q b.queues, bytes_eq_refl c) at,
      λ d.
          rw
            (
              get_queue-leave_queue c d q b.queues,
              get_queue-leave_queue c c q b.queues,
              bytes_eq_refl c,
            )
            refl,
    )

-- One push after the other, and one pop after the other, on a channel.
abbrev pub push_seq : Broker → Bytes → List Bytes → Broker
push_seq b c [] = b
push_seq b c (p ∷ ps) = push_seq (push_turn b c p).1 c ps

abbrev pub payload_of : Option Delivery → List Bytes
payload_of none = []
payload_of (some d) = d.payload ∷ []

abbrev pub pop_seq : ℕ → Broker → Bytes → List Bytes
pop_seq zero b c = []
pop_seq (suc n) b c = payload_of (pop_queued (c ∷ []) b).0 ++ pop_seq n (pop_queued (c ∷ []) b).1 c

pub pop_one :
    (b : Broker) (c p : Bytes) (q : List Bytes)
    → IsValid b
    → view b c ≡ p ∷ q
    → pop_queued (c ∷ []) b ≡ (some (message c p), drained b c p q)
pop_one b c p q v e = go (pop_queued-Fetches b (c ∷ []) v)
  where
    go :
        Fetches b (c ∷ []) (pop_queued (c ∷ []) b)
        → pop_queued (c ∷ []) b ≡ (some (message c p), drained b c p q)
    go (all_dry dry r) = absurd (cc dry.0)
    go (found c' p' q' [] after split dry at r) = cc
    go (found c' p' q' (k ∷ before) after split dry at r) = absurd (cc dry.0)

-- The pops of a channel drain its queue in order.
pop_seq-view :
    (n : ℕ) (b : Broker) (c : Bytes) (q : List Bytes)
    → IsValid b
    → view b c ≡ q
    → length q ≡ n
    → pop_seq n b c ≡ q
pop_seq-view zero b c [] v e h = refl
pop_seq-view zero b c (p ∷ q) v e h = absurd (omega arith)
pop_seq-view (suc n) b c [] v e h = absurd (omega arith)
pop_seq-view (suc n) b c (p ∷ q) v e h = rw (pop_one b c p q v e) (
    ap (◌∷◌ p) (
      pop_seq-view n (drained b c p q) c q (drained-IsValid b c p q v e)
        (rw (get_queue-leave_queue c c q b.queues, bytes_eq_refl c)) (omega arith)))

pub push_one :
    (b : Broker) (c p : Bytes)
    → IsValid b
    → length p ≤ b.max_bytes
    → NoTaker c b.waiters
    → b.queued_bytes + length p ≤ b.max_queued_bytes
    → push_turn b c p ≡ (queued, enqueued b c p)
push_one b c p v small none_wait room = go (push_turn-Pushes b c p v small)
  where
    go : Pushes b c p (push_turn b c p) → push_turn b c p ≡ (queued, enqueued b c p)
    go (to_waiter i w got fits first r) = absurd (cc (All-get_elem _ b.waiters i got none_wait))
    go (to_queue n h r) = r
    go (must_wait n full r) = absurd (omega arith)

-- Pushes with room and nobody waiting put their payloads at the end, one after the other.
push_seq-view :
    (b : Broker) (c : Bytes) (ps : List Bytes)
    → IsValid b
    → All (λ p. length p ≤ b.max_bytes) ps
    → NoTaker c b.waiters
    → b.queued_bytes + total length ps ≤ b.max_queued_bytes
    → (view (push_seq b c ps) c ≡ view b c ++ ps) × IsValid (push_seq b c ps)
push_seq-view b c [] v small none_wait room = (sym (append-nil _), v)
push_seq-view b c (p ∷ ps) v small none_wait room =
    let rest =
      push_seq-view (enqueued b c p) c ps (enqueued-IsValid b c p v none_wait (omega arith)) small.1
        none_wait (omega arith) in
    let one : push_seq b c (p ∷ ps) ≡ push_seq (enqueued b c p) c ps =
      ap (λ (r : PushTurn × Broker). push_seq r.1 c ps)
        (push_one b c p v small.0 none_wait (omega arith)) in
    let grown : view (enqueued b c p) c ≡ view b c ++ p ∷ [] =
      rw (get_queue-put_queue c c (view b c ++ p ∷ []) b.queues, bytes_eq_refl c) refl in
    (
      ap (λ x. view x c) one ∙ rest.0 ∙ rw grown (append_assoc (view b c) (p ∷ []) ps),
      subst IsValid (sym one) rest.1,
    )

-- First in, first out: when payloads are pushed to a channel of a valid broker, each of at most
-- `max_bytes` and all of them together within what is left of the limit, while nobody waits for the
-- channel, then as many pops of the channel as it has messages return those that were queued
-- before and then the new ones, each in the order of their pushes.
pub first_in_first_out :
    (b : Broker) (c : Bytes) (ps : List Bytes)
    → IsValid b
    → All (λ p. length p ≤ b.max_bytes) ps
    → NoTaker c b.waiters
    → b.queued_bytes + total length ps ≤ b.max_queued_bytes
    → pop_seq (length (view b c ++ ps)) (push_seq b c ps) c ≡ view b c ++ ps
first_in_first_out b c ps v small none_wait room =
    let (same, valid) = push_seq-view b c ps v small none_wait room in
    pop_seq-view _ (push_seq b c ps) c (view b c ++ ps) valid same refl
