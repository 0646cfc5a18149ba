-- ===== src/Broker/Served.antt =====
-- Lemmas of the broker's invariant: waiters that find nothing queued, and one queue that changes.
use atomic_queue.Prelude.{
  ℕ, ◌+◌, ◌≡◌, refl, ◌≢◌, false, List, [], ◌∷◌, ◌++◌, total-append, All, bytes_eq, bytes_eq_refl,
  eq_of_bytes_eq, arith, if◌then◌else◌,
}
use atomic_queue.Fault.{Bytes}
use atomic_queue.Broker.Queues.{
  Delivery, Queues, IsTidy, get_queue, put_queue, get_queue-put_queue, get_queue-delete_queue,
  put_queue-IsTidy, delete_queue-IsTidy, on_channel, queued_weight, queued_weight-put_queue,
  queued_weight-delete_queue,
}
use atomic_queue.Broker.Waiters.{Waiter, waiter_matches, NoTaker}
use atomic_queue.Broker.Ops.{leave_queue}

-- The channel has nothing queued.
abbrev pub IsDry : Queues → Bytes → Type 0
IsDry m c = get_queue c m ≡ []

-- Nothing is queued on a channel that a waiter waits for.
abbrev pub AllServed : Queues → List Waiter → Type 0
AllServed m = All (λ w. All (IsDry m) w.channels)

-- The two maps have the same queues but for one channel.
abbrev pub Elsewhere : Bytes → Queues → Queues → Type 0
Elsewhere c m m' = (d : Bytes) → bytes_eq c d ≡ false → get_queue d m' ≡ get_queue d m

pub put_queue-Elsewhere :
    (c : Bytes) (q : List Bytes) (m : Queues) → Elsewhere c m (put_queue c q m)
put_queue-Elsewhere c q m d e = rw (get_queue-put_queue c d q m, e)

pub get_queue-leave_queue :
    (c d : Bytes) (q : List Bytes) (m : Queues)
    → get_queue d (leave_queue c q m) ≡ (if bytes_eq c d then q else get_queue d m)
unfolding leave_queue
get_queue-leave_queue c d [] m = get_queue-delete_queue c d m
get_queue-leave_queue c d (p ∷ q) m = get_queue-put_queue c d (p ∷ q) m

pub leave_queue-Elsewhere :
    (c : Bytes) (q : List Bytes) (m : Queues) → Elsewhere c m (leave_queue c q m)
leave_queue-Elsewhere c q m d e = rw (get_queue-leave_queue c d q m, e)

pub leave_queue-IsTidy :
    (c : Bytes) (q : List Bytes) (m : Queues) → IsTidy m → IsTidy (leave_queue c q m)
unfolding leave_queue
leave_queue-IsTidy c [] m t = delete_queue-IsTidy c m t
leave_queue-IsTidy c (p ∷ q) m t = put_queue-IsTidy c (p ∷ q) m (λ e. cc) t

-- The weight of the message that leaves.
pub queued_weight-leave_queue :
    (f : Delivery → ℕ) (c p : Bytes) (q : List Bytes) (m : Queues)
    → IsTidy m
    → get_queue c m ≡ p ∷ q
    → queued_weight f (leave_queue c q m) + on_channel f c p ≡ queued_weight f m
unfolding leave_queue
queued_weight-leave_queue f c p [] m t e =
    omega (arith, rw e at (queued_weight-delete_queue f c m t))
queued_weight-leave_queue f c p (r ∷ q) m t e =
    omega (arith, rw e at (queued_weight-put_queue f c (r ∷ q) m))

pub queued_weight-enqueue :
    (f : Delivery → ℕ) (c p : Bytes) (m : Queues)
    → queued_weight f (put_queue c (get_queue c m ++ p ∷ []) m)
      ≡ queued_weight f m + on_channel f c p
queued_weight-enqueue f c p m = omega (
  arith,
  queued_weight-put_queue f c (get_queue c m ++ p ∷ []) m,
  total-append (on_channel f c) (get_queue c m) (p ∷ []),
)

pub snoc-ne-nil : (q : List Bytes) (p : Bytes) → (q ++ p ∷ []) ≢ []
snoc-ne-nil [] p e = cc
snoc-ne-nil (r ∷ q) p e = cc

IsDry-other :
    (c : Bytes) (m m' : Queues) (cs : List Bytes)
    → Elsewhere c m m'
    → waiter_matches cs c ≡ false
    → All (IsDry m) cs
    → All (IsDry m') cs
unfolding waiter_matches
IsDry-other c m m' [] h e d = tt
IsDry-other c m m' (k ∷ cs) h e d =
    ground
      (arith, h k, eq_of_bytes_eq c k, bytes_eq_refl c, IsDry-other c m m' cs h (ground arith) d.1)

-- A change of one queue leaves the waiters served, if none of them waits for its channel.
pub AllServed-other :
    (c : Bytes) (m m' : Queues) (ws : List Waiter)
    → Elsewhere c m m'
    → NoTaker c ws
    → AllServed m ws
    → AllServed m' ws
AllServed-other c m m' [] h n s = tt
AllServed-other c m m' (w ∷ ws) h n s =
    (IsDry-other c m m' w.channels h n.0 s.0, AllServed-other c m m' ws h n.1 s.1)

dry-matches :
    (c : Bytes) (m : Queues) (cs : List Bytes)
    → get_queue c m ≢ []
    → All (IsDry m) cs
    → waiter_matches cs c ≡ false
unfolding waiter_matches
dry-matches c m [] h d = refl
dry-matches c m (k ∷ cs) h d = ground (arith, eq_of_bytes_eq k c, dry-matches c m cs h d.1, d.0)

-- Nobody waits for a channel on which something is queued.
pub NoTaker-queued :
    (c : Bytes) (m : Queues) (ws : List Waiter) → get_queue c m ≢ [] → AllServed m ws → NoTaker c ws
NoTaker-queued c m [] h s = tt
NoTaker-queued c m (w ∷ ws) h s = (dry-matches c m w.channels h s.0, NoTaker-queued c m ws h s.1)
