-- ===== src/System/Grows.antt =====
-- What a goroutine knows of the broker while others run.
use atomic_queue.Prelude.{ℕ, ◌+◌, ◌≤◌, ◌<◌, ◌≡◌, ◌⊎◌, Bool, List, length, arith}
use atomic_queue.Fault.{Bytes}
use atomic_queue.Broker.Ops.{Broker, push_turn, pop_turn, cancel_turn, enlist}
use atomic_queue.Broker.Valid.{IsValid}
use atomic_queue.Broker.Cases.{Pushes, to_waiter, to_queue, must_wait, push_turn-Pushes}
use atomic_queue.Broker.PopCases.{Pops, takes, gives_up, waits, pop_turn-Pops}
use atomic_queue.System.{Phase, pushing, handing, parked}

-- What the local variables of a goroutine say about the broker.
abbrev pub PhaseOk : Broker → Phase → Type 0
PhaseOk b (pushing c p) = length p ≤ b.max_bytes
PhaseOk b (parked c p sig) =
    (length p ≤ b.max_bytes)
    × (sig < b.next_signal)
    × (sig ≡ b.drain_signal → b.max_queued_bytes < b.queued_bytes + length p)
PhaseOk b _ = Unit {0}

-- What other goroutines may do to the broker in between: the limits stay, and either the current
-- signal stays and no bytes leave, or the signal is one that nobody has seen.
pub record Grows (b b' : Broker) : Type 0 where
  pub same_max : b'.max_bytes ≡ b.max_bytes
  pub same_limit : b'.max_queued_bytes ≡ b.max_queued_bytes
  pub newer : b.next_signal ≤ b'.next_signal
  pub signal :
      ((b'.drain_signal ≡ b.drain_signal) × (b.queued_bytes ≤ b'.queued_bytes))
      ⊎ (b.next_signal ≤ b'.drain_signal)

pub Grows-refl : (b : Broker) → Grows b b
Grows-refl b = omega arith

pub push_turn-Grows :
    (b : Broker) (c p : Bytes) → IsValid b → length p ≤ b.max_bytes → Grows b (push_turn b c p).1
push_turn-Grows b c p v small = go (push_turn-Pushes b c p v small)
  where
    go : Pushes b c p (push_turn b c p) → Grows b (push_turn b c p).1
    go (to_waiter i w got fits first r) = rw r (omega arith)
    go (to_queue none_wait room r) = rw r (omega arith)
    go (must_wait none_wait full r) = rw r (omega arith)

pub pop_turn-Grows :
    (b : Broker) (ctx_done : Bool) (cs : List Bytes) (id : ℕ)
    → IsValid b
    → Grows b (pop_turn b ctx_done cs id).1
unfolding enlist
pop_turn-Grows b ctx_done cs id v = go (pop_turn-Pops b ctx_done cs id v)
  where
    go : Pops b ctx_done cs id (pop_turn b ctx_done cs id) → Grows b (pop_turn b ctx_done cs id).1
    go (takes c p q before after split dry at r) = rw r (omega arith)
    go (gives_up dry e r) = rw r (omega arith)
    go (waits dry e r) = rw r (omega arith)

pub cancel_turn-Grows : (b : Broker) (id : ℕ) → Grows b (cancel_turn b id).1
unfolding cancel_turn
cancel_turn-Grows b id = omega arith

pub PhaseOk-Grows :
    (b b' : Broker) (phase : Phase) → Grows b b' → PhaseOk b phase → PhaseOk b' phase
PhaseOk-Grows b b' (pushing c p) g h = omega (arith, g.same_max)
PhaseOk-Grows b b' (parked c p sig) g h =
    ground (arith, g.same_max, g.same_limit, g.newer, g.signal)
PhaseOk-Grows b b' (handing id d) g h = tt
PhaseOk-Grows b b' _ g h = tt
