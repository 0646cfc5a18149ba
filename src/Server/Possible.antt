-- ===== src/Server/Possible.antt =====
-- What a call of the daemon's handler comes to, in terms of the goroutines of broker.go, and what the
-- others can do while it waits.
use atomic_queue.Prelude.{
  ℕ, ◌≡◌, refl, Bool, false, Option, none, some, List, [], length, get_elem?,
}
use atomic_queue.Fault.{Bytes, Error, Result, ok, err}
use atomic_queue.Broker.Queues.{Delivery, message}
use atomic_queue.Broker.Ops.{Broker, enlist}
use atomic_queue.System.{
  Phase, parked, pushed, push_failed, waiting, popped, pop_failed, System, Reach,
}
use atomic_queue.System.Paths.{Steps, here, Steps-trans, StandsIn}
use atomic_queue.Server.Live.{Live, Others}

-- A reply channel for each waiter so far, so that their number is the next identity.
abbrev pub live : System → Live
live s = record { broker = s.broker; next_id = length s.replies }

abbrev pub push_ended : Bytes → Bytes → Option Error → Phase
push_ended c p none = pushed (message c p)
push_ended c p (some e) = push_failed e

abbrev pub pop_ended : Result Delivery → Phase
pop_ended (ok d) = popped d
pop_ended (err e) = pop_failed e

-- From `s` on, goroutine `i` can come to the phase, and the others to the state.
pub record Comes (s : System) (i : ℕ) (phase : Phase) (l : Live) : Type 0 where
  pub system : System
  pub path : Steps s system
  pub done : Bool
  pub stands : StandsIn system i done phase
  pub shows : live system ≡ l

pub Comes-after :
    {s t : System} {i : ℕ} {phase : Phase} {l : Live}
    → Steps s t
    → Comes t i phase l
    → Comes s i phase l
Comes-after p k = record {
  system = k.system;
  path = Steps-trans p k.path;
  done = k.done;
  stands = k.stands;
  shows = k.shows;
}

pub Comes-here :
    {s : System} {i : ℕ} {phase : Phase} (done : Bool)
    → StandsIn s i done phase
    → Comes s i phase (live s)
Comes-here {s} done at = record { system = s; path = here; done = done; stands = at; shows = refl }

-- A pop that has just put its waiter into the list.
abbrev pub JustEnlisted : System → ℕ → List Bytes → Type 0
JustEnlisted s id channels =
    (get_elem? s.replies id ≡ some [])
    × (b : Broker) × (s.broker ≡ enlist b (record { id = id; channels = channels }))

-- What `others` say of a call that waits is what goroutines can do meanwhile.
pub record IsPossible (m q : ℕ) (others : Others) : Type 0 where
  pub while_blocked :
      {s : System}
      → Reach m q s
      → (i : ℕ) (c p : Bytes) (sig : ℕ) → StandsIn s i false (parked c p sig)
      → let r = others.while_blocked (live s) c p sig in Comes s i (push_ended c p r.0) r.1
  pub while_waiting :
      {s : System}
      → Reach m q s
      → (i id : ℕ) (deadline : Option ℕ) (channels : List Bytes) → StandsIn s i false (waiting id)
      → JustEnlisted s id channels
      → let r = others.while_waiting (live s) id deadline in Comes s i (pop_ended r.0) r.1
