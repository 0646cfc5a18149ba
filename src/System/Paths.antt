-- ===== src/System/Paths.antt =====
-- Several steps of broker.go's goroutines, and the steps of one of them among the others.
use atomic_queue.Prelude.{ℕ, ◌≡◌, Bool, true, some, length, get_elem?, set, written, at_end}
use atomic_queue.Broker.Ops.{Broker}
use atomic_queue.System.{
  Phase, Thread, Replies, System, Move, Step, run, finish, called, calling, Reach, later,
}

-- What can follow a state, in any number of steps.
pub data Steps (s : System) : System → Type 0 where
  here : Steps s s
  onward : {t u : System} → Steps s t → Step t u → Steps s u

pub Steps-trans : {s t u : System} → Steps s t → Steps t u → Steps s u
Steps-trans p here = p
Steps-trans p (onward q st) = onward (Steps-trans p q) st

pub Reach-Steps : {m q : ℕ} {s t : System} → Reach m q s → Steps s t → Reach m q t
Reach-Steps r here = r
Reach-Steps r (onward p st) = later (Reach-Steps r p) st

abbrev pub thread : Bool → Phase → Thread
thread done phase = record { ctx_done = done; phase = phase }

-- Goroutine `i` stands in a phase.
abbrev pub StandsIn : System → ℕ → Bool → Phase → Type 0
StandsIn s i done phase = get_elem? s.threads i ≡ some (thread done phase)

abbrev pub moved : System → ℕ → Bool → Broker → Replies → Phase → System
moved s i done b rs phase = record {
  broker = b;
  replies = rs;
  threads = set s.threads i (thread done phase);
}

pub moves :
    (s : System) (i : ℕ) {done : Bool} {phase next : Phase} {b : Broker} {rs : Replies}
    → StandsIn s i done phase
    → Move s.broker s.replies done phase b rs next
    → Step s (moved s i done b rs next) × StandsIn (moved s i done b rs next) i done next
moves s i {done} {phase} {next} at mv =
    (run i (thread done phase) at mv, written s.threads i (thread done next) _ at)

-- The end of the goroutine's context.
pub expires :
    (s : System) (i : ℕ) {done : Bool} {phase : Phase}
    → StandsIn s i done phase
    → Step s (moved s i true s.broker s.replies phase)
      × StandsIn (moved s i true s.broker s.replies phase) i true phase
expires s i {done} {phase} at =
    (finish i (thread done phase) at, written s.threads i (thread true phase) _ at)

-- A new goroutine is the last.
pub calling-StandsIn :
    (s : System) (phase : Phase)
    → get_elem? (calling s phase).threads (length s.threads) ≡ some (called phase)
calling-StandsIn s phase = at_end s.threads (called phase)
