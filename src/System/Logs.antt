-- ===== src/System/Logs.antt =====
-- What a step of a goroutine adds to the logs of what is accepted and what is given.
use atomic_queue.Prelude.{
  ℕ, ◌+◌, ◌≡◌, refl, Bool, true, false, some, List, [], ◌∷◌, ◌++◌, length, total, total-append,
  total-set, get_elem?, set, arith,
}
use atomic_queue.Fault.{Bytes}
use atomic_queue.Broker.Queues.{Delivery, message}
use atomic_queue.Broker.Ops.{
  Broker, PushTurn, handed, queued, blocked, push_turn, PopTurn, took, over, enlisted, pop_turn,
  cancel_turn,
}
use atomic_queue.Broker.Sections.{
  Section, push_section, pop_section, cancel_section, accepts, hands, gives, Run, run_sections,
}
use atomic_queue.System.{
  Phase, pushing, popping, cancelling, Replies, System, after_push, after_pop, make_reply,
  after_cancel, Move, push_lock, send, wake, push_expire, pop_lock, receive, pop_expire,
  cancel_lock, last_receive, late_receive, nothing_late, Step, call_push, call_pop, finish, run,
  Reach, start, later,
}
use atomic_queue.System.Weights.{accepted, in_transit, returned}
use atomic_queue.System.Conservation.{buffered}

-- The section that a goroutine runs in a step, if it takes the mutex.
abbrev pub section_of_move :
    {b : Broker} {rs : Replies} {done : Bool} {phase : Phase} {b' : Broker} {rs' : Replies}
    {phase' : Phase}
    → Move b rs done phase b' rs' phase'
    → List Section
section_of_move (push_lock {c} {p}) = push_section c p ∷ []
section_of_move {rs = rs} {done} (pop_lock {cs}) = pop_section done cs (length rs) ∷ []
section_of_move (cancel_lock {id}) = cancel_section id ∷ []
section_of_move (send e) = []
section_of_move (wake e) = []
section_of_move (push_expire e) = []
section_of_move (receive e) = []
section_of_move (pop_expire e) = []
section_of_move (last_receive e) = []
section_of_move (late_receive e) = []
section_of_move (nothing_late e) = []

abbrev pub section_of : {s t : System} → Step s t → List Section
section_of (call_push c p) = []
section_of (call_pop cs) = []
section_of (finish i t e) = []
section_of (run i t e mv) = section_of_move mv

-- The sections of an execution, in the order of its steps.
abbrev pub sections : {m q : ℕ} {s : System} → Reach m q s → List Section
sections start = []
sections (later r st) = sections r ++ section_of st

abbrev pub logged : Broker → List Delivery → List Delivery → Run
logged b acc giv = record { broker = b; accepted = acc; given = giv }

module _ (f : Delivery → ℕ) where
  -- What a goroutine or the buffers hold of the messages given to pops.
  abbrev on_the_way : Replies → Phase → ℕ
  on_the_way rs phase = in_transit f phase + buffered f rs + returned f phase

  abbrev pub IsLogged :
      Replies → Phase → Replies → Phase → (acc giv acc' giv' : List Delivery) → Type 0
  IsLogged rs phase rs' phase' acc giv acc' giv' =
      (total f acc' + accepted f phase ≡ total f acc + accepted f phase')
      × (total f giv' + on_the_way rs phase ≡ total f giv + on_the_way rs' phase')

  push_lock-IsLogged :
      (rs : Replies) (c p : Bytes) (acc giv : List Delivery) (t : PushTurn)
      → IsLogged rs
          (pushing c p)
          rs
          (after_push c p t)
          acc
          giv
          (acc ++ accepts c p t)
          (giv ++ hands c p t)
  unfolding after_push
  push_lock-IsLogged rs c p acc giv (handed id) = (
    omega (arith, total-append f acc (message c p ∷ [])),
    omega (arith, total-append f giv (message c p ∷ [])),
  )
  push_lock-IsLogged rs c p acc giv queued =
      (omega (arith, total-append f acc (message c p ∷ [])), omega (arith, total-append f giv []))
  push_lock-IsLogged rs c p acc giv (blocked sig n m) =
      (omega (arith, total-append f acc []), omega (arith, total-append f giv []))

  pop_lock-IsLogged :
      (rs : Replies) (cs : List Bytes) (acc giv : List Delivery) (t : PopTurn)
      → IsLogged rs
          (popping cs)
          (make_reply t rs)
          (after_pop (length rs) t)
          acc
          giv
          acc
          (giv ++ gives t)
  unfolding after_pop make_reply
  pop_lock-IsLogged rs cs acc giv (took d) = (refl, omega (arith, total-append f giv (d ∷ [])))
  pop_lock-IsLogged rs cs acc giv over = (refl, omega (arith, total-append f giv []))
  pop_lock-IsLogged rs cs acc giv enlisted =
      (refl, omega (arith, total-append f giv [], total-append (total f) rs ([] ∷ [])))

  cancel_lock-IsLogged :
      (rs : Replies) (id : ℕ) (acc giv : List Delivery) (gone : Bool)
      → IsLogged rs (cancelling id) rs (after_cancel id gone) acc giv acc giv
  unfolding after_cancel
  cancel_lock-IsLogged rs id acc giv true = (refl, omega arith)
  cancel_lock-IsLogged rs id acc giv false = (refl, omega arith)

  take_reply-IsLogged :
      (rs : Replies) (id : ℕ) (d : Delivery) (q : List Delivery)
      → get_elem? rs id ≡ some (d ∷ q)
      → buffered f (set rs id q) + f d ≡ buffered f rs
  take_reply-IsLogged rs id d q e = omega (arith, total-set (total f) rs id (d ∷ q) q e)

-- What a step adds to the two logs.
abbrev Logged :
    {b : Broker} {rs : Replies} {done : Bool} {phase : Phase} {b' : Broker} {rs' : Replies}
    {phase' : Phase}
    → Move b rs done phase b' rs' phase'
    → List Delivery
    → List Delivery
    → Type 0
Logged {b} {rs} {done} {phase} {b'} {rs'} {phase'} mv acc giv =
    (acc' giv' : List Delivery) × (run_sections (logged b acc giv) (section_of_move mv)
      ≡ logged b' acc' giv')
    × ((f : Delivery → ℕ) → IsLogged f rs phase rs' phase' acc giv acc' giv')

pub Move-Logged :
    {b : Broker} {rs : Replies} {done : Bool} {phase : Phase} {b' : Broker} {rs' : Replies}
    {phase' : Phase} (mv : Move b rs done phase b' rs' phase') (acc giv : List Delivery)
    → Logged mv acc giv
Move-Logged {b} {rs} (push_lock {c} {p}) acc giv =
    (_, _, refl, λ f. push_lock-IsLogged f rs c p acc giv (push_turn b c p).0)
Move-Logged {rs = rs} (send {id} {d} e) acc giv =
    (acc, giv, refl, λ f. (refl, omega (arith, total-set (total f) rs id [] (d ∷ []) e)))
Move-Logged (wake e) acc giv = (acc, giv, refl, λ f. (refl, refl))
Move-Logged (push_expire e) acc giv = (acc, giv, refl, λ f. (refl, refl))
Move-Logged {b} {rs} {done} (pop_lock {cs}) acc giv =
    (_, _, refl, λ f. pop_lock-IsLogged f rs cs acc giv (pop_turn b done cs (length rs)).0)
Move-Logged {rs = rs} (receive {id} {d} {q} e) acc giv =
    (acc, giv, refl, λ f. (refl, omega (arith, take_reply-IsLogged f rs id d q e)))
Move-Logged (pop_expire e) acc giv = (acc, giv, refl, λ f. (refl, refl))
Move-Logged {b} {rs} (cancel_lock {id}) acc giv =
    (acc, giv, refl, λ f. cancel_lock-IsLogged f rs id acc giv (cancel_turn b id).0)
Move-Logged {rs = rs} (last_receive {id} {d} {q} e) acc giv =
    (acc, giv, refl, λ f. (refl, omega (arith, take_reply-IsLogged f rs id d q e)))
Move-Logged {rs = rs} (late_receive {id} {d} {q} e) acc giv =
    (acc, giv, refl, λ f. (refl, omega (arith, take_reply-IsLogged f rs id d q e)))
Move-Logged (nothing_late e) acc giv = (acc, giv, refl, λ f. (refl, refl))
