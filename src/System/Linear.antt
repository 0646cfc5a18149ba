-- ===== src/System/Linear.antt =====
-- The steps of the goroutines as a sequence of sections of the broker, one after the other.
use atomic_queue.Prelude.{
  ℕ, ◌+◌, ◌<◌, ◌^◌, ◌≡◌, refl, sym, ap, ◌∙◌, Bool, true, some, List, [], ◌∷◌, ◌++◌, total,
  total-append, get_elem?, set, All, All-append, All-get_elem, arith, subst,
}
use atomic_queue.Fault.{Bytes}
use atomic_queue.Broker.Queues.{Delivery}
use atomic_queue.Broker.Ops.{Broker}
use atomic_queue.Broker.Fifo.{view}
use atomic_queue.Broker.Sections.{
  Section, Run, run_section, run_sections, begun, on_channel, IsSmall,
}
use atomic_queue.Broker.InOrder.{channels_in_order}
use atomic_queue.System.{
  Phase, Thread, Replies, System, Move, push_lock, send, wake, push_expire, pop_lock, receive,
  pop_expire, cancel_lock, last_receive, late_receive, nothing_late, Step, call_push, call_pop,
  finish, run, calling, called, Reach, start, later,
}
use atomic_queue.System.Weights.{accepted, in_transit, returned}
use atomic_queue.System.Conservation.{
  buffered, over_threads, over_threads-set, starts_empty, pops_empty,
}
use atomic_queue.System.Grows.{PhaseOk}
use atomic_queue.System.Invariant.{SystemOk, Reach-SystemOk}
use atomic_queue.System.Logs.{section_of_move, section_of, sections, logged, IsLogged, Move-Logged}

run_sections-append :
    (k : Run) (ss ts : List Section)
    → run_sections k (ss ++ ts) ≡ run_sections (run_sections k ss) ts
run_sections-append k [] ts = refl
run_sections-append k (s ∷ ss) ts = run_sections-append (run_section k s) ss ts

-- A run of sections that has led to the broker of a system: its logs are what the pushes of the
-- system have accepted, and what is on its way to a pop or has been returned by one.
pub record IsLinear (k : Run) (s : System) : Type 0 where
  pub same : k.broker ≡ s.broker
  pub log_accepted : (f : Delivery → ℕ) → total f k.accepted ≡ over_threads (accepted f) s.threads
  pub log_given :
      (f : Delivery → ℕ)
      → total f k.given
        ≡ over_threads (in_transit f) s.threads
          + buffered f s.replies
          + over_threads (returned f) s.threads

-- A new goroutine that holds nothing.
calling-IsLinear :
    (k : Run) (s : System) (phase : Phase)
    → ((f : Delivery → ℕ)
        → (accepted f phase ≡ 0) × (in_transit f phase ≡ 0) × (returned f phase ≡ 0))
    → IsLinear k s
    → IsLinear k (calling s phase)
calling-IsLinear k s phase empty l = record {
  same = l.same;
  log_accepted = λ f. omega (
    arith,
    l.log_accepted f,
    empty f,
    total-append (λ (t : Thread). accepted f t.phase) s.threads (called phase ∷ []),
  );
  log_given = λ f. omega (
    arith,
    l.log_given f,
    empty f,
    total-append (λ (t : Thread). in_transit f t.phase) s.threads (called phase ∷ []),
    total-append (λ (t : Thread). returned f t.phase) s.threads (called phase ∷ []),
  );
}

set-IsLinear :
    (k : Run) (s : System) (i : ℕ) (t u : Thread) (b : Broker) (rs : Replies)
    (acc giv : List Delivery)
    → get_elem? s.threads i ≡ some t
    → ((f : Delivery → ℕ) → IsLogged f s.replies t.phase rs u.phase k.accepted k.given acc giv)
    → IsLinear k s
    → IsLinear (logged b acc giv) (record { broker = b; replies = rs; threads = set s.threads i u })
set-IsLinear k s i t u b rs acc giv e grown l = record {
  same = refl;
  log_accepted = λ f.
      omega (arith, l.log_accepted f, grown f, over_threads-set (accepted f) s.threads i t u e);
  log_given = λ f. omega (
    arith,
    l.log_given f,
    grown f,
    over_threads-set (in_transit f) s.threads i t u e,
    over_threads-set (returned f) s.threads i t u e,
  );
}

as_logged : (k : Run) (s : System) → IsLinear k s → k ≡ logged s.broker k.accepted k.given
as_logged k s l = ap (λ b. logged b k.accepted k.given) l.same

Step-IsLinear :
    {s t : System} (st : Step s t) (k : Run)
    → IsLinear k s
    → IsLinear (run_sections k (section_of st)) t
Step-IsLinear {s} (call_push c p) k l = calling-IsLinear k s _ (λ f. starts_empty f s.broker c p) l
Step-IsLinear {s} (call_pop cs) k l = calling-IsLinear k s _ (λ f. pops_empty f cs) l
Step-IsLinear {s} {t = after_it} (finish i t e) k l =
    subst (λ h. IsLinear h after_it) (sym (as_logged k s l))
      (set-IsLinear k s i t (record t { ctx_done = true }) s.broker s.replies k.accepted k.given e
        (λ f. (refl, refl)) l)
Step-IsLinear {s} {t = after_it} (run i t {b} {rs} {phase} e mv) k l =
    let (acc, giv, ran, grown) = Move-Logged mv k.accepted k.given in
    subst (λ h. IsLinear h after_it)
      (sym (ap (λ h. run_sections h (section_of_move mv)) (as_logged k s l) ∙ ran))
      (set-IsLinear k s i t (record t { phase = phase }) b rs acc giv e grown l)

Reach-IsLinear :
    {m q : ℕ} {s : System} (r : Reach m q s) → IsLinear (run_sections (begun m q) (sections r)) s
Reach-IsLinear start = record { same = refl; log_accepted = λ f. refl; log_given = λ f. refl }
Reach-IsLinear {m} {q} (later {t = t} r st) =
    subst (λ k. IsLinear k t) (sym (run_sections-append (begun m q) (sections r) (section_of st)))
      (Step-IsLinear st (run_sections (begun m q) (sections r)) (Reach-IsLinear r))

move-IsSmall :
    {m : ℕ} {b : Broker} {rs : Replies} {done : Bool} {phase : Phase} {b' : Broker} {rs' : Replies}
    {phase' : Phase} (mv : Move b rs done phase b' rs' phase')
    → b.max_bytes ≡ m
    → PhaseOk b phase
    → All (IsSmall m) (section_of_move mv)
move-IsSmall (push_lock {c} {p}) e h = (omega (arith, e, h), tt)
move-IsSmall pop_lock e h = (tt, tt)
move-IsSmall cancel_lock e h = (tt, tt)
move-IsSmall (send x) e h = tt
move-IsSmall (wake x) e h = tt
move-IsSmall (push_expire x) e h = tt
move-IsSmall (receive x) e h = tt
move-IsSmall (pop_expire x) e h = tt
move-IsSmall (last_receive x) e h = tt
move-IsSmall (late_receive x) e h = tt
move-IsSmall (nothing_late x) e h = tt

step-IsSmall :
    {m q : ℕ} {s t : System} (st : Step s t) → SystemOk m q s → All (IsSmall m) (section_of st)
step-IsSmall (call_push c p) o = tt
step-IsSmall (call_pop cs) o = tt
step-IsSmall (finish i t e) o = tt
step-IsSmall {s = s} (run i t e mv) o =
    move-IsSmall mv o.max (All-get_elem _ s.threads i e o.locals)

sections-IsSmall :
    {m q : ℕ} {s : System} → q + m < 2 ^ 63 → (r : Reach m q s) → All (IsSmall m) (sections r)
sections-IsSmall h start = tt
sections-IsSmall {m} h (later r st) =
    All-append (IsSmall m) _ _ (sections-IsSmall h r) (step-IsSmall st (Reach-SystemOk h r))

-- Whatever goroutines push and pop, and however they are interleaved, with limits whose sum is below
-- 2^63: the steps in which they take the mutex, one after the other, are a run of the sections that
-- ends with the broker of the system. What that run accepts is what the pushes have accepted, what
-- it gives is what is on its way to a pop, in its buffer, or returned by it, and on each channel
-- what it gives, with what is still queued behind it, is what it accepts, in that order.
pub system_in_order :
    {max_bytes max_queued_bytes : ℕ} {s : System}
    → max_queued_bytes + max_bytes < 2 ^ 63
    → (r : Reach max_bytes max_queued_bytes s)
    → let k = run_sections (begun max_bytes max_queued_bytes) (sections r) in
      IsLinear k s
      × ((c : Bytes) → on_channel c k.given ++ view s.broker c ≡ on_channel c k.accepted)
system_in_order {max_bytes = m} {max_queued_bytes = q} {s = s} h r =
    let l = Reach-IsLinear r in
    let k = run_sections (begun m q) (sections r) in
    (
      l,
      λ c.
          ap (λ b. on_channel c k.given ++ view b c) (sym l.same)
          ∙ channels_in_order m q (sections r) c h (sections-IsSmall h r),
    )
