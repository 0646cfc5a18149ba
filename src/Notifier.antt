-- ===== src/Notifier.antt =====
-- main.go: newBlockNotifier. Blocked pushes call it from their goroutines; an atomic clock lets a
-- notice through, and a mutex guards the syslog writer, which is opened once.
pub mod Spacing
pub mod Notices
mod Tests
use atomic_queue.Prelude.{
  ℕ, suc, ◌*◌, ◌^◌, ◌<◌, ◌≡◌, Bool, true, false, not, ◌&&◌, some, List, [], ◌∷◌, ◌++◌, ◌==◌,
  get_elem?, set, if◌then◌else◌,
}
use atomic_queue.Prelude.Int.{sub64, le64}

-- `int64(10 * time.Second)`
abbrev pub min_interval : ℕ
min_interval = 10 * 1_000_000_000

-- Where a call stands: after `time.Now`, after the load and its test, after the swap, at
-- `w.Notice`, or returned.
pub data Caller : Type 0 where
  reading : (now : ℕ) → Caller
  swapping : (now prev : ℕ) → Caller
  opening : (now : ℕ) → Caller
  noticing : (now : ℕ) → Caller
  returned : Caller

-- `last_ns`, the writer (whether it is set, and whether it is there), the calls, the times whose
-- swap has succeeded, the newest first, the clock readings of the calls that have come to
-- `w.Notice`, and how often `syslog.New` has been called.
pub record Notifier : Type 0 where
  pub last_ns : ℕ
  pub writer_set : Bool
  pub has_writer : Bool
  pub callers : List Caller
  pub passed : List ℕ
  pub notices : List ℕ
  pub opened : ℕ

-- `prev != 0 && now-prev < minInterval`
unfoldable pub is_early : ℕ → ℕ → Bool
is_early now prev = not (prev == 0) && not (le64 min_interval (sub64 now prev))

unfoldable pub after_load : ℕ → ℕ → Caller
unfolding is_early
after_load now prev = if is_early now prev then returned else swapping now prev

-- `lastNs.CompareAndSwap(prev, now)`
unfoldable pub swap : ℕ → ℕ → Notifier → Caller × Notifier
swap now prev s =
    if s.last_ns == prev
    then (opening now, record s { last_ns = now; passed = now ∷ s.passed })
    else (returned, s)

-- The part under the mutex; `opens` is what `syslog.New` gives, if it is called.
unfoldable pub open_writer : (opens : Bool) → Notifier → Notifier
open_writer opens s =
    if s.writer_set
    then s
    else record s { writer_set = true; has_writer = opens; opened = suc s.opened }

abbrev pub set_caller : ℕ → Caller → Notifier → Notifier
set_caller i c s = record s { callers = set s.callers i c }

-- A clock of int64 nanoseconds after 1970.
pub data NotifierStep (s : Notifier) : Notifier → Type 0 where
  notify :
      (now : ℕ)
      → 0 < now
      → now < 2 ^ 63
      → NotifierStep s (record s { callers = s.callers ++ reading now ∷ [] })
  load :
      (i : ℕ) {now : ℕ}
      → get_elem? s.callers i ≡ some (reading now)
      → NotifierStep s (set_caller i (after_load now s.last_ns) s)
  compare_and_swap :
      (i : ℕ) {now prev : ℕ}
      → get_elem? s.callers i ≡ some (swapping now prev)
      → NotifierStep s (set_caller i (swap now prev s).0 (swap now prev s).1)
  lock :
      (i : ℕ) (opens : Bool) {now : ℕ}
      → get_elem? s.callers i ≡ some (opening now)
      → NotifierStep s (
          set_caller i
            (if (open_writer opens s).has_writer then noticing now else returned)
            (open_writer opens s))
  notice :
      (i : ℕ) {now : ℕ}
      → get_elem? s.callers i ≡ some (noticing now)
      → NotifierStep s (record (set_caller i returned s) { notices = now ∷ s.notices })

unfoldable pub new_block_notifier : Notifier
new_block_notifier = record {
  last_ns = 0;
  writer_set = false;
  has_writer = false;
  callers = [];
  passed = [];
  notices = [];
  opened = 0;
}

pub data NotifierReach : Notifier → Type 0 where
  created : NotifierReach new_block_notifier
  stepped : {s t : Notifier} → NotifierReach s → NotifierStep s t → NotifierReach t
