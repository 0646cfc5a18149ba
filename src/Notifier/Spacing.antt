-- ===== src/Notifier/Spacing.antt =====
-- main.go: newBlockNotifier, how far apart the times of its swaps are and how often it opens the writer.
use atomic_queue.Prelude.{
  ℕ, suc, ◌+◌, ◌^◌, ◌≤◌, ◌<◌, ◌≡◌, refl, ◌⊎◌, inl, inr, true, false, List, [], ◌∷◌, All, All-append,
  All-set, All-get_elem, Bool, Bool-cases, ◌==◌, arith, if◌then◌else◌,
}
use atomic_queue.Notifier.{
  min_interval, Caller, reading, swapping, opening, noticing, returned, Notifier, is_early,
  after_load, swap, open_writer, NotifierStep, notify, load, compare_and_swap, lock, notice,
  set_caller, new_block_notifier, NotifierReach, created, stepped,
}

-- Each time is at least the interval after the one before it.
abbrev pub Spaced : List ℕ → Type 0
Spaced [] = Unit {0}
Spaced (t ∷ []) = Unit {0}
Spaced (t ∷ u ∷ ts) = (u + min_interval ≤ t) × Spaced (u ∷ ts)

-- The clock holds the newest time, or 0 before there is one.
abbrev IsNewest : ℕ → List ℕ → Type 0
IsNewest last [] = last ≡ 0
IsNewest last (t ∷ ts) = (last ≡ t) × (0 < t) × (t < 2 ^ 63)

abbrev CallerOk : Caller → Type 0
CallerOk (reading now) = (0 < now) × (now < 2 ^ 63)
CallerOk (swapping now prev) =
    (0 < now) × (now < 2 ^ 63) × ((prev ≡ 0) ⊎ (prev + min_interval ≤ now))
CallerOk _ = Unit {0}

pub record NotifierOk (s : Notifier) : Type 0 where
  pub newest : IsNewest s.last_ns s.passed
  pub spaced : Spaced s.passed
  pub callers : All CallerOk s.callers
  pub once : s.opened ≡ (if s.writer_set then 1 else 0)

last-lt : (last : ℕ) (ts : List ℕ) → IsNewest last ts → last < 2 ^ 63
last-lt last [] h = omega arith
last-lt last (t ∷ ts) h = omega (arith, h.0, h.2)

after_load-CallerOk :
    (now prev : ℕ) → 0 < now → now < 2 ^ 63 → prev < 2 ^ 63 → CallerOk (after_load now prev)
unfolding after_load is_early
after_load-CallerOk now prev some_time low h = ground arith

Spaced-next :
    (now last : ℕ) (ts : List ℕ)
    → IsNewest last ts
    → (last ≡ 0) ⊎ (last + min_interval ≤ now)
    → Spaced ts
    → Spaced (now ∷ ts)
Spaced-next now last [] newest gap h = tt
Spaced-next now last (t ∷ ts) newest (inl none_yet) h = absurd (omega (arith, newest.0, newest.1))
Spaced-next now last (t ∷ ts) newest (inr far) h = (omega (arith, newest.0), h)

swap-NotifierOk :
    (now prev i : ℕ) (s : Notifier)
    → CallerOk (swapping now prev)
    → NotifierOk s
    → NotifierOk (set_caller i (swap now prev s).0 (swap now prev s).1)
unfolding swap
swap-NotifierOk now prev i s ready k = elim (Bool-cases (s.last_ns == prev)) [
  | inl e ↦
      let same : s.last_ns ≡ prev = ground arith in
      rw e (record {
        newest = (refl, ready.0, ready.1);
        spaced = Spaced-next now s.last_ns s.passed k.newest (rw same ready.2) k.spaced;
        callers = All-set CallerOk s.callers i (opening now) k.callers tt;
        once = k.once;
      })
  | inr e ↦ rw e (record {
    newest = k.newest;
    spaced = k.spaced;
    callers = All-set CallerOk s.callers i returned k.callers tt;
    once = k.once;
  })
]

notice_or_return : (now : ℕ) (b : Bool) → CallerOk (if b then noticing now else returned)
notice_or_return now true = tt
notice_or_return now false = tt

open_writer-NotifierOk :
    (opens : Bool) (s : Notifier) → NotifierOk s → NotifierOk (open_writer opens s)
unfolding open_writer
open_writer-NotifierOk opens s k = by_case s.writer_set refl
  where
    by_case :
        (b : Bool)
        → s.writer_set ≡ b
        → NotifierOk (
            if b
            then s
            else record s { writer_set = true; has_writer = opens; opened = suc s.opened })
    by_case true e = k
    by_case false e = record {
      newest = k.newest;
      spaced = k.spaced;
      callers = k.callers;
      once = ground (arith, k.once);
    }

set_caller-NotifierOk :
    (i : ℕ) (c : Caller) (s : Notifier) → CallerOk c → NotifierOk s → NotifierOk (set_caller i c s)
set_caller-NotifierOk i c s ready k = record {
  newest = k.newest;
  spaced = k.spaced;
  callers = All-set CallerOk s.callers i c k.callers ready;
  once = k.once;
}

Step-NotifierOk : {s t : Notifier} → NotifierStep s t → NotifierOk s → NotifierOk t
Step-NotifierOk {s = s} (notify now some_time low) k = record {
  newest = k.newest;
  spaced = k.spaced;
  callers = All-append CallerOk s.callers _ k.callers ((some_time, low), tt);
  once = k.once;
}
Step-NotifierOk {s = s} (load i {now} e) k =
    let mine = All-get_elem CallerOk s.callers i e k.callers in
    set_caller-NotifierOk i _ s
      (after_load-CallerOk now s.last_ns mine.0 mine.1 (last-lt s.last_ns s.passed k.newest)) k
Step-NotifierOk {s = s} (compare_and_swap i {now} {prev} e) k =
    swap-NotifierOk now prev i s (All-get_elem CallerOk s.callers i e k.callers) k
Step-NotifierOk {s = s} (lock i opens {now} e) k =
    set_caller-NotifierOk i _ (open_writer opens s) (notice_or_return now _)
      (open_writer-NotifierOk opens s k)
Step-NotifierOk {s = s} (notice i {now} e) k = record {
  newest = k.newest;
  spaced = k.spaced;
  callers = All-set CallerOk s.callers i returned k.callers tt;
  once = k.once;
}

pub Reach-NotifierOk : {s : Notifier} → NotifierReach s → NotifierOk s
unfolding new_block_notifier
Reach-NotifierOk created = record { newest = refl; spaced = tt; callers = tt; once = refl }
Reach-NotifierOk (stepped r st) = Step-NotifierOk st (Reach-NotifierOk r)
