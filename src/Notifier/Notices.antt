-- ===== src/Notifier/Notices.antt =====
-- main.go: newBlockNotifier, how far apart the clock readings of its notices are.
use atomic_queue.Prelude.{
  ℕ, zero, suc, ◌+◌, ◌≤◌, ◌≡◌, ◌≢◌, refl, ◌⊎◌, inl, inr, true, false, some, List, [], ◌∷◌,
  get_elem?, set, total, total-append, total-set, le-total, Bool, Bool-cases, ◌==◌, arith,
  if◌then◌else◌,
}
use atomic_queue.Notifier.{
  min_interval, Caller, reading, swapping, opening, noticing, returned, Notifier, is_early,
  after_load, swap, open_writer, NotifierStep, notify, load, compare_and_swap, lock, notice,
  new_block_notifier, NotifierReach, created, stepped,
}
use atomic_queue.Notifier.Spacing.{Spaced, Reach-NotifierOk}

-- 1 for a call that has got through with that reading of the clock and is on its way to its notice.
abbrev is_time : ℕ → ℕ → ℕ
is_time t u = if t == u then 1 else 0

abbrev holds : ℕ → Caller → ℕ
holds t (reading now) = 0
holds t (swapping now prev) = 0
holds t (opening now) = is_time t now
holds t (noticing now) = is_time t now
holds t returned = 0

-- No more calls come to a notice with a reading than have got through with it.
IsCounted : Notifier → Type 0
IsCounted s =
    (t : ℕ) → total (holds t) s.callers + total (is_time t) s.notices ≤ total (is_time t) s.passed

holds-after_load : (t now prev : ℕ) → holds t (after_load now prev) ≡ 0
unfolding after_load
holds-after_load t now prev = elim (Bool-cases (is_early now prev)) [
  | inl e ↦ rw e refl
  | inr e ↦ rw e refl
]

holds-lock : (t now : ℕ) (b : Bool) → holds t (if b then noticing now else returned) ≤ is_time t now
holds-lock t now true = omega arith
holds-lock t now false = omega arith

swap-IsCounted :
    (now prev i : ℕ) (s : Notifier)
    → get_elem? s.callers i ≡ some (swapping now prev)
    → IsCounted s
    → IsCounted (record (swap now prev s).1 {
      callers = set (swap now prev s).1.callers i (swap now prev s).0;
    })
unfolding swap IsCounted
swap-IsCounted now prev i s at k t = elim (Bool-cases (s.last_ns == prev)) [
  | inl e ↦
      rw e
        (omega (arith, k t, total-set (holds t) s.callers i (swapping now prev) (opening now) at))
  | inr e ↦
      rw e (omega (arith, k t, total-set (holds t) s.callers i (swapping now prev) returned at))
]

open_writer-IsCounted :
    (opens : Bool) (s : Notifier) (i now : ℕ) (c : Caller)
    → get_elem? s.callers i ≡ some (opening now)
    → ((t : ℕ) → holds t c ≤ is_time t now)
    → IsCounted s
    → IsCounted (record (open_writer opens s) { callers = set (open_writer opens s).callers i c })
unfolding open_writer IsCounted
open_writer-IsCounted opens s i now c at most k t = elim (Bool-cases s.writer_set) [
  | inl e ↦ rw e (omega (arith, k t, most t, total-set (holds t) s.callers i (opening now) c at))
  | inr e ↦ rw e (omega (arith, k t, most t, total-set (holds t) s.callers i (opening now) c at))
]

Step-IsCounted : {s t : Notifier} → NotifierStep s t → IsCounted s → IsCounted t
unfolding IsCounted
Step-IsCounted {s = s} (notify now some_time low) k t =
    omega (arith, k t, total-append (holds t) s.callers (reading now ∷ []))
Step-IsCounted {s = s} (load i {now} e) k t =
    let idle = holds-after_load t now s.last_ns in
    omega
      (arith, k t, idle, total-set (holds t) s.callers i (reading now) (after_load now s.last_ns) e)
Step-IsCounted {s = s} (compare_and_swap i {now} {prev} e) k t = swap-IsCounted now prev i s e k t
Step-IsCounted {s = s} (lock i opens {now} e) k t =
    open_writer-IsCounted opens s i now _ e (λ u. holds-lock u now _) k t
Step-IsCounted {s = s} (notice i {now} e) k t =
    omega (arith, k t, total-set (holds t) s.callers i (noticing now) returned e)

Reach-IsCounted : {s : Notifier} → NotifierReach s → IsCounted s
unfolding new_block_notifier IsCounted
Reach-IsCounted created t = omega arith
Reach-IsCounted (stepped r st) t = Step-IsCounted st (Reach-IsCounted r) t

Spaced-rest : (t : ℕ) (ts : List ℕ) → Spaced (t ∷ ts) → Spaced ts
Spaced-rest t [] h = tt
Spaced-rest t (u ∷ ts) h = h.1

not_first :
    (u t : ℕ) (ts : List ℕ)
    → (u == t) ≡ false
    → 1 ≤ total (is_time u) (t ∷ ts)
    → 1 ≤ total (is_time u) ts
not_first u t ts e h = let later : 1 ≤ 0 + total (is_time u) ts = rw e at h in omega (arith, later)

zero_or_some : (n : ℕ) → (n ≡ 0) ⊎ (1 ≤ n)
zero_or_some zero = inl refl
zero_or_some (suc n) = inr (omega arith)

at_own_time : (a : ℕ) → is_time a a ≡ 1
at_own_time a = ground arith

older : (t u : ℕ) (ts : List ℕ) → Spaced (t ∷ ts) → 1 ≤ total (is_time u) ts → u + min_interval ≤ t
older t u [] h there = absurd (omega (arith, there))
older t u (v ∷ ts) h there = elim (Bool-cases (u == v)) [
  | inl e ↦ let same : u ≡ v = ground arith in omega (arith, h.0, same)
  | inr e ↦ let far = older v u ts h.1 (not_first u v ts e there) in omega (arith, h.0, far)
]

passed_once : (u : ℕ) (ts : List ℕ) → Spaced ts → total (is_time u) ts ≤ 1
passed_once u [] h = omega arith
passed_once u (t ∷ ts) h =
    let rest = passed_once u ts (Spaced-rest t ts h) in
    elim (Bool-cases (u == t)) [
      | inl e ↦
          let same : u ≡ t = ground arith in
          rw e (elim (zero_or_some (total (is_time u) ts)) [
            | inl nobody ↦ omega (arith, nobody)
            | inr there ↦ absurd (omega (arith, same, older t u ts h there))
          ])
      | inr e ↦ rw e (omega (arith, rest))
    ]

Far : ℕ → ℕ → Type 0
Far a b = (a + min_interval ≤ b) ⊎ (b + min_interval ≤ a)

passed-Far :
    (a b : ℕ) (ts : List ℕ)
    → a ≢ b
    → Spaced ts
    → 1 ≤ total (is_time a) ts
    → 1 ≤ total (is_time b) ts
    → Far a b
unfolding Far
passed-Far a b [] ne h one two = absurd (omega (arith, one))
passed-Far a b (t ∷ ts) ne h one two = elim (Bool-cases (a == t)) [
  | inl a_is ↦ elim (Bool-cases (b == t)) [
    | inl b_is ↦ absurd (ne (ground arith))
    | inr b_not ↦
        let same : a ≡ t = ground arith in
        let far = older t b ts h (not_first b t ts b_not two) in inr (omega (arith, same, far))
  ]
  | inr a_not ↦
      let one' = not_first a t ts a_not one in
      elim (Bool-cases (b == t)) [
        | inl b_is ↦
            let same : b ≡ t = ground arith in
            let far = older t a ts h one' in inl (omega (arith, same, far))
        | inr b_not ↦ passed-Far a b ts ne (Spaced-rest t ts h) one' (not_first b t ts b_not two)
      ]
]

two_places :
    (ns : List ℕ) (i j a : ℕ)
    → i ≢ j
    → get_elem? ns i ≡ some a
    → get_elem? ns j ≡ some a
    → 2 ≤ total (is_time a) ns
two_places [] i j a ne x y = cc
two_places (n ∷ ns) zero zero a ne x y = absurd (ne refl)
two_places (n ∷ ns) zero (suc j) a ne x y =
    let more = le-total (is_time a) ns j a y in let same : n ≡ a = cc in ground (arith, more, same)
two_places (n ∷ ns) (suc i) zero a ne x y =
    let more = le-total (is_time a) ns i a x in let same : n ≡ a = cc in ground (arith, more, same)
two_places (n ∷ ns) (suc i) (suc j) a ne x y =
    omega (arith, two_places ns i j a (λ e. ne (omega arith)) x y)

-- Whatever calls of the notifier are interleaved in whatever way, on a clock of positive int64
-- nanoseconds, and however long a call takes to come to its notice: of any two calls that have come
-- to a notice, the later reading of the clock is at least ten seconds after the other. The writer is
-- opened at most once.
pub notices_apart :
    {s : Notifier} (i j a b : ℕ)
    → NotifierReach s
    → i ≢ j
    → get_elem? s.notices i ≡ some a
    → get_elem? s.notices j ≡ some b
    → ((a + min_interval ≤ b) ⊎ (b + min_interval ≤ a)) × (s.opened ≤ 1)
unfolding IsCounted Far
notices_apart {s} i j a b r ne x y =
    let k = Reach-NotifierOk r in
    let once : s.opened ≡ (if s.writer_set then 1 else 0) = k.once in
    let counted = Reach-IsCounted r in
    let one = le-total (is_time a) s.notices i a x in
    let two = le-total (is_time b) s.notices j b y in
    let far : Far a b = elim (Bool-cases (a == b)) [
      | inl e ↦
          let same : a ≡ b = ground arith in
          let twice = two_places s.notices i j a ne x (rw same y) in
          absurd (omega (arith, counted a, twice, passed_once a s.passed k.spaced))
      | inr e ↦
          passed-Far a b s.passed (λ p. ground arith) k.spaced
            (omega (arith, counted a, one, at_own_time a))
            (omega (arith, counted b, two, at_own_time b))
    ] in
    (far, ground (arith, once))
