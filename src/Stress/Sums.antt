-- ===== src/Stress/Sums.antt =====
-- What single workers of stress.go and of examples/go/stress/main.go count, and all of them together.
use atomic_queue.Prelude.{ℕ, zero, suc, ◌+◌, ◌≤◌, ◌≡◌, refl, Option, some, arith}
use atomic_queue.Stress.Workers.{Counters, no_counts, added, both, failure_counted}
use atomic_queue.Stress.Report.{sum_counts}

-- The rounds of a publisher from the counters `n` on: all of them push and none fails, or it ends
-- at the first that fails.
pub data Ran (n : Counters) (rounds : ℕ) (m : Counters) : Type 0 where
  every_round :
      m.pushed ≡ n.pushed + rounds
      → m.failures ≡ n.failures
      → m.served + m.pop_timeouts ≡ n.served + n.pop_timeouts
      → Ran n rounds m
  gave_up :
      m.pushed ≤ n.pushed + rounds
      → m.failures ≡ n.failures + 1
      → m.served + m.pop_timeouts ≡ n.served + n.pop_timeouts
      → Ran n rounds m

pub later :
    (n m : Counters) (rounds : ℕ)
    → Ran (record n { pushed = n.pushed + 1 }) rounds m
    → Ran n (suc rounds) m
later n m rounds (every_round p f idle) = every_round (omega arith) f idle
later n m rounds (gave_up p f idle) = gave_up (omega arith) f idle

-- The rounds of a consumer from the counters `n` on, with at most `f` failures: without a failure
-- each of them ends with a message or a timeout.
pub record Receives (n m : Counters) (rounds f : ℕ) : Type 0 where
  pub same_pushed : m.pushed ≡ n.pushed
  pub most : m.served + m.pop_timeouts ≤ n.served + n.pop_timeouts + rounds
  pub failures_least : n.failures ≤ m.failures
  pub failures_most : m.failures ≤ n.failures + f
  pub every :
      m.failures ≡ n.failures → m.served + m.pop_timeouts ≡ n.served + n.pop_timeouts + rounds

pub no_rounds : (n : Counters) (f : ℕ) → Receives n n 0 f
no_rounds n f = record {
  same_pushed = refl;
  most = omega arith;
  failures_least = omega arith;
  failures_most = omega arith;
  every = λ e. omega arith;
}

pub served_one :
    (n m : Counters) (rounds f : ℕ)
    → Receives (record n { served = n.served + 1 }) m rounds f
    → Receives n m (suc rounds) f
served_one n m rounds f k = record {
  same_pushed = k.same_pushed;
  most = omega (arith, k.most);
  failures_least = k.failures_least;
  failures_most = k.failures_most;
  every = λ e. omega (arith, k.every e);
}

pub timed_out_once :
    (n m : Counters) (rounds f : ℕ)
    → Receives (record n { pop_timeouts = n.pop_timeouts + 1 }) m rounds f
    → Receives n m (suc rounds) f
timed_out_once n m rounds f k = record {
  same_pushed = k.same_pushed;
  most = omega (arith, k.most);
  failures_least = k.failures_least;
  failures_most = k.failures_most;
  every = λ e. omega (arith, k.every e);
}

pub failed_and_on :
    (n m : Counters) (rounds f : ℕ)
    → Receives (failure_counted n) m rounds f
    → Receives n m (suc rounds) (suc f)
failed_and_on n m rounds f k = record {
  same_pushed = k.same_pushed;
  most = omega (arith, k.most);
  failures_least = omega (arith, k.failures_least);
  failures_most = omega (arith, k.failures_most);
  every = λ e. absurd (omega (arith, e, k.failures_least));
}

pub failed_once : (n : Counters) (rounds : ℕ) → Receives n (failure_counted n) rounds 1
failed_once n rounds = record {
  same_pushed = refl;
  most = omega arith;
  failures_least = omega arith;
  failures_most = omega arith;
  every = λ e. absurd (omega (arith, e));
}

pub more_failures :
    (n m : Counters) (rounds f g : ℕ) → f ≤ g → Receives n m rounds f → Receives n m rounds g
more_failures n m rounds f g h k = record {
  same_pushed = k.same_pushed;
  most = k.most;
  failures_least = k.failures_least;
  failures_most = omega (arith, k.failures_most);
  every = k.every;
}

pub not_connected : (rounds f : ℕ) → 1 ≤ f → Receives no_counts (failure_counted no_counts) rounds f
not_connected rounds f h = more_failures _ _ rounds 1 f h (failed_once no_counts rounds)

-- The counters of workers that have `p` rounds for pushes and `c` rounds for pops.
pub record Tallies (p c f : ℕ) (m : Counters) : Type 0 where
  pub pushes : m.pushed ≤ p
  pub pops : m.served + m.pop_timeouts ≤ c
  pub few : m.failures ≤ f
  pub exact : m.failures ≡ 0 → (m.pushed ≡ p) × (m.served + m.pop_timeouts ≡ c)

pub Ran-Tallies : (rounds : ℕ) (m : Counters) → Ran no_counts rounds m → Tallies rounds 0 1 m
Ran-Tallies rounds m (every_round p f idle) = record {
  pushes = omega arith;
  pops = omega (arith, idle);
  few = omega arith;
  exact = λ none_failed. (omega arith, omega (arith, idle));
}
Ran-Tallies rounds m (gave_up p f idle) = record {
  pushes = omega arith;
  pops = omega (arith, idle);
  few = omega arith;
  exact = λ none_failed. absurd (omega arith);
}

pub Receives-Tallies :
    (rounds f : ℕ) (m : Counters) → Receives no_counts m rounds f → Tallies 0 rounds f m
Receives-Tallies rounds f m k = record {
  pushes = omega (arith, k.same_pushed);
  pops = omega (arith, k.most);
  few = omega (arith, k.failures_most);
  exact = λ none_failed. (omega (arith, k.same_pushed), omega (arith, k.every none_failed));
}

-- A worker that does not panic.
abbrev pub Counts : (p c f : ℕ) → Option Counters → Type 0
Counts p c f r = (m : Counters) × (r ≡ some m) × Tallies p c f m

pub both-Counts :
    (a b : Option Counters) (p c f p' c' f' : ℕ)
    → Counts p c f a
    → Counts p' c' f' b
    → Counts (p + p') (c + c') (f + f') (both a b)
both-Counts a b p c f p' c' f' (m, e, k) (m', e', k') = (
  added m m',
  rw (e, e') refl,
  record {
    pushes = omega (arith, k.pushes, k'.pushes);
    pops = omega (arith, k.pops, k'.pops);
    few = omega (arith, k.few, k'.few);
    exact = λ none_failed.
        let (x, y) = k.exact (omega arith) in
        let (x', y') = k'.exact (omega arith) in (omega (arith, x, x'), omega (arith, y, y'));
  },
)

-- The rounds of `n` workers together.
abbrev pub all_rounds : ℕ → (ℕ → ℕ) → ℕ
all_rounds zero rounds = 0
all_rounds (suc n) rounds = all_rounds n rounds + rounds n

sum_counts-Counts :
    (n : ℕ) (worker : ℕ → Option Counters) (p c f : ℕ → ℕ)
    → ((i : ℕ) → Counts (p i) (c i) (f i) (worker i))
    → Counts (all_rounds n p) (all_rounds n c) (all_rounds n f) (sum_counts n worker)
sum_counts-Counts zero worker p c f h = (
  no_counts,
  refl,
  record {
    pushes = omega arith;
    pops = omega arith;
    few = omega arith;
    exact = λ none_failed. (refl, refl);
  },
)
sum_counts-Counts (suc n) worker p c f h =
    both-Counts _ _ (all_rounds n p) (all_rounds n c) (all_rounds n f) (p n) (c n) (f n)
      (sum_counts-Counts n worker p c f h) (h n)

all_rounds-none : (n : ℕ) → all_rounds n (λ i. 0) ≡ 0
all_rounds-none zero = refl
all_rounds-none (suc n) = omega (arith, all_rounds-none n)

pub one_each : (n : ℕ) → all_rounds n (λ i. 1) ≡ n
one_each zero = refl
one_each (suc n) = omega (arith, one_each n)

pub one_more_each :
    (n : ℕ) (rounds : ℕ → ℕ) → all_rounds n (λ i. rounds i + 1) ≡ all_rounds n rounds + n
one_more_each zero rounds = omega arith
one_more_each (suc n) rounds = omega (arith, one_more_each n rounds)

pub all-Counts :
    (p c : ℕ) (push_worker pop_worker : ℕ → Option Counters) (pushes pops few : ℕ → ℕ)
    → ((i : ℕ) → Counts (pushes i) 0 1 (push_worker i))
    → ((i : ℕ) → Counts 0 (pops i) (few i) (pop_worker i))
    → Counts
        (all_rounds p pushes)
        (all_rounds c pops)
        (p + all_rounds c few)
        (both (sum_counts p push_worker) (sum_counts c pop_worker))
all-Counts p c push_worker pop_worker pushes pops few h g =
    let (m, e, k) =
      both-Counts (sum_counts p push_worker) (sum_counts c pop_worker) _ _ _ _ _ _
        (sum_counts-Counts p push_worker pushes (λ i. 0) (λ i. 1) h)
        (sum_counts-Counts c pop_worker (λ i. 0) pops few g) in
    (
      m,
      e,
      record {
        pushes = omega (arith, k.pushes, all_rounds-none c);
        pops = omega (arith, k.pops, all_rounds-none p);
        few = omega (arith, k.few, one_each p);
        exact = λ none_failed.
            let (x, y) = k.exact none_failed in
            (omega (arith, x, all_rounds-none c), omega (arith, y, all_rounds-none p));
      },
    )
