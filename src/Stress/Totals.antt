-- ===== src/Stress/Totals.antt =====
-- stress.go: the numbers that a stress run reports.
use atomic_queue.Prelude.{ℕ, ◌≡◌, Option, some}
use atomic_queue.Protocol.Response.{Response}
use atomic_queue.Stress.Workers.{Counters}
use atomic_queue.Stress.Sums.{Ran, Counts}

Runs : Counters → ℕ → Option Counters → Type 0
Runs n rounds r = (m : Counters) × (r ≡ some m) × Ran n rounds m
