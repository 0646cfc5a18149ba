-- ===== src/Load/Totals.antt =====
-- examples/go/stress/main.go: the numbers that a run reports.
