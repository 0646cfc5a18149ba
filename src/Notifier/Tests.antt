-- ===== src/Notifier/Tests.antt =====
-- Two blocked pushes that come to their notices, the second ten seconds after the first.
use atomic_queue.Prelude.{◌+◌, ◌≤◌, ◌⊎◌, refl, true, [], ◌∷◌, arith}
use atomic_queue.Notifier.{
  min_interval, returned, Notifier, is_early, after_load, swap, open_writer, notify, load,
  compare_and_swap, lock, notice, new_block_notifier, NotifierReach, created, stepped,
}
use atomic_queue.Notifier.Notices.{notices_apart}

abbrev noticed : Notifier
noticed = record {
  last_ns = 10_000_000_007;
  writer_set = true;
  has_writer = true;
  callers = returned ∷ returned ∷ [];
  passed = 10_000_000_007 ∷ 7 ∷ [];
  notices = 7 ∷ 10_000_000_007 ∷ [];
  opened = 1;
}

-- The first comes to its notice after the second.
noticed_reached : NotifierReach noticed
unfolding new_block_notifier after_load is_early swap open_writer
noticed_reached =
    let first = stepped created (notify 7 (omega arith) (omega arith)) in
    let both = stepped first (notify 10_000_000_007 (omega arith) (omega arith)) in
    let first_on = stepped (stepped both (load 0 refl)) (compare_and_swap 0 refl) in
    let second_on = stepped (stepped first_on (load 1 refl)) (compare_and_swap 1 refl) in
    let opened = stepped (stepped second_on (lock 0 true refl)) (lock 1 true refl) in
    stepped (stepped opened (notice 1 refl)) (notice 0 refl)

notices_apart_example :
    ((7 + min_interval ≤ 10_000_000_007) ⊎ (10_000_000_007 + min_interval ≤ 7)) × (1 ≤ 1)
notices_apart_example = notices_apart 0 1 7 10_000_000_007 noticed_reached (omega arith) refl refl
