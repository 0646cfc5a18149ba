-- ===== src/Watcher/Tests.antt =====
-- A connection that is served, and one that has the descriptor of another.
use atomic_queue.Prelude.{◌≡◌, ◌≢◌, ◌↔◌, refl, true, false, none, some, [], ◌∷◌, get_elem?}
use atomic_queue.Watcher.{
  Watch, Conn, serving, starting, adding, arm, put_cancel, new_conn_watcher, no_conns, accept,
  take_event, register, epoll_adds, WatchReach, made, after,
}
use atomic_queue.Watcher.Owned.{IsWatching}
use atomic_queue.Watcher.Exact.{cancels_exactly}
use atomic_queue.Watcher.Stale.{stale_event_cancels}

abbrev served : Watch
served = record {
  watcher = arm (put_cancel new_conn_watcher 7 0) 7;
  conns = record { fd = 7; phase = serving true; hung = false; cancelled = false } ∷ [];
  pending = [];
  held = none;
}

served_reached : WatchReach served
unfolding no_conns
served_reached =
    after
      (after (after made (accept 7 tt)) (
        register 0 (record { fd = 7; phase = starting; hung = false; cancelled = false }) refl
          refl))
      (epoll_adds 0 (record { fd = 7; phase = adding; hung = false; cancelled = false }) refl refl)

cancels_exactly_example :
    ((take_event served.watcher 7).0 ≡ some 0) ↔ (IsWatching served 7 0 × (served.held ≢ some 0))
cancels_exactly_example = cancels_exactly 7 0 served_reached

stale_event_cancels_example :
    (s : Watch) × WatchReach s
    × (c : Conn) × (get_elem? s.conns 1 ≡ some c)
    × (c.fd ≡ 7)
    × (c.phase ≡ serving true)
    × (c.hung ≡ false)
    × (c.cancelled ≡ true)
stale_event_cancels_example = stale_event_cancels 7
