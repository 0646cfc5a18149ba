-- ===== src/Daemon/Tests.antt =====
-- A start on the socket of a running daemon.
use atomic_queue.Prelude.{ℕ, ◌≡◌, refl, none, some, [], ◌∷◌, get_elem?, arith, true}
use atomic_queue.Daemon.{
  Site, SitePath, checking, accepting, socket, failed, already_running, remove_stale_socket,
  dial_or_stop, remove_or_stop, after_stat, after_dial, after_remove, after_listen, listen_or_stop,
  start_up, orphaned, SerialReach, untouched, after, start_alone, killed_alone, stopped, nothing,
}
use atomic_queue.Daemon.Alone.{one_daemon}
use atomic_queue.Daemon.Starts.{two_starts_race}
use atomic_queue.Daemon.Stops.{start_during_stop}
use atomic_queue.Daemon.Ends.{Ends, serve-Ends}
use atomic_queue.Daemon.Serve.{Answers, listener_closed, serve, after_start, accept_loop}

running_kept : remove_stale_socket (socket (some 3)) ≡ (socket (some 3), failed already_running)
unfolding remove_stale_socket dial_or_stop remove_or_stop after_stat after_dial
running_kept = refl

-- A start over a stale socket, the end of that process by a signal it cannot catch, and a start.
abbrev restarted : Site
restarted = record { entry = socket (some 1); stages = stopped ∷ accepting ∷ [] }

restarted-reached : SerialReach (socket none) restarted
unfolding start_up listen_or_stop remove_stale_socket dial_or_stop remove_or_stop after_stat
    after_dial after_remove after_listen orphaned
restarted-reached = after (after (after untouched start_alone) (killed_alone 0 refl)) start_alone

one_daemon_example :
    SitePath (record { entry = socket none; stages = [] }) restarted
    × (◌≡◌ {A = ℕ} 1 1)
    × (restarted.entry ≡ socket (some 1))
one_daemon_example = one_daemon (socket none) restarted 1 1 (λ id e. cc) restarted-reached refl refl

two_starts_race_example :
    (t : Site) × SitePath (record { entry = socket none; stages = checking ∷ checking ∷ [] }) t
    × (get_elem? t.stages 0 ≡ some accepting)
    × (get_elem? t.stages 1 ≡ some accepting)
    × (t.entry ≡ socket (some 1))
two_starts_race_example = two_starts_race 0 1 (omega arith) (checking ∷ checking ∷ []) refl refl

start_during_stop_example :
    (m : Site) × SitePath
      (record { entry = socket (some 0); stages = accepting ∷ checking ∷ checking ∷ [] })
      m
    × (m.stages ≡ stopped ∷ accepting ∷ checking ∷ [])
    × (m.entry ≡ nothing)
    × (t : Site) × SitePath m t
    × (t.stages ≡ stopped ∷ accepting ∷ accepting ∷ [])
    × (t.entry ≡ socket (some 2))
start_during_stop_example = start_during_stop []

-- A daemon over a stale socket, with two connections before the signal.
abbrev signalled : Answers ℕ
signalled = record {
  makes_dir = true;
  changes_mode = true;
  makes_epoll = true;
  connections = 10 ∷ 11 ∷ [];
  last = listener_closed;
}

serve-Ends_example : Ends signalled (socket none) (serve signalled 5 (socket none))
serve-Ends_example = serve-Ends signalled 5 (socket none)

two_handled :
    serve signalled 5 (socket none)
    ≡ record { entry = nothing; handled = 10 ∷ 11 ∷ []; error = none }
unfolding serve after_start accept_loop start_up listen_or_stop remove_stale_socket dial_or_stop
    remove_or_stop after_stat after_dial after_remove after_listen
two_handled = refl
