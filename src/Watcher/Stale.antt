-- ===== src/Watcher/Stale.antt =====
-- conn_watcher.go: an event that `EpollWait` has returned for a connection that is gone by the time
-- `run` looks at it, when the kernel has given its descriptor to a new one.
use atomic_queue.Prelude.{
  ℕ, ◌≡◌, refl, inl, Bool, true, false, none, some, List, [], ◌∷◌, get_elem?, arith,
}
use atomic_queue.Watcher.{
  Watcher, new_conn_watcher, put_cancel, delete_cancel, arm, disarm, take_event, ConnPhase,
  starting, adding, serving, leaving, removing, closing, closed, Conn, Watch, cancel_conn, accept,
  register, epoll_adds, stop_serving, epoll_removes, unregister, close_conn, hang_up, epoll_wait,
  look, call_cancel, no_conns, WatchReach, made, after,
}
use atomic_queue.Watcher.Exact.{cancels_exactly}

module _ (fd : ℕ) where
  abbrev conn_at : ConnPhase → Bool → Conn
  conn_at phase hung = record { fd = fd; phase = phase; hung = hung; cancelled = false }

  abbrev watch : Watcher → List Conn → List ℕ → Watch
  watch w conns pending = record { watcher = w; conns = conns; pending = pending; held = none }

  abbrev armed_for : ℕ → Watcher → Watcher
  armed_for id w = arm (put_cancel w fd id) fd

  first_watcher : Watcher
  first_watcher = armed_for 0 new_conn_watcher

  first_armed : first_watcher.armed fd ≡ true
  unfolding first_watcher arm put_cancel
  first_armed = ground arith

  -- The first connection is served and watched.
  first_served : WatchReach (watch first_watcher (conn_at (serving true) false ∷ []) [])
  unfolding first_watcher no_conns
  first_served =
      after (after (after made (accept fd tt)) (register 0 (conn_at starting false) refl refl))
        (epoll_adds 0 (conn_at adding false) refl refl)

  -- It hangs up, and `EpollWait` returns the event.
  first_hung : WatchReach (watch first_watcher (conn_at (serving true) true ∷ []) (fd ∷ []))
  first_hung =
      after (after first_served (hang_up 0 (conn_at (serving true) false) refl (λ e. cc)))
        (epoll_wait 0 (conn_at (serving true) true) refl (λ e. cc) refl first_armed)

  left_watcher : Watcher
  left_watcher = delete_cancel (disarm first_watcher fd) fd

  -- Its handler ends, with the event still to be looked at.
  first_closed : WatchReach (watch left_watcher (conn_at closed true ∷ []) (fd ∷ []))
  unfolding left_watcher
  first_closed =
      after
        (after
          (after (after first_hung (stop_serving 0 (conn_at (serving true) true) true refl refl))
            (epoll_removes 0 (conn_at leaving true) refl refl))
          (unregister 0 (conn_at removing true) refl refl))
        (close_conn 0 (conn_at closing true) refl refl)

  -- The next connection gets the descriptor, and is served and watched.
  second_served : WatchReach (
      watch
        (armed_for 1 left_watcher)
        (conn_at closed true ∷ conn_at (serving true) false ∷ [])
        (fd ∷ []))
  second_served =
      after
        (after (after first_closed (accept fd (inl refl, tt)))
          (register 1 (conn_at starting false) refl refl))
        (epoll_adds 1 (conn_at adding false) refl refl)

  second_known : (take_event (armed_for 1 left_watcher) fd).0 ≡ some 1
  second_known =
      (cancels_exactly fd 1 second_served).1
        ((conn_at (serving true) false, refl, refl, refl, refl), λ e. cc)

  -- For every descriptor there is a reachable state in which a connection that is being served, and
  -- whose peer has not hung up, is cancelled.
  pub stale_event_cancels :
      (s : Watch) × WatchReach s
      × (c : Conn) × (get_elem? s.conns 1 ≡ some c)
      × (c.fd ≡ fd)
      × (c.phase ≡ serving true)
      × (c.hung ≡ false)
      × (c.cancelled ≡ true)
  unfolding take_event cancel_conn
  stale_event_cancels =
      let taken = after second_served (look fd [] refl refl) in
      let last = after taken (call_cancel 1 second_known) in
      let cancelled : Conn = record (conn_at (serving true) false) { cancelled = true } in
      (
        watch (take_event (armed_for 1 left_watcher) fd).1
            (cancel_conn (some 1) (conn_at closed true ∷ conn_at (serving true) false ∷ [])) [],
        last,
        cancelled,
        refl,
        refl,
        refl,
        refl,
        refl,
      )
