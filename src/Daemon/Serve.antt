-- ===== src/Daemon/Serve.antt =====
-- main.go: `serve` from its start to its end, when no other process interferes at the path and a
-- call on the path fails only for what stands there (the other failures are steps in SiteStep of
-- Daemon). The handlers of the connections run on their own.
use atomic_queue.Prelude.{ℕ, Bool, Option, none, some, List, [], ◌∷◌, ◌++◌, if◌then◌else◌}
use atomic_queue.Daemon.{
  Entry, nothing, StartError, Stage, checking, dialing, removing, listening, accepting, failed,
  closing, stopped, start_up,
}

pub data ServeError : Type 0 where
  no_directory : ServeError
  not_started : StartError → ServeError
  chmod_failed watcher_failed accept_failed : ServeError

-- How `Accept` ends: with `net.ErrClosed`, as it does after a signal, or with another error.
pub data LastAccept : Type 0 where
  listener_closed : LastAccept
  accept_broken : LastAccept

-- What the operating system answers: for the directory, the mode, the epoll instance, and the
-- connections before the last `Accept`.
pub record Answers {ℓ} (A : Type ℓ) : Type ℓ where
  pub makes_dir : Bool
  pub changes_mode : Bool
  pub makes_epoll : Bool
  pub connections : List A
  pub last : LastAccept

-- What is left at the path, the connections that got a handler, and the error.
pub record Served {ℓ} (A : Type ℓ) : Type ℓ where
  pub entry : Entry
  pub handled : List A
  pub error : Option ServeError

module _ {ℓ} {A : Type ℓ} where
  abbrev pub ends : Entry → Option ServeError → Served A
  ends entry error = record { entry = entry; handled = []; error = error }

  unfoldable pub accept_loop :
      (handled connections : List A) → LastAccept → List A × Option ServeError
  accept_loop handled [] listener_closed = (handled, none)
  accept_loop handled [] accept_broken = (handled, some accept_failed)
  accept_loop handled (conn ∷ rest) last = accept_loop (handled ++ conn ∷ []) rest last

  -- From `net.Listen` on: `listener.Close` and `os.Remove` are deferred.
  unfoldable pub after_start : Answers A → Entry × Stage → Served A
  unfolding accept_loop
  after_start os (entry, accepting) =
      if os.changes_mode
      then (if os.makes_epoll
          then (let (handled, error) = accept_loop [] os.connections os.last in
              record { entry = nothing; handled = handled; error = error })
          else ends nothing (some watcher_failed))
      else ends nothing (some chmod_failed)
  after_start os (entry, failed e) = ends entry (some (not_started e))
  after_start os (entry, checking) = ends entry none
  after_start os (entry, dialing) = ends entry none
  after_start os (entry, removing) = ends entry none
  after_start os (entry, listening) = ends entry none
  after_start os (entry, closing cause) = ends entry none
  after_start os (entry, stopped) = ends entry none

  unfoldable pub serve : Answers A → ℕ → Entry → Served A
  unfolding start_up after_start
  serve os id entry =
      if os.makes_dir then after_start os (start_up id entry) else ends entry (some no_directory)
