-- ===== src/Daemon.antt =====
-- main.go: removeStaleSocket, and the start and end of `serve`, for any number of processes that
-- are started on one socket path.
pub mod Starts
pub mod Alone
pub mod Serve
pub mod Ends
pub mod Stops
mod Tests
use atomic_queue.Prelude.{
  ℕ, ◌≡◌, Option, none, some, List, [], ◌∷◌, ◌++◌, length, get_elem?, set, ◌==◌, if◌then◌else◌,
}

-- What stands at the path: nothing, a file that is no socket, or a socket, with the process that
-- listens on it, if one does.
pub data Entry : Type 0 where
  nothing : Entry
  plain_file : Entry
  socket : (listener : Option ℕ) → Entry

pub data StartError : Type 0 where
  not_a_socket already_running stat_failed dial_failed remove_failed listen_failed setup_failed :
      StartError

-- Where a process stands: before `os.Stat`, before the dial, before `os.Remove`, before
-- `net.Listen`, accepting, in the deferred calls (`listener.Close` has unlinked the path, and
-- `os.Remove` is still to come), or at its end.
pub data Stage : Type 0 where
  checking : Stage
  dialing : Stage
  removing : Stage
  listening : Stage
  accepting : Stage
  closing : (cause : Option StartError) → Stage
  failed : StartError → Stage
  stopped : Stage

-- `os.Stat` and the test of the file's mode.
unfoldable pub after_stat : Entry → Stage
after_stat nothing = listening
after_stat plain_file = failed not_a_socket
after_stat (socket listener) = dialing

-- The dial: a missing path and a refused connection are no daemon.
unfoldable pub after_dial : Entry → Stage
after_dial (socket (some id)) = failed already_running
after_dial (socket none) = removing
after_dial plain_file = removing
after_dial nothing = removing

-- `os.Remove`
unfoldable pub after_remove : Entry → Entry × Stage
after_remove nothing = (nothing, failed remove_failed)
after_remove plain_file = (nothing, listening)
after_remove (socket listener) = (nothing, listening)

-- `net.Listen`, which wants the path to be free.
unfoldable pub after_listen : ℕ → Entry → Entry × Stage
after_listen id nothing = (socket (some id), accepting)
after_listen id plain_file = (plain_file, failed listen_failed)
after_listen id (socket listener) = (socket listener, failed listen_failed)

-- `removeStaleSocket` of a process that nobody interrupts: what is left at the path, and the stage
-- in which `serve` goes on.
unfoldable pub remove_or_stop : Entry → Stage → Entry × Stage
unfolding after_remove
remove_or_stop entry removing = after_remove entry
remove_or_stop entry stage = (entry, stage)

unfoldable pub dial_or_stop : Entry → Stage → Entry × Stage
unfolding remove_or_stop after_dial
dial_or_stop entry dialing = remove_or_stop entry (after_dial entry)
dial_or_stop entry stage = (entry, stage)

unfoldable pub remove_stale_socket : Entry → Entry × Stage
unfolding dial_or_stop after_stat
remove_stale_socket entry = dial_or_stop entry (after_stat entry)

-- From `serve` up to the accept loop, again without an interruption.
unfoldable pub listen_or_stop : ℕ → Entry × Stage → Entry × Stage
unfolding after_listen
listen_or_stop id (entry, listening) = after_listen id entry
listen_or_stop id (entry, stage) = (entry, stage)

unfoldable pub start_up : ℕ → Entry → Entry × Stage
unfolding remove_stale_socket listen_or_stop
start_up id entry = listen_or_stop id (remove_stale_socket entry)

-- Where the deferred calls end.
abbrev pub closed_after : Option StartError → Stage
closed_after none = stopped
closed_after (some e) = failed e

-- A process that is killed leaves its socket behind.
unfoldable pub orphaned : ℕ → Entry → Entry
orphaned i nothing = nothing
orphaned i plain_file = plain_file
orphaned i (socket none) = socket none
orphaned i (socket (some id)) = if id == i then socket none else socket (some id)

-- The path and the processes.
pub record Site : Type 0 where
  pub entry : Entry
  pub stages : List Stage

abbrev pub proceed : Site → ℕ → Entry → Stage → Site
proceed s i entry stage = record { entry = entry; stages = set s.stages i stage }

pub data SiteStep (s : Site) : Site → Type 0 where
  start : SiteStep s (record s { stages = s.stages ++ checking ∷ [] })
  stat :
      (i : ℕ)
      → get_elem? s.stages i ≡ some checking
      → SiteStep s (proceed s i s.entry (after_stat s.entry))
  dial :
      (i : ℕ)
      → get_elem? s.stages i ≡ some dialing
      → SiteStep s (proceed s i s.entry (after_dial s.entry))
  remove :
      (i : ℕ)
      → get_elem? s.stages i ≡ some removing
      → SiteStep s (proceed s i (after_remove s.entry).0 (after_remove s.entry).1)
  listen :
      (i : ℕ)
      → get_elem? s.stages i ≡ some listening
      → SiteStep s (proceed s i (after_listen i s.entry).0 (after_listen i s.entry).1)
  -- What the operating system refuses for reasons of its own.
  stat_fails :
      (i : ℕ)
      → get_elem? s.stages i ≡ some checking
      → SiteStep s (proceed s i s.entry (failed stat_failed))
  dial_fails :
      (i : ℕ)
      → get_elem? s.stages i ≡ some dialing
      → SiteStep s (proceed s i s.entry (failed dial_failed))
  remove_fails :
      (i : ℕ)
      → get_elem? s.stages i ≡ some removing
      → SiteStep s (proceed s i s.entry (failed remove_failed))
  listen_fails :
      (i : ℕ)
      → get_elem? s.stages i ≡ some listening
      → SiteStep s (proceed s i s.entry (failed listen_failed))
  -- `os.Chmod`, the watcher or `Accept` fails, and `listener.Close` unlinks the path.
  setup_fails :
      (i : ℕ)
      → get_elem? s.stages i ≡ some accepting
      → SiteStep s (proceed s i nothing (closing (some setup_failed)))
  -- `listener.Close` after a signal, which unlinks the path too
  stop :
      (i : ℕ)
      → get_elem? s.stages i ≡ some accepting
      → SiteStep s (proceed s i nothing (closing none))
  -- the deferred `os.Remove`, whatever stands at the path by then
  remove_path :
      (i : ℕ) (cause : Option StartError)
      → get_elem? s.stages i ≡ some (closing cause)
      → SiteStep s (proceed s i nothing (closed_after cause))
  killed :
      (i : ℕ)
      → get_elem? s.stages i ≡ some accepting
      → SiteStep s (proceed s i (orphaned i s.entry) stopped)

-- One step after the other.
pub data SitePath (s : Site) : Site → Type 0 where
  here : SitePath s s
  next : {t u : Site} → SitePath s t → SiteStep t u → SitePath s u

-- The same when each start and each stop is over before another start or stop begins.
pub data SerialStep (s : Site) : Site → Type 0 where
  start_alone : SerialStep s (record {
    entry = (start_up (length s.stages) s.entry).0;
    stages = s.stages ++ (start_up (length s.stages) s.entry).1 ∷ [];
  })
  stop_alone :
      (i : ℕ) → get_elem? s.stages i ≡ some accepting → SerialStep s (proceed s i nothing stopped)
  killed_alone :
      (i : ℕ)
      → get_elem? s.stages i ≡ some accepting
      → SerialStep s (proceed s i (orphaned i s.entry) stopped)

-- What can happen at a path where nobody listens at first.
pub data SerialReach (entry : Entry) : Site → Type 0 where
  untouched : SerialReach entry (record { entry = entry; stages = [] })
  after : {s t : Site} → SerialReach entry s → SerialStep s t → SerialReach entry t
