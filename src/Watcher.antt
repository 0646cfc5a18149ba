-- ===== src/Watcher.antt =====
-- conn_watcher.go, and the part of handleConn in main.go that uses it: connections that come and
-- go, the map from file descriptors to cancel functions, and the events of the kernel.
pub mod Table
pub mod Owned
pub mod Moves
pub mod Events
pub mod Held
pub mod Exact
pub mod Stale
mod Tests
use atomic_queue.Prelude.{
  ℕ, zero, suc, ◌≡◌, ◌≢◌, ◌⊎◌, Bool, true, false, Option, none, some, List, [], ◌∷◌, ◌++◌, length,
  get_elem?, set, All, ◌==◌, if◌then◌else◌,
}

-- `connWatcher`: `cancels` holds for a descriptor the number of the connection whose context its
-- cancel function ends, and `armed` is the interest list of the epoll instance.
pub record Watcher : Type 0 where
  pub cancels : ℕ → Option ℕ
  pub armed : ℕ → Bool

unfoldable pub new_conn_watcher : Watcher
new_conn_watcher = record { cancels = λ fd. none; armed = λ fd. false }

abbrev pub update {ℓ} : {A : Type ℓ} → (ℕ → A) → ℕ → A → ℕ → A
update f k v q = if k == q then v else f q

-- `w.cancels[fd] = cancel` and `delete(w.cancels, fd)`
unfoldable pub put_cancel : Watcher → ℕ → ℕ → Watcher
put_cancel w fd id = record w { cancels = update w.cancels fd (some id) }

unfoldable pub delete_cancel : Watcher → ℕ → Watcher
delete_cancel w fd = record w { cancels = update w.cancels fd none }

-- `EpollCtl`
unfoldable pub arm : Watcher → ℕ → Watcher
arm w fd = record w { armed = update w.armed fd true }

unfoldable pub disarm : Watcher → ℕ → Watcher
disarm w fd = record w { armed = update w.armed fd false }

-- The locked part of `run` for one event: the connection to cancel, if any.
unfoldable pub take_event : Watcher → ℕ → Option ℕ × Watcher
unfolding delete_cancel
take_event w fd = (w.cancels fd, delete_cancel w fd)

-- Where handleConn stands: before `register`; in it, before `EpollCtl` and after a refusal of it;
-- in its loop, with the watcher or without; in `unregister`, before `EpollCtl` and before the lock;
-- before `conn.Close`; past it.
pub data ConnPhase : Type 0 where
  starting : ConnPhase
  adding : ConnPhase
  refused : ConnPhase
  serving : (watched : Bool) → ConnPhase
  leaving : ConnPhase
  removing : ConnPhase
  closing : ConnPhase
  closed : ConnPhase

-- A connection: its descriptor, whether the peer has hung up, and whether its context is cancelled.
pub record Conn : Type 0 where
  pub fd : ℕ
  pub phase : ConnPhase
  pub hung : Bool
  pub cancelled : Bool

-- `pending` are the events that `EpollWait` has returned and `run` has not yet looked at; `held` is the
-- connection whose cancel function `run` has taken out of the map and not yet called.
pub record Watch : Type 0 where
  pub watcher : Watcher
  pub conns : List Conn
  pub pending : List ℕ
  pub held : Option ℕ

abbrev pub at_phase : Conn → ConnPhase → Conn
at_phase c phase = record c { phase = phase }

abbrev pub move : Watch → ℕ → Conn → ConnPhase → Watcher → Watch
move s i c phase w = record s { watcher = w; conns = set s.conns i (at_phase c phase) }

-- `cancel()` of what `take_event` gave.
unfoldable pub cancel_conn : Option ℕ → List Conn → List Conn
cancel_conn none conns = conns
cancel_conn (some id) [] = []
cancel_conn (some zero) (c ∷ conns) = record c { cancelled = true } ∷ conns
cancel_conn (some (suc id)) (c ∷ conns) = c ∷ cancel_conn (some id) conns

-- The kernel gives a new connection a descriptor that no open one has.
abbrev pub IsFree : ℕ → List Conn → Type 0
IsFree fd = All (λ c. (c.phase ≡ closed) ⊎ (c.fd ≢ fd))

pub data WatchStep (s : Watch) : Watch → Type 0 where
  accept :
      (fd : ℕ)
      → IsFree fd s.conns
      → WatchStep s (record s {
        conns =
            s.conns ++ record { fd = fd; phase = starting; hung = false; cancelled = false } ∷ [];
      })
  no_descriptor :
      (i : ℕ) (c : Conn)
      → get_elem? s.conns i ≡ some c
      → c.phase ≡ starting
      → WatchStep s (move s i c (serving false) s.watcher)
  register :
      (i : ℕ) (c : Conn)
      → get_elem? s.conns i ≡ some c
      → c.phase ≡ starting
      → WatchStep s (move s i c adding (put_cancel s.watcher c.fd i))
  epoll_adds :
      (i : ℕ) (c : Conn)
      → get_elem? s.conns i ≡ some c
      → c.phase ≡ adding
      → WatchStep s (move s i c (serving true) (arm s.watcher c.fd))
  epoll_refuses :
      (i : ℕ) (c : Conn)
      → get_elem? s.conns i ≡ some c
      → c.phase ≡ adding
      → WatchStep s (move s i c refused s.watcher)
  undo_register :
      (i : ℕ) (c : Conn)
      → get_elem? s.conns i ≡ some c
      → c.phase ≡ refused
      → WatchStep s (move s i c (serving false) (delete_cancel s.watcher c.fd))
  stop_serving :
      (i : ℕ) (c : Conn) (watched : Bool)
      → get_elem? s.conns i ≡ some c
      → c.phase ≡ serving watched
      → WatchStep s (move s i c (if watched then leaving else closing) s.watcher)
  epoll_removes :
      (i : ℕ) (c : Conn)
      → get_elem? s.conns i ≡ some c
      → c.phase ≡ leaving
      → WatchStep s (move s i c removing (disarm s.watcher c.fd))
  unregister :
      (i : ℕ) (c : Conn)
      → get_elem? s.conns i ≡ some c
      → c.phase ≡ removing
      → WatchStep s (move s i c closing (delete_cancel s.watcher c.fd))
  close_conn :
      (i : ℕ) (c : Conn)
      → get_elem? s.conns i ≡ some c
      → c.phase ≡ closing
      → WatchStep s (move s i c closed s.watcher)
  hang_up :
      (i : ℕ) (c : Conn)
      → get_elem? s.conns i ≡ some c
      → c.phase ≢ closed
      → WatchStep s (record s { conns = set s.conns i (record c { hung = true }) })
  epoll_wait :
      (i : ℕ) (c : Conn)
      → get_elem? s.conns i ≡ some c
      → c.phase ≢ closed
      → c.hung ≡ true
      → s.watcher.armed c.fd ≡ true
      → WatchStep s (record s { pending = s.pending ++ c.fd ∷ [] })
  -- `run` under the lock, and its call of `cancel` after it.
  look :
      (fd : ℕ) (rest : List ℕ)
      → s.held ≡ none
      → s.pending ≡ fd ∷ rest
      → WatchStep s (record s {
        watcher = (take_event s.watcher fd).1;
        held = (take_event s.watcher fd).0;
        pending = rest;
      })
  call_cancel :
      (id : ℕ)
      → s.held ≡ some id
      → WatchStep s (record s { conns = cancel_conn (some id) s.conns; held = none })

unfoldable pub no_conns : Watch
unfolding new_conn_watcher
no_conns = record { watcher = new_conn_watcher; conns = []; pending = []; held = none }

pub data WatchReach : Watch → Type 0 where
  made : WatchReach no_conns
  after : {s t : Watch} → WatchReach s → WatchStep s t → WatchReach t
