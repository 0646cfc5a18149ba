-- ===== src/Daemon/Ends.antt =====
-- main.go: how `serve` ends.
use atomic_queue.Prelude.{
  ℕ, ◌≡◌, refl, ap, ◌∙◌, inl, inr, Bool-cases, none, some, List, [], ◌∷◌, ◌++◌, append_assoc,
  append-nil, sym,
}
use atomic_queue.Daemon.{
  Entry, nothing, Stage, accepting, start_up, remove_stale_socket, listen_or_stop, after_listen,
}
use atomic_queue.Daemon.Starts.{
  IsStale, Cleans, cleared, in_use, foreign, remove_stale_socket-Cleans,
}
use atomic_queue.Daemon.Serve.{
  ServeError, no_directory, chmod_failed, watcher_failed, accept_failed, LastAccept,
  listener_closed, accept_broken, Answers, Served, accept_loop, after_start, serve,
}

-- The three ways to end: closed after its last connection; broken off, with the path cleared; and
-- refused, with the path as it was.
pub data Ends {ℓ} {A : Type ℓ} (os : Answers A) (entry : Entry) (r : Served A) : Type ℓ where
  closed :
      IsStale entry
      → os.last ≡ listener_closed
      → r.entry ≡ nothing
      → r.handled ≡ os.connections
      → r.error ≡ none
      → Ends os entry r
  broken_off :
      (e : ServeError) → IsStale entry → r.entry ≡ nothing → r.error ≡ some e → Ends os entry r
  refused : (e : ServeError) → r.entry ≡ entry → r.handled ≡ [] → r.error ≡ some e → Ends os entry r

module _ {ℓ} {A : Type ℓ} where
  accept_loop-closed :
      (before after : List A) → accept_loop before after listener_closed ≡ (before ++ after, none)
  unfolding accept_loop
  accept_loop-closed before [] = ap (λ x. (x, none)) (sym (append-nil before))
  accept_loop-closed before (c ∷ cs) =
      accept_loop-closed (before ++ c ∷ []) cs
      ∙ ap (λ x. (x, none)) (append_assoc before (c ∷ []) cs)

  accept_loop-broken :
      (before after : List A)
      → accept_loop before after accept_broken ≡ (before ++ after, some accept_failed)
  unfolding accept_loop
  accept_loop-broken before [] = ap (λ x. (x, some accept_failed)) (sym (append-nil before))
  accept_loop-broken before (c ∷ cs) =
      accept_loop-broken (before ++ c ∷ []) cs
      ∙ ap (λ x. (x, some accept_failed)) (append_assoc before (c ∷ []) cs)

  accepting-Ends :
      (os : Answers A) (entry left : Entry)
      → IsStale entry
      → Ends os entry (after_start os (left, accepting))
  unfolding after_start
  accepting-Ends os entry left stale = elim (Bool-cases os.changes_mode) [
    | inr e ↦ simp (e) (broken_off chmod_failed stale refl refl)
    | inl e ↦ elim (Bool-cases os.makes_epoll) [
      | inr h ↦ simp (e, h) (broken_off watcher_failed stale refl refl)
      | inl h ↦ simp (e, h) (go os.last refl)
    ]
  ]
    where
      go :
          (last : LastAccept)
          → os.last ≡ last
          → Ends os entry (record {
            entry = nothing;
            handled = (accept_loop [] os.connections os.last).0;
            error = (accept_loop [] os.connections os.last).1;
          })
      go listener_closed e =
          simp (e, accept_loop-closed [] os.connections) (closed stale e refl refl refl)
      go accept_broken e =
          simp (e, accept_loop-broken [] os.connections) (broken_off accept_failed stale refl refl)

  start-Ends :
      (os : Answers A) (id : ℕ) (entry : Entry) (r : Entry × Stage)
      → Cleans entry r
      → Ends os entry (after_start os (listen_or_stop id r))
  unfolding listen_or_stop after_listen after_start
  start-Ends os id entry r (cleared stale e) = rw e (accepting-Ends os entry nothing stale)
  start-Ends os id entry r (in_use other e h) = rw h (refused _ refl refl refl)
  start-Ends os id entry r (foreign e h) = rw h (refused _ refl refl refl)

  -- When no other process interferes at the path, `serve` ends in one of three ways, whatever the
  -- operating system answers for the directory, the mode, the epoll instance and the connections.
  -- It returns no error only when the path was free or held a socket on which nobody listens, and
  -- the listener was closed in the end: then each connection has got its handler, in order, and
  -- nothing is left at the path. It can fail after it has listened, and then nothing is left at the
  -- path either. Or it fails before that, handles no connection, and leaves the path as it was.
  pub serve-Ends : (os : Answers A) (id : ℕ) (entry : Entry) → Ends os entry (serve os id entry)
  unfolding serve start_up
  serve-Ends os id entry = elim (Bool-cases os.makes_dir) [
    | inr e ↦ simp (e) (refused no_directory refl refl refl)
    | inl e ↦
        simp (e)
          (start-Ends os id entry (remove_stale_socket entry) (remove_stale_socket-Cleans entry))
  ]
