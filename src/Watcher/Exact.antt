-- ===== src/Watcher/Exact.antt =====
-- conn_watcher.go: that every step keeps the map of cancel functions exact.
use atomic_queue.Prelude.{ℕ, ◌≡◌, ◌≢◌, ◌↔◌, refl, subst, true, false, some}
use atomic_queue.Watcher.{
  arm, disarm, refused, serving, removing, closing, closed, take_event, Watch, WatchStep, accept,
  no_descriptor, register, epoll_adds, epoll_refuses, undo_register, stop_serving, epoll_removes,
  unregister, close_conn, hang_up, epoll_wait, look, call_cancel, new_conn_watcher, no_conns,
  cancel_conn, WatchReach, made, after,
}
use atomic_queue.Watcher.Owned.{IsWatching}
use atomic_queue.Watcher.Moves.{move-quiet, move-put, move-delete, hang_up-WatchOk, stop-WatchOk}
use atomic_queue.Watcher.Held.{
  settled, mark, HeldOk, moved, accept-HeldOk, look-HeldOk, call_cancel-HeldOk, settled-IsWatching,
}

Step-HeldOk : {s t : Watch} → WatchStep s t → HeldOk s → HeldOk t
unfolding arm disarm
Step-HeldOk {s = s} (accept fd free) k = accept-HeldOk s fd k free
Step-HeldOk {s = s} (no_descriptor i c at e) k = moved s i c k at _ c.hung s.watcher λ b there.
    move-quiet (settled s) i (mark b c) k.ok there (serving false) s.watcher (rw e refl) (rw e refl)
      (λ p. cc) refl
Step-HeldOk {s = s} (register i c at e) k =
    moved s i c k at _ c.hung _ λ b there. move-put (settled s) i (mark b c) k.ok there e
Step-HeldOk {s = s} (epoll_adds i c at e) k = moved s i c k at _ c.hung _ λ b there.
    move-quiet (settled s) i (mark b c) k.ok there (serving true) _ (rw e refl) (rw e refl)
      (λ p. cc) refl
Step-HeldOk {s = s} (epoll_refuses i c at e) k = moved s i c k at _ c.hung s.watcher λ b there.
    move-quiet (settled s) i (mark b c) k.ok there refused s.watcher (rw e refl) (rw e refl)
      (λ p. cc) refl
Step-HeldOk {s = s} (undo_register i c at e) k = moved s i c k at _ c.hung _ λ b there.
    move-delete (settled s) i (mark b c) k.ok there (serving false) (rw e refl) refl (λ p. cc)
Step-HeldOk {s = s} (stop_serving i c watched at e) k =
    moved s i c k at _ c.hung s.watcher
      λ b there. stop-WatchOk (settled s) i (mark b c) k.ok there watched e
Step-HeldOk {s = s} (epoll_removes i c at e) k = moved s i c k at _ c.hung _ λ b there.
    move-quiet (settled s) i (mark b c) k.ok there removing _ (rw e refl) (rw e refl) (λ p. cc) refl
Step-HeldOk {s = s} (unregister i c at e) k =
    moved s i c k at _ c.hung _
      λ b there. move-delete (settled s) i (mark b c) k.ok there closing (rw e refl) refl (λ p. cc)
Step-HeldOk {s = s} (close_conn i c at e) k = moved s i c k at _ c.hung s.watcher λ b there.
    move-quiet (settled s) i (mark b c) k.ok there closed s.watcher (rw e refl) (rw e refl)
      (λ p. cc) refl
Step-HeldOk {s = s} (hang_up i c at up) k =
    moved s i c k at c.phase true s.watcher
      λ b there. hang_up-WatchOk (settled s) i (mark b c) k.ok there up
Step-HeldOk {s = s} (epoll_wait i c at up hung armed) k = record {
  ok = record {
    owned = k.ok.owned;
    complete = k.ok.complete;
    apart = k.ok.apart;
    early = k.ok.early;
  };
  place = k.place;
}
Step-HeldOk {s = s} (look fd rest free e) k = look-HeldOk s fd rest free k
Step-HeldOk {s = s} (call_cancel id e) k = call_cancel-HeldOk s id e k

Reach-HeldOk : {s : Watch} → WatchReach s → HeldOk s
unfolding no_conns new_conn_watcher cancel_conn
Reach-HeldOk made = record {
  ok = record {
    owned = λ fd id h. cc;
    complete = λ i c h. cc;
    apart = λ i j c d h. cc;
    early = λ i c h. cc;
  };
  place = λ id h. cc;
}
Reach-HeldOk (after r st) = Step-HeldOk st (Reach-HeldOk r)

-- Whatever connections come, go and hang up in whatever interleaving with `run`, as long as the
-- kernel gives no descriptor to two open connections: when `run` looks at an event for a descriptor,
-- it takes the cancel function of a connection exactly if that connection has the descriptor, is
-- registered and not yet unregistered, has not been cancelled, and is not the one whose cancel
-- function `run` has taken before and not yet called.
pub cancels_exactly :
    {s : Watch} (fd id : ℕ)
    → WatchReach s
    → ((take_event s.watcher fd).0 ≡ some id) ↔ (IsWatching s fd id × (s.held ≢ some id))
unfolding take_event
cancels_exactly {s} fd id r =
    let k = Reach-HeldOk r in
    (
      λ h. (settled-IsWatching s.held s fd id).0 (k.ok.owned fd id h),
      λ h.
          let (c, at, c_fd, watched, live) = (settled-IsWatching s.held s fd id).1 h in
          subst (λ q. s.watcher.cancels q ≡ some id) c_fd (k.ok.complete id c at watched live),
    )
