-- ===== src/Server/Expired.antt =====
-- Others of Server.Live in a daemon where the context of each call that waits ends at once.
use atomic_queue.Prelude.{
  ℕ, ◌≡◌, refl, subst, true, false, some, List, [], ◌∷◌, ◌++◌, All, arith, ◌==◌,
}
use atomic_queue.Fault.{Bytes, timed_out, err}
use atomic_queue.Broker.Waiters.{Waiter}
use atomic_queue.Broker.Ops.{Broker, enlist, cancel_turn}
use atomic_queue.Broker.PopCases.{leaves, had_left, cancel_turn-Cancels}
use atomic_queue.System.{
  cancelling, System, after_cancel, push_expire, pop_expire, cancel_lock, nothing_late, Move,
}
use atomic_queue.System.Paths.{here, onward, moves, expires}
use atomic_queue.Server.Live.{Others, with_broker}
use atomic_queue.Server.Possible.{JustEnlisted, IsPossible}

abbrev pub expired : Others
expired = record {
  meanwhile = λ s. s;
  ctx_err = λ s deadline. false;
  while_blocked = λ s channel payload sig. (some timed_out, s);
  while_waiting = λ s id deadline. (err timed_out, with_broker s (cancel_turn s.broker id).1);
}

-- A waiter that has just been put into the list is found there.
enlisted_found :
    (b : Broker) (id : ℕ) (channels : List Bytes)
    → (cancel_turn (enlist b (record { id = id; channels = channels })) id).0 ≡ true
unfolding enlist
enlisted_found b id channels =
    elim (cancel_turn-Cancels (enlist b (record { id = id; channels = channels })) id) [
      | leaves i w at same e ↦ rw e refl
      | had_left others e ↦ absurd (last_differs b.waiters others)
    ]
  where
    last_differs :
        (ws : List Waiter)
        → ¬ (All (λ v. (v.id == id) ≡ false) (ws ++ record { id = id; channels = channels } ∷ []))
    last_differs [] h = ground (arith, h.0)
    last_differs (w ∷ ws) h = last_differs ws h.1

found-waiting :
    (s : System) (id : ℕ) (channels : List Bytes)
    → JustEnlisted s id channels
    → (cancel_turn s.broker id).0 ≡ true
found-waiting s id channels (empty, b, e) = rw e (enlisted_found b id channels)

pub expired-IsPossible : (m q : ℕ) → IsPossible m q expired
unfolding after_cancel
expired-IsPossible m q = record {
  while_blocked = λ {s} r i c p sig at.
      let late = expires s i at in
      let failed = moves _ i late.1 (push_expire refl) in
      record {
        system = _;
        path = onward (onward here late.0) failed.0;
        done = true;
        stands = failed.1;
        shows = refl;
      };
  while_waiting = λ {s} r i id deadline channels at fresh.
      let late = expires s i at in
      let cancels = moves _ i late.1 (pop_expire refl) in
      let found = found-waiting s id channels fresh in
      let off = moves _ i cancels.1 (
        subst
          (λ removed.
            Move s.broker s.replies true (cancelling id) (cancel_turn s.broker id).1 s.replies
              (after_cancel id removed))
          found cancel_lock) in
      let ended = moves _ i off.1 (nothing_late fresh.0) in
      record {
        system = _;
        path = onward (onward (onward (onward here late.0) cancels.0) off.0) ended.0;
        done = true;
        stands = ended.1;
        shows = refl;
      };
}
