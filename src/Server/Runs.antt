-- ===== src/Server/Runs.antt =====
-- The calls of the daemon's handler against the goroutines of broker.go: PushOwned and Pop of
-- Server.Live are what goroutines in System do.
use atomic_queue.Prelude.{
  ℕ, ◌+◌, ◌<◌, ◌^◌, ◌≡◌, refl, subst, Bool, Bool-cases, inl, inr, true, false, Option, none, some,
  List, [], ◌∷◌, ◌++◌, length, length-set, length-append, at_end,
}
use atomic_queue.Fault.{Bytes, Error, Result}
use atomic_queue.Broker.Queues.{Delivery, message}
use atomic_queue.Broker.Waiters.{Waiter}
use atomic_queue.Broker.Ops.{
  Broker, check_push, check_pop, PushTurn, handed, queued, blocked, push_turn, PopTurn, enlisted,
  enlist, pop_turn,
}
use atomic_queue.Broker.PopCases.{takes, gives_up, waits, pop_turn-Pops}
use atomic_queue.System.{
  Phase, pushing, push_failed, popping, pop_failed, System, start_push, start_pop, after_push,
  after_pop, make_reply, Move, Step, push_lock, pop_lock, calling, call_push as push_begins,
  call_pop as pop_begins, Reach,
}
use atomic_queue.System.Paths.{
  here, onward, Reach-Steps, StandsIn, moved, moves, expires, calling-StandsIn,
}
use atomic_queue.System.Invariant.{Reach-SystemOk}
use atomic_queue.System.Handoff.{send_never_blocks}
use atomic_queue.Server.Live.{Live, Others, call_push, finish_push, call_pop, finish_pop}
use atomic_queue.Server.Possible.{
  live, push_ended, pop_ended, Comes, Comes-after, Comes-here, IsPossible,
}

begins :
    {s : System} {phase phase' : Phase}
    → phase ≡ phase'
    → Step s (calling s phase)
    → Step s (calling s phase')
begins {s} e st = subst (λ k. Step s (calling s k)) e st

module _ {m q : ℕ} (small : q + m < 2 ^ 63) (others : Others)
    (possible : IsPossible m q others) where
  after_lock-Comes :
      {s : System} (r : Reach m q s) (i : ℕ) (c p : Bytes)
      → StandsIn s i false (pushing c p)
      → (turn : PushTurn × Broker) → push_turn s.broker c p ≡ turn
      → let k = finish_push others (live s) c p turn in Comes s i (push_ended c p k.0) k.1
  unfolding finish_push after_push
  after_lock-Comes {s} r i c p at turn e =
      let locked = moves s i at (
        subst (λ k. Move s.broker s.replies false (pushing c p) k.1 s.replies (after_push c p k.0))
          e push_lock) in
      Comes-after (onward here locked.0) (go turn (Reach-Steps r (onward here locked.0)) locked.1)
    where
      go :
          (turn : PushTurn × Broker)
          → Reach m q (moved s i false turn.1 s.replies (after_push c p turn.0))
          → StandsIn
              (moved s i false turn.1 s.replies (after_push c p turn.0))
              i
              false
              (after_push c p turn.0)
          → let k = finish_push others (live s) c p turn in
            Comes
              (moved s i false turn.1 s.replies (after_push c p turn.0))
              i
              (push_ended c p k.0)
              k.1
      go (handed id, b) r' at' =
          let given = send_never_blocks small r' i _ at' id (message c p) refl in
          let sent = moves _ i at' given in
          record {
            system = _;
            path = onward here sent.0;
            done = false;
            stands = sent.1;
            shows = rw (length-set s.replies id (message c p ∷ [])) refl;
          }
      go (queued, b) r' at' = Comes-here false at'
      go (blocked sig bytes max, b) r' at' = possible.while_blocked r' i c p sig at'

  push-Comes :
      {s : System} (r : Reach m q s) (c p : Bytes)
      → let k = call_push others (live s) c p in Comes s (length s.threads) (push_ended c p k.0) k.1
  unfolding call_push start_push
  push-Comes {s} r c p = go (check_push s.broker c p) refl
    where
      go :
          (checked : Option Error)
          → check_push s.broker c p ≡ checked
          → let k = call_push others (live s) c p in
            Comes s (length s.threads) (push_ended c p k.0) k.1
      go (some x) e =
          let failing : start_push s.broker c p ≡ push_failed x = rw (e, start_push) refl in
          rw (e, call_push)
            (Comes-after (onward here (begins failing (push_begins c p)))
              (Comes-here false (calling-StandsIn s (push_failed x))))
      go none e =
          let locking : start_push s.broker c p ≡ pushing c p = rw (e, start_push) refl in
          let st = begins locking (push_begins c p) in
          rw (e, call_push)
            (Comes-after (onward here st) (
              after_lock-Comes (Reach-Steps r (onward here st)) (length s.threads) c p
                (calling-StandsIn s (pushing c p)) _ refl))

  -- `Pop` from the lock on, whose context is over or not.
  after_pop_lock-Comes :
      {s : System} (r : Reach m q s) (i : ℕ) (done : Bool) (cs : List Bytes) (deadline : Option ℕ)
      → StandsIn s i done (popping cs)
      → let k =
          finish_pop others (live s) deadline (pop_turn s.broker done cs (length s.replies)) in
        Comes s i (pop_ended k.0) k.1
  unfolding finish_pop after_pop make_reply
  after_pop_lock-Comes {s} r i done cs deadline at =
      elim (pop_turn-Pops s.broker done cs (length s.replies) (Reach-SystemOk small r).valid) [
        | takes c p rest before after split dry front e ↦
            let st = locked done at _ e in
            rw e (Comes-after (onward here st.0) (Comes-here done st.1))
        | gives_up dry expired e ↦
            let st = locked done at _ e in
            rw e (Comes-after (onward here st.0) (Comes-here done st.1))
        | waits dry running e ↦ rw e (enlists done running at e)
      ]
    where
      locked :
          (done : Bool)
          → StandsIn s i done (popping cs)
          → (turn : PopTurn × Broker) → pop_turn s.broker done cs (length s.replies) ≡ turn
          → Step s (
              moved s i done turn.1
                (make_reply turn.0 s.replies)
                (after_pop (length s.replies) turn.0))
            × StandsIn
                (moved s i done turn.1
                  (make_reply turn.0 s.replies)
                  (after_pop (length s.replies) turn.0))
                i
                done
                (after_pop (length s.replies) turn.0)
      locked done at turn e = moves s i at (
          subst
            (λ k.
              Move s.broker s.replies done (popping cs) k.1 (make_reply k.0 s.replies)
                (after_pop (length s.replies) k.0))
            e pop_lock)

      enlists :
          (done : Bool)
          → done ≡ false
          → StandsIn s i done (popping cs)
          → let waiter : Waiter = record { id = length s.replies; channels = cs } in
            pop_turn s.broker done cs (length s.replies) ≡ (enlisted, enlist s.broker waiter)
            → let k = finish_pop others (live s) deadline (enlisted, enlist s.broker waiter) in
              Comes s i (pop_ended k.0) k.1
      enlists true h at e = absurd cc
      enlists false h at e =
          let waiter : Waiter = record { id = length s.replies; channels = cs } in
          let st = locked false at _ e in
          let grown : length (s.replies ++ [] ∷ []) ≡ length s.replies + 1 =
            length-append s.replies ([] ∷ []) in
          let went =
            possible.while_waiting (Reach-Steps r (onward here st.0)) i (length s.replies) deadline
              cs st.1 (at_end s.replies [], s.broker, refl) in
          let waits_as : ℕ → Result Delivery × Live = λ n.
            others.while_waiting (record { broker = enlist s.broker waiter; next_id = n })
              (length s.replies) deadline in
          subst (λ n. Comes s i (pop_ended (waits_as n).0) (waits_as n).1) grown
            (Comes-after (onward here st.0) went)

  pop-Comes :
      {s : System} (r : Reach m q s) (deadline : Option ℕ) (cs : List Bytes)
      → let k = call_pop others (live s) deadline cs in
        Comes s (length s.threads) (pop_ended k.0) k.1
  unfolding call_pop start_pop
  pop-Comes {s} r deadline cs = go (check_pop cs) refl
    where
      go :
          (checked : Option Error)
          → check_pop cs ≡ checked
          → let k = call_pop others (live s) deadline cs in
            Comes s (length s.threads) (pop_ended k.0) k.1
      go (some x) e =
          let failing : start_pop cs ≡ pop_failed x = rw (e, start_pop) refl in
          rw (e, call_pop)
            (Comes-after (onward here (begins failing (pop_begins cs)))
              (Comes-here false (calling-StandsIn s (pop_failed x))))
      go none e =
          let locking : start_pop cs ≡ popping cs = rw (e, start_pop) refl in
          let st = begins locking (pop_begins cs) in
          let stands = calling-StandsIn s (popping cs) in
          elim (Bool-cases (others.ctx_err (live s) deadline)) [
            | inl ended ↦
                let late = expires _ (length s.threads) stands in
                let p = onward (onward here st) late.0 in
                rw (e, ended, call_pop)
                  (Comes-after p (
                    after_pop_lock-Comes (Reach-Steps r p) (length s.threads) true cs deadline
                      late.1))
            | inr in_time ↦
                rw (e, in_time, call_pop)
                  (Comes-after (onward here st) (
                    after_pop_lock-Comes (Reach-Steps r (onward here st)) (length s.threads) false
                      cs deadline stands))
          ]

  -- With limits whose sum is below 2^63, in every reachable state: PushOwned and Pop as the handler
  -- calls them do what a new goroutine in push or Pop can do, among the others. If what is said of a
  -- call that waits is something that the goroutines can do meanwhile, then there are steps after
  -- which that goroutine has returned what the call returns, and after which the broker is the one
  -- that the call leaves.
  pub calls_are_goroutines :
      {s : System}
      → Reach m q s
      → ((c p : Bytes)
          → let k = call_push others (live s) c p in
            Comes s (length s.threads) (push_ended c p k.0) k.1)
        × ((deadline : Option ℕ) (cs : List Bytes)
            → let k = call_pop others (live s) deadline cs in
              Comes s (length s.threads) (pop_ended k.0) k.1)
  calls_are_goroutines r = (push-Comes r, pop-Comes r)
