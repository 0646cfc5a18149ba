-- ===== src/Broker/InOrder.antt =====
-- broker.go: first in, first out on each channel, however the sections of pushes and pops under the
-- mutex follow each other.
use atomic_queue.Prelude.{
  ℕ, ◌+◌, ◌≤◌, ◌<◌, ◌^◌, ◌≡◌, refl, ap, Bool, List, [], ◌∷◌, ◌++◌, length, All, append-nil, arith,
}
use atomic_queue.Fault.{Bytes}
use atomic_queue.Broker.Queues.{get_queue, get_queue-put_queue}
use atomic_queue.Broker.Ops.{new_broker, push_turn, pop_turn, cancel_turn, enlist}
use atomic_queue.Broker.Served.{get_queue-leave_queue}
use atomic_queue.Broker.Valid.{new_broker-IsValid}
use atomic_queue.Broker.Cases.{Pushes, to_waiter, to_queue, must_wait, push_turn-Pushes}
use atomic_queue.Broker.PopCases.{
  Pops, takes, gives_up, waits, pop_turn-Pops, Cancels, leaves, had_left, cancel_turn-Cancels,
}
use atomic_queue.Broker.Invariant.{push_turn-IsValid, pop_turn-IsValid, cancel_turn-IsValid}
use atomic_queue.Broker.Fifo.{view}
use atomic_queue.Broker.Sections.{
  Section, push_section, pop_section, cancel_section, accepts, hands, gives, Run, run_section,
  run_sections, begun, on_channel, IsSmall, wanted-empty, InOrder, given_at_once, given_later,
  given_oldest, given_none,
}

module _ (m : ℕ) (r : Run) (k : InOrder m r) where
  push-InOrder : (c p : Bytes) → length p ≤ m → InOrder m (run_section r (push_section c p))
  push-InOrder c p small = record {
    valid = push_turn-IsValid r.broker c p k.valid fits;
    same_max = kept (push_turn-Pushes r.broker c p k.valid fits);
    ordered = λ d. go d (push_turn-Pushes r.broker c p k.valid fits);
  }
    where
      fits : length p ≤ r.broker.max_bytes
      fits = omega (arith, k.same_max)

      kept : Pushes r.broker c p (push_turn r.broker c p) → (push_turn r.broker c p).1.max_bytes ≡ m
      kept (to_waiter i w got want first e) = rw e k.same_max
      kept (to_queue none_wait room e) = rw e k.same_max
      kept (must_wait none_wait full e) = rw e k.same_max

      go :
          (d : Bytes)
          → Pushes r.broker c p (push_turn r.broker c p)
          → on_channel d (r.given ++ hands c p (push_turn r.broker c p).0)
              ++ view (push_turn r.broker c p).1 d
            ≡ on_channel d (r.accepted ++ accepts c p (push_turn r.broker c p).0)
      go d (to_waiter i w got want first e) = rw e (
          given_at_once c p r.given r.accepted d (view r.broker d)
            (λ same.
              wanted-empty r.broker c i w k.valid.served got want (view r.broker d)
                (ap (view r.broker) same))
            (k.ordered d))
      go d (to_queue none_wait room e) =
          rw (e, get_queue-put_queue c d (view r.broker c ++ p ∷ []) r.broker.queues)
            (given_later c p r.given r.accepted d r.broker (k.ordered d))
      go d (must_wait none_wait full e) =
          rw e (given_none d r.given r.accepted (view r.broker d) (k.ordered d))

  pop-InOrder :
      (ctx_done : Bool) (cs : List Bytes) (id : ℕ)
      → InOrder m (run_section r (pop_section ctx_done cs id))
  unfolding enlist
  pop-InOrder ctx_done cs id = record {
    valid = pop_turn-IsValid r.broker ctx_done cs id k.valid;
    same_max = kept (pop_turn-Pops r.broker ctx_done cs id k.valid);
    ordered = λ d. go d (pop_turn-Pops r.broker ctx_done cs id k.valid);
  }
    where
      kept :
          Pops r.broker ctx_done cs id (pop_turn r.broker ctx_done cs id)
          → (pop_turn r.broker ctx_done cs id).1.max_bytes ≡ m
      kept (takes c p q before after split dry at e) = rw e k.same_max
      kept (gives_up dry over e) = rw e k.same_max
      kept (waits dry on e) = rw e k.same_max

      go :
          (d : Bytes)
          → Pops r.broker ctx_done cs id (pop_turn r.broker ctx_done cs id)
          → on_channel d (r.given ++ gives (pop_turn r.broker ctx_done cs id).0)
              ++ view (pop_turn r.broker ctx_done cs id).1 d
            ≡ on_channel d r.accepted
      go d (takes c p q before after split dry at e) =
          rw (e, get_queue-leave_queue c d q r.broker.queues)
            (given_oldest c p r.given r.accepted d r.broker q at (k.ordered d))
      go d (gives_up dry over e) = rw (e, append-nil r.given) (k.ordered d)
      go d (waits dry on e) = rw (e, append-nil r.given) (k.ordered d)

  cancel-InOrder : (id : ℕ) → InOrder m (run_section r (cancel_section id))
  cancel-InOrder id = record {
    valid = cancel_turn-IsValid r.broker id k.valid;
    same_max = kept (cancel_turn-Cancels r.broker id);
    ordered = λ d. go d (cancel_turn-Cancels r.broker id);
  }
    where
      kept :
          Cancels r.broker id (cancel_turn r.broker id) → (cancel_turn r.broker id).1.max_bytes ≡ m
      kept (leaves i w got same e) = rw e k.same_max
      kept (had_left none_left e) = rw e k.same_max

      go :
          (d : Bytes)
          → Cancels r.broker id (cancel_turn r.broker id)
          → on_channel d r.given ++ view (cancel_turn r.broker id).1 d ≡ on_channel d r.accepted
      go d (leaves i w got same e) = rw e (k.ordered d)
      go d (had_left none_left e) = rw e (k.ordered d)

sections-InOrder :
    (m : ℕ) (ss : List Section) (r : Run)
    → All (IsSmall m) ss
    → InOrder m r
    → InOrder m (run_sections r ss)
sections-InOrder m [] r small k = k
sections-InOrder m (push_section c p ∷ ss) r small k =
    sections-InOrder m ss _ small.1 (push-InOrder m r k c p small.0)
sections-InOrder m (pop_section ctx_done cs id ∷ ss) r small k =
    sections-InOrder m ss _ small.1 (pop-InOrder m r k ctx_done cs id)
sections-InOrder m (cancel_section id ∷ ss) r small k =
    sections-InOrder m ss _ small.1 (cancel-InOrder m r k id)

-- From a new broker whose limits have a sum below 2^63, and for any sequence of sections of pushes,
-- pops and cancelled pops, with payloads of at most `max_bytes`: on each channel the payloads given
-- to pops so far, whether a push handed them over or a pop took them off the queue, and behind them
-- those that are still queued, are the accepted payloads in the order in which they were accepted.
pub channels_in_order :
    (max_bytes max_queued_bytes : ℕ) (ss : List Section) (c : Bytes)
    → max_queued_bytes + max_bytes < 2 ^ 63
    → All (IsSmall max_bytes) ss
    → on_channel c (run_sections (begun max_bytes max_queued_bytes) ss).given
        ++ view (run_sections (begun max_bytes max_queued_bytes) ss).broker c
      ≡ on_channel c (run_sections (begun max_bytes max_queued_bytes) ss).accepted
unfolding new_broker get_queue
channels_in_order m q ss c h small =
    (sections-InOrder m ss (begun m q) small
        (record { valid = new_broker-IsValid m q h; same_max = refl; ordered = λ d. refl })).ordered
      c
