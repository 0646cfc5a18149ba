-- ===== src/Server/Session.antt =====
-- A client that pushes to a channel and pops from it over one connection, through handleConn and
-- the broker.
use atomic_queue.Prelude.{
  ℕ, ◌+◌, ◌≤◌, ◌≡◌, refl, sym, ap, ◌∙◌, false, true, Option, none, List, [], ◌∷◌, ◌++◌, map, length,
  total, All, All-map, bytes_eq_refl, append_assoc, append-nil, arith,
}
use atomic_queue.Prelude.Int.{ℤ}
use atomic_queue.Limits.{default_max_bytes}
use atomic_queue.Fault.{Bytes, ok}
use atomic_queue.Fault.Text.{Format}
use atomic_queue.Channel.{validate_channel}
use atomic_queue.Broker.Queues.{message, get_queue-put_queue}
use atomic_queue.Broker.Waiters.{NoTaker}
use atomic_queue.Broker.Ops.{Broker, settle_pop, pop_turn}
use atomic_queue.Broker.Served.{get_queue-leave_queue}
use atomic_queue.Broker.Valid.{IsValid}
use atomic_queue.Broker.Cases.{enqueued, drained}
use atomic_queue.Broker.Invariant.{enqueued-IsValid, drained-IsValid}
use atomic_queue.Broker.Fifo.{view, push_one, pop_one}
use atomic_queue.Protocol.Stream.{Writer}
use atomic_queue.Protocol.Request.{Request}
use atomic_queue.Protocol.Wire.{flushed, wire_response, write_response-wire}
use atomic_queue.Server.{deadline_of, done, serve_request}
use atomic_queue.Server.Loop.{serve_all, carry_on}
use atomic_queue.Server.Live.{
  Live, Others, with_broker, call_push, finish_push, call_pop, finish_pop, broker_calls,
}
use atomic_queue.Server.Requests.{
  push_request, pop_request, pop_requests, sent_all, delivery_of, done_of, check_push-none,
  check_pop-none, done-CanReply, delivered-CanReply,
}

-- What the other goroutines have done leaves the channel as it is, with nobody waiting for it, and
-- takes no room.
pub record KeepsOff (c : Bytes) (b b' : Broker) : Type 0 where
  pub valid : IsValid b'
  pub same : view b' c ≡ view b c
  pub nobody : NoTaker c b.waiters → NoTaker c b'.waiters
  pub same_max : b'.max_bytes ≡ b.max_bytes
  pub same_limit : b'.max_queued_bytes ≡ b.max_queued_bytes
  pub room : b'.queued_bytes ≤ b.queued_bytes

pub KeepsOff-refl : (c : Bytes) (b : Broker) → IsValid b → KeepsOff c b b
KeepsOff-refl c b v = record {
  valid = v;
  same = refl;
  nobody = λ h. h;
  same_max = refl;
  same_limit = refl;
  room = omega arith;
}

-- Between the calls the other goroutines may do anything else.
abbrev pub StayOff : Bytes → Others → Type 0
StayOff c others = (s : Live) → IsValid s.broker → KeepsOff c s.broker (others.meanwhile s).broker

module _ (fmt : Format) (others : Others) (c : Bytes) (known : validate_channel c ≡ none) where
  call_push-queues :
      (s : Live) (p : Bytes)
      → IsValid s.broker
      → length p ≤ s.broker.max_bytes
      → NoTaker c s.broker.waiters
      → s.broker.queued_bytes + length p ≤ s.broker.max_queued_bytes
      → call_push others s c p ≡ (none, with_broker s (enqueued s.broker c p))
  unfolding call_push finish_push
  call_push-queues s p v small none_wait room =
      rw
        (
          call_push,
          check_push-none s.broker c p known small,
          push_one s.broker c p v small none_wait room,
        )
        refl

  pub call_pop-takes :
      (s : Live) (deadline : Option ℕ) (p : Bytes) (q : List Bytes)
      → IsValid s.broker
      → view s.broker c ≡ p ∷ q
      → call_pop others s deadline (c ∷ [])
        ≡ (ok (message c p), with_broker s (drained s.broker c p q))
  unfolding call_pop pop_turn settle_pop finish_pop
  call_pop-takes s deadline p q v e =
      rw (call_pop, check_pop-none c known, pop_one s.broker c p q v e) refl

  -- The two requests, on what the other goroutines have left.
  serve_push-queues :
      (s : Live) (w : Writer) (p : Bytes)
      → IsValid (others.meanwhile s).broker
      → length p ≤ (others.meanwhile s).broker.max_bytes
      → NoTaker c (others.meanwhile s).broker.waiters
      → (others.meanwhile s).broker.queued_bytes + length p
        ≤ (others.meanwhile s).broker.max_queued_bytes
      → w.gone ≡ false
      → serve_request fmt (broker_calls others) (push_request c p) w s ≡ (
        true,
        flushed w (wire_response done),
        with_broker (others.meanwhile s) (enqueued (others.meanwhile s).broker c p),
      )
  unfolding serve_request broker_calls
  serve_push-queues s w p v small none_wait room up =
      rw (call_push-queues (others.meanwhile s) p v small none_wait room)
        (rw (write_response-wire done w done-CanReply up) refl)

  pub serve_pop-takes :
      (s : Live) (w : Writer) (t : ℤ) (p : Bytes) (q : List Bytes)
      → IsValid (others.meanwhile s).broker
      → view (others.meanwhile s).broker c ≡ p ∷ q
      → length p ≤ default_max_bytes
      → w.gone ≡ false
      → serve_request fmt (broker_calls others) (pop_request c t) w s ≡ (
        true,
        flushed w (wire_response (delivery_of c p)),
        with_broker (others.meanwhile s) (drained (others.meanwhile s).broker c p q),
      )
  unfolding serve_request broker_calls
  serve_pop-takes s w t p q v e small up =
      rw (call_pop-takes (others.meanwhile s) (deadline_of t) p q v e)
        (rw (write_response-wire (delivery_of c p) w (delivered-CanReply c p known small) up) refl)

  module _ (off : StayOff c others) where
    pub delivers_in_turn :
        (q : List Bytes) (s : Live) (w : Writer) (t : ℤ)
        → IsValid s.broker
        → view s.broker c ≡ q
        → All (λ p. length p ≤ default_max_bytes) q
        → w.gone ≡ false
        → (s' : Live) × (serve_all fmt (broker_calls others) (pop_requests c t (length q)) w s
            ≡ (sent_all w (map (delivery_of c) q), s'))
          × (view s'.broker c ≡ [])
    delivers_in_turn [] s w t v e small up = (s, refl, e)
    delivers_in_turn (p ∷ q) s w t v e small up =
        let k = off s v in
        let m = others.meanwhile s in
        let front : view m.broker c ≡ p ∷ q = k.same ∙ e in
        let less : view (drained m.broker c p q) c ≡ q =
          rw (get_queue-leave_queue c c q m.broker.queues, bytes_eq_refl c) refl in
        let (s', served, empty) =
          delivers_in_turn q (with_broker m (drained m.broker c p q))
            (flushed w (wire_response (delivery_of c p))) t
            (drained-IsValid m.broker c p q k.valid front) less small.1 up in
        (
          s',
          ap
                (carry_on fmt (broker_calls others)
                  (serve_all fmt (broker_calls others) (pop_requests c t (length q))))
                (serve_pop-takes s w t p q k.valid front small.0 up)
              ∙ served,
          empty,
        )

    pub queues_in_turn :
        (ps : List Bytes) (rest : List Request) (s : Live) (w : Writer)
        → IsValid s.broker
        → All (λ p. length p ≤ s.broker.max_bytes) ps
        → NoTaker c s.broker.waiters
        → s.broker.queued_bytes + total length ps ≤ s.broker.max_queued_bytes
        → w.gone ≡ false
        → (l : Live) × (serve_all fmt (broker_calls others) (map (push_request c) ps ++ rest) w s
            ≡ serve_all fmt (broker_calls others) rest (sent_all w (map done_of ps)) l)
          × IsValid l.broker
          × (view l.broker c ≡ view s.broker c ++ ps)
    queues_in_turn [] rest s w v small none_wait room up = (s, refl, v, sym (append-nil _))
    queues_in_turn (p ∷ ps) rest s w v small none_wait room up =
        let k = off s v in
        let m = others.meanwhile s in
        let one = enqueued m.broker c p in
        let fits : length p ≤ m.broker.max_bytes = omega (arith, k.same_max, small.0) in
        let space : m.broker.queued_bytes + (length p + total length ps)
            ≤ m.broker.max_queued_bytes =
          omega (arith, k.room, k.same_limit, room) in
        let grown : view one c ≡ view m.broker c ++ p ∷ [] =
          rw (get_queue-put_queue c c (view m.broker c ++ p ∷ []) m.broker.queues, bytes_eq_refl c)
            refl in
        let (l, served, valid, same) =
          queues_in_turn ps rest (with_broker m one) (flushed w (wire_response done))
            (enqueued-IsValid m.broker c p k.valid (k.nobody none_wait) (omega (arith, space)))
            (All-map _ _ ps (λ x h. omega (arith, h, k.same_max)) small.1) (k.nobody none_wait)
            (omega (arith, space)) up in
        (
          l,
          ap
                (carry_on fmt (broker_calls others)
                  (serve_all fmt (broker_calls others) (map (push_request c) ps ++ rest)))
                (serve_push-queues s w p k.valid fits (k.nobody none_wait) (omega (arith, space))
                  up)
              ∙ served,
          valid,
          same
              ∙ rw grown (append_assoc (view m.broker c) (p ∷ []) ps)
              ∙ ap (λ q. q ++ p ∷ ps) k.same,
        )
