-- ===== src/Server/Order.antt =====
-- The order of messages over one connection: the client's bytes, handleConn, the broker, and the
-- bytes that come back.
use atomic_queue.Prelude.{
  ℕ, ◌+◌, ◌≤◌, ◌<◌, ◌≡◌, refl, ap, ◌∙◌, false, none, some, List, [], ◌∷◌, ◌++◌, map, length, total,
  All, All-append, All-map, arith,
}
use atomic_queue.Prelude.Int.{ℤ, IsInt64}
use atomic_queue.Limits.{default_max_bytes}
use atomic_queue.Fault.{Bytes}
use atomic_queue.Fault.Text.{Format}
use atomic_queue.Channel.{validate_channel}
use atomic_queue.Broker.Waiters.{NoTaker}
use atomic_queue.Broker.Valid.{IsValid}
use atomic_queue.Broker.Fifo.{view}
use atomic_queue.Protocol.Stream.{Writer}
use atomic_queue.Protocol.Request.{Request}
use atomic_queue.Protocol.Response.{Response}
use atomic_queue.Protocol.Wire.{flushed, wire_response}
use atomic_queue.Server.{handle_conn}
use atomic_queue.Server.Loop.{wire_requests, IsSendable, handle_conn-serve_all}
use atomic_queue.Server.Live.{Live, Others, broker_calls}
use atomic_queue.Server.Session.{StayOff, delivers_in_turn, queues_in_turn}
use atomic_queue.Server.Requests.{
  push_request, pop_requests, sent_all, delivery_of, done_of, push-IsSendable, pop-IsSendable,
}

-- Pushes of payloads to a channel, and then `n` pops of it.
abbrev pub session : Bytes → List Bytes → ℤ → ℕ → List Request
session c ps t n = map (push_request c) ps ++ pop_requests c t n

-- A response for each push, and then the messages in order.
abbrev pub answers : Bytes → List Bytes → List Bytes → List Response
answers c ps q = map done_of ps ++ map (delivery_of c) q

sent_all-append :
    (w : Writer) (xs ys : List Response) → sent_all (sent_all w xs) ys ≡ sent_all w (xs ++ ys)
sent_all-append w [] ys = refl
sent_all-append w (x ∷ xs) ys = sent_all-append (flushed w (wire_response x)) xs ys

sent_all-gone : (w : Writer) (xs : List Response) → (sent_all w xs).gone ≡ w.gone
sent_all-gone w [] = refl
sent_all-gone w (x ∷ xs) = sent_all-gone (flushed w (wire_response x)) xs

All-pushes :
    (c : Bytes) (ps : List Bytes)
    → validate_channel c ≡ none
    → All (λ p. length p ≤ default_max_bytes) ps
    → All IsSendable (map (push_request c) ps)
All-pushes c [] known small = tt
All-pushes c (p ∷ ps) known small =
    (push-IsSendable c p known small.0, All-pushes c ps known small.1)

-- On one connection to a valid broker of the daemon's maximum size, with a channel that has a
-- valid name and for which nobody waits: when the client pushes payloads within that size for
-- which there is room together, and then pops as often as there are messages, and the other
-- goroutines, between these calls, keep the broker valid, neither push to that channel, pop from it
-- nor wait for it, and take no room: then the handler ends, and has sent a positive response to each
-- push and then the messages that were queued before and the new ones, in the order of their pushes,
-- after which the channel is empty.
pub connection_keeps_order :
    (fmt : Format) (others : Others) (c : Bytes) (ps : List Bytes) (t : ℤ) (fuel : ℕ) (w : Writer)
    (s : Live)
    → validate_channel c ≡ none
    → StayOff c others
    → IsInt64 t
    → IsValid s.broker
    → s.broker.max_bytes ≡ default_max_bytes
    → All (λ p. length p ≤ default_max_bytes) (view s.broker c ++ ps)
    → All (λ p. length p ≤ default_max_bytes) ps
    → NoTaker c s.broker.waiters
    → s.broker.queued_bytes + total length ps ≤ s.broker.max_queued_bytes
    → w.gone ≡ false
    → length (session c ps t (length (view s.broker c ++ ps))) < fuel
    → (s' : Live) × (handle_conn fmt
          (broker_calls others)
          fuel
          (wire_requests (session c ps t (length (view s.broker c ++ ps))))
          w
          s
        ≡ some (sent_all w (answers c ps (view s.broker c ++ ps)), s'))
      × (view s'.broker c ≡ [])
connection_keeps_order fmt others c ps t fuel w s known off fits v max small small_new none_wait
      room up enough =
    let q = view s.broker c ++ ps in
    let (l, pushed, valid, same) =
      queues_in_turn fmt others c known off ps (pop_requests c t (length q)) s w v
        (All-map _ _ ps (λ p h. omega (arith, h, max)) small_new) none_wait room up in
    let (s', popped, empty) =
      delivers_in_turn fmt others c known off q l (sent_all w (map done_of ps)) t valid same small
        (sent_all-gone w (map done_of ps) ∙ up) in
    (
      s',
      handle_conn-serve_all fmt (broker_calls others) (session c ps t (length q)) fuel w s
            (All-append IsSendable _ _ (All-pushes c ps known small_new)
              (pop-IsSendable c t (length q) known fits))
            enough
          ∙ ap some pushed
          ∙ ap some popped
          ∙ ap (λ u. some (u, s')) (sent_all-append w (map done_of ps) (map (delivery_of c) q)),
      empty,
    )
