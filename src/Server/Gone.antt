-- ===== src/Server/Gone.antt =====
-- main.go: handleConn when the client has hung up before the answer of its pop is written.
use atomic_queue.Prelude.{
  ℕ, ◌+◌, ◌≤◌, ◌≡◌, refl, ap, ◌∙◌, false, true, none, List, ◌∷◌, ◌++◌, length, All, bytes_eq_refl,
  append_assoc, arith, ◌<◌, le→leb, some,
}
use atomic_queue.Prelude.Int.{IsInt64, ℤ}
use atomic_queue.Limits.{default_max_bytes, protocol_max_error_size}
use atomic_queue.Fault.{Bytes, write_failed, err}
use atomic_queue.Fault.Text.{Format}
use atomic_queue.Channel.{validate_channel}
use atomic_queue.Broker.Served.{get_queue-leave_queue}
use atomic_queue.Broker.Valid.{IsValid}
use atomic_queue.Broker.Cases.{drained}
use atomic_queue.Broker.Invariant.{drained-IsValid}
use atomic_queue.Broker.Fifo.{view}
use atomic_queue.Protocol.Stream.{Writer, write, write_uint, flush}
use atomic_queue.Protocol.Request.{Request}
use atomic_queue.Protocol.Wire.{wire_response, CanReply, mod16, mod32}
use atomic_queue.Server.{deadline_of, serve_request, handle_conn}
use atomic_queue.Server.Loop.{serve_all, carry_on, IsSendable, wire_requests, handle_conn-serve_all}
use atomic_queue.Server.Live.{Live, Others, with_broker, broker_calls}
use atomic_queue.Server.Requests.{pop_request, delivery_of, delivered-CanReply, pop-IsSendable}
use atomic_queue.Protocol.Frames.{write_string16, write_bytes32, write_string32}
use atomic_queue.Protocol.Response.{Response, write_response}
use atomic_queue.Server.Session.{call_pop-takes}

-- The writer after a response that could not be flushed.
abbrev unsent : Writer → Bytes → Writer
unsent w bytes = record w { buffered = w.buffered ++ bytes }

write_response-unsent :
    (resp : Response) (w : Writer)
    → CanReply resp
    → w.gone ≡ true
    → write_response resp w ≡ (err write_failed, unsent w (wire_response resp))
unfolding write_response write_string16 write_bytes32 write_string32 write_uint write flush
write_response-unsent resp w can gone =
    rw
      (
        le→leb (length resp.payload) default_max_bytes can.small,
        le→leb (length resp.channel) 0xffff can.short,
        le→leb (length resp.error) protocol_max_error_size can.brief,
        mod16 (length resp.channel) can.short,
        mod32 (length resp.payload) (omega (arith, can.small)),
        mod32 (length resp.error) (omega (arith, can.brief)),
        gone,
      )
      (simp append_assoc)

module _ (fmt : Format) (others : Others) (c : Bytes) (known : validate_channel c ≡ none) where
  serve_pop-loses :
      (s : Live) (w : Writer) (t : ℤ) (p : Bytes) (q : List Bytes)
      → IsValid (others.meanwhile s).broker
      → view (others.meanwhile s).broker c ≡ p ∷ q
      → length p ≤ default_max_bytes
      → w.gone ≡ true
      → serve_request fmt (broker_calls others) (pop_request c t) w s ≡ (
        false,
        unsent w (wire_response (delivery_of c p)),
        with_broker (others.meanwhile s) (drained (others.meanwhile s).broker c p q),
      )
  unfolding serve_request broker_calls
  serve_pop-loses s w t p q v e small gone =
      rw (call_pop-takes fmt others c known (others.meanwhile s) (deadline_of t) p q v e) (
        rw (write_response-unsent (delivery_of c p) w (delivered-CanReply c p known small) gone)
          refl)

  -- When the client of a pop has hung up before its answer is written, and the channel, of a valid
  -- name, has a message on a valid broker when the pop takes the mutex: then the handler ends with nothing more sent and the
  -- requests behind the pop not served, the broker is valid, and the message is no longer in it. So
  -- it is lost.
  pub gone_client_loses :
      (s : Live) (w : Writer) (t : ℤ) (p : Bytes) (q : List Bytes) (reqs : List Request) (fuel : ℕ)
      → IsInt64 t
      → IsValid (others.meanwhile s).broker
      → view (others.meanwhile s).broker c ≡ p ∷ q
      → length p ≤ default_max_bytes
      → w.gone ≡ true
      → All IsSendable reqs
      → length reqs + 1 < fuel
      → (w' : Writer) × (s' : Live) × (handle_conn fmt
            (broker_calls others)
            fuel
            (wire_requests (pop_request c t ∷ reqs))
            w
            s
          ≡ some (w', s'))
        × (w'.sent ≡ w.sent)
        × IsValid s'.broker
        × (view s'.broker c ≡ q)
  gone_client_loses s w t p q reqs fuel fits v e small gone sendable enough =
      let less : view (drained (others.meanwhile s).broker c p q) c ≡ q =
        rw (get_queue-leave_queue c c q (others.meanwhile s).broker.queues, bytes_eq_refl c) refl in
      (
        _,
        _,
        handle_conn-serve_all fmt (broker_calls others) (pop_request c t ∷ reqs) fuel w s
              ((pop-IsSendable c t 1 known fits).0, sendable) (omega arith)
            ∙ ap
                (λ r.
                  some (
                    carry_on fmt (broker_calls others) (serve_all fmt (broker_calls others) reqs)
                      r))
                (serve_pop-loses s w t p q v e small gone),
        refl,
        drained-IsValid (others.meanwhile s).broker c p q v e,
        less,
      )
