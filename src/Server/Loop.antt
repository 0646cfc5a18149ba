-- ===== src/Server/Loop.antt =====
-- The loop of `handleConn`: it ends, and it serves the requests in their order up to the first that
-- fails.
use atomic_queue.Prelude.{
  ℕ, zero, suc, ◌+◌, ◌<◌, ◌≡◌, refl, ◌≢◌, ap, ◌∙◌, true, false, Option, none, some, List, [], ◌∷◌,
  ◌++◌, length, All, arith,
}
use atomic_queue.Prelude.Int.{IsInt64}
use atomic_queue.Fault.{Bytes, Error, Result, ok, err}
use atomic_queue.Fault.Text.{Format, error_text}
use atomic_queue.Protocol.Stream.{Writer, read_byte}
use atomic_queue.Protocol.Request.{Request, read_request}
use atomic_queue.Protocol.Response.{write_response}
use atomic_queue.Protocol.Wire.{CanSend, wire_request}
use atomic_queue.Protocol.RoundTrip.{read_request-wire}
use atomic_queue.Protocol.Shrinks.{read_request_shrinks}
use atomic_queue.Server.{
  Calls, deadline_of, Served, failure, serve_request, decode_failed, serve_next, end_round,
  handle_conn,
}

-- The bytes of requests one after the other.
abbrev pub wire_requests : List Request → Bytes
wire_requests [] = []
wire_requests (req ∷ reqs) = wire_request req ++ wire_requests reqs

abbrev pub IsSendable : Request → Type 0
IsSendable req = CanSend req × IsInt64 req.timeout_ms

module _ {S : Type 0} (fmt : Format) (calls : Calls S) where
  -- The requests served in order until one of them ends the connection.
  abbrev pub carry_on : (Writer → S → Writer × S) → Served fmt calls → Writer × S
  carry_on next (true, w, s) = next w s
  carry_on next (false, w, s) = (w, s)

  abbrev pub serve_all : List Request → Writer → S → Writer × S
  serve_all [] w s = (w, s)
  serve_all (req ∷ reqs) w s = carry_on (serve_all reqs) (serve_request fmt calls req w s)

  pub pop_served :
      (req : Request) (w : Writer) (s s' : S) (e : Error)
      → req.op ≡ "pop"
      → calls.pop s (deadline_of req.timeout_ms) req.channels ≡ (err e, s')
      → serve_request fmt calls req w s
        ≡ (false, (write_response (failure (error_text fmt e)) w).1, s')
  unfolding serve_request
  pop_served req w s s' e is_pop answer = rw (is_pop, answer)

  decode_failed_stops : (e : Error) (w : Writer) (s : S) → (decode_failed fmt calls e w s).0 ≡ false
  unfolding decode_failed
  decode_failed_stops e w s = ground arith

  end_round_ends :
      (loop : Bytes → Writer → S → Option (Writer × S)) (r : Served fmt calls × Bytes)
      → ((w : Writer) (s : S) → r.0.0 ≡ true → loop r.1 w s ≢ none)
      → end_round fmt calls loop r ≢ none
  unfolding end_round
  end_round_ends loop ((true, w, s), rest) h = h w s refl
  end_round_ends loop ((false, w, s), rest) h = λ e. cc

  round_ends :
      (fuel : ℕ) (input : Bytes) (w : Writer) (s : S)
      → ((rest : Bytes) (w' : Writer) (s' : S)
          → length rest < length input
          → handle_conn fmt calls fuel rest w' s' ≢ none)
      → handle_conn fmt calls (suc fuel) input w s ≢ none
  unfolding handle_conn
  round_ends fuel input w s next = go (read_request input) refl
    where
      go :
          (r : Result Request × Bytes)
          → read_request input ≡ r
          → end_round fmt calls
              (handle_conn fmt calls fuel)
              (serve_next fmt calls (read_request input) w s)
            ≢ none
      go (ok req, rest) e = rw e (
          end_round_ends _ (serve_next fmt calls (ok req, rest) w s)
            λ w' s' more. next rest w' s' (read_request_shrinks input req rest e))
      go (err x, rest) e = rw e (
          end_round_ends _ (serve_next fmt calls (err x, rest) w s)
            λ w' s' more. absurd (cc (decode_failed_stops x w s)))

  -- As long as each call of the broker returns, whatever it returns: with one round more than the
  -- client sends bytes, the loop does not run out of rounds.
  pub handle_conn_ends :
      (fuel : ℕ) (input : Bytes) (w : Writer) (s : S)
      → length input < fuel
      → handle_conn fmt calls fuel input w s ≢ none
  handle_conn_ends zero input w s h = absurd (omega arith)
  handle_conn_ends (suc fuel) input w s h =
      round_ends fuel input w s λ rest w' s' less. handle_conn_ends fuel rest w' s' (omega arith)

  round_serves :
      (fuel : ℕ) (req : Request) (reqs : List Request) (w : Writer) (s : S)
      → IsSendable req
      → ((w' : Writer) (s' : S)
          → handle_conn fmt calls fuel (wire_requests reqs) w' s' ≡ some (serve_all reqs w' s'))
      → handle_conn fmt calls (suc fuel) (wire_requests (req ∷ reqs)) w s
        ≡ some (serve_all (req ∷ reqs) w s)
  unfolding handle_conn
  round_serves fuel req reqs w s sendable next =
      ap (λ r. end_round fmt calls (handle_conn fmt calls fuel) (serve_next fmt calls r w s))
        (read_request-wire req (wire_requests reqs) sendable.0 sendable.1)
      ∙ go (serve_request fmt calls req w s)
    where
      go :
          (r : Served fmt calls)
          → end_round fmt calls (handle_conn fmt calls fuel) (r, wire_requests reqs)
            ≡ some (carry_on (serve_all reqs) r)
      go (true, w', s') = next w' s'
      go (false, w', s') = refl

  -- On acceptable requests, one after the other, after which the client closes the connection, and
  -- with a round more than there are requests, the handler serves them in their order, up to and
  -- with the first that ends the connection, and those behind it not at all.
  pub handle_conn-serve_all :
      (reqs : List Request) (fuel : ℕ) (w : Writer) (s : S)
      → All IsSendable reqs
      → length reqs < fuel
      → handle_conn fmt calls fuel (wire_requests reqs) w s ≡ some (serve_all reqs w s)
  handle_conn-serve_all reqs zero w s sendable h = absurd (omega arith)
  handle_conn-serve_all [] (suc fuel) w s sendable h =
      unfold handle_conn serve_next read_request read_byte decode_failed in refl
  handle_conn-serve_all (req ∷ reqs) (suc fuel) w s sendable h =
      round_serves fuel req reqs w s sendable.0
        λ w' s'. handle_conn-serve_all reqs fuel w' s' sendable.1 (omega arith)

  -- A pop that the broker answers with an error, a timeout say, is the last that the connection
  -- serves: the error is written, and the requests behind it are never looked at.
  pub pop_error_ends :
      (req : Request) (reqs : List Request) (fuel : ℕ) (w : Writer) (s s' : S) (e : Error)
      → req.op ≡ "pop"
      → All IsSendable (req ∷ reqs)
      → length reqs + 1 < fuel
      → calls.pop s (deadline_of req.timeout_ms) req.channels ≡ (err e, s')
      → handle_conn fmt calls fuel (wire_requests (req ∷ reqs)) w s
        ≡ some ((write_response (failure (error_text fmt e)) w).1, s')
  pop_error_ends req reqs fuel w s s' e is_pop sendable h answer =
      handle_conn-serve_all (req ∷ reqs) fuel w s sendable (omega arith)
      ∙ ap (λ r. some (carry_on (serve_all reqs) r)) (pop_served req w s s' e is_pop answer)
