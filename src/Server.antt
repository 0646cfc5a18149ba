-- ===== src/Server.antt =====
-- main.go: a connection of the daemon, `handleConn`.
pub mod Loop
pub mod Rpc
pub mod Live
pub mod Requests
pub mod Session
pub mod Order
pub mod Gone
pub mod Possible
pub mod Runs
pub mod Expired
mod Tests
use Prim.Native.String.{String}
use text.Mathlib.Text.{◌==◌ as str_eq}
use atomic_queue.Prelude.{
  ℕ, zero, suc, ◌*◌, ◌%◌, ◌^◌, Bool, true, false, Option, none, some, List, [], ◌∷◌, ◌++◌, ltb,
  ◌==◌, if◌then◌else◌,
}
use atomic_queue.Prelude.Int.{ℤ, to_word}
use atomic_queue.Fault.{Bytes, Error, eof, Result, ok, err}
use atomic_queue.Fault.Text.{Format, codes, error_text}
use atomic_queue.Broker.Queues.{Delivery}
use atomic_queue.Protocol.Stream.{Writer}
use atomic_queue.Protocol.Request.{Request, read_request}
use atomic_queue.Protocol.Response.{Response, write_response}

-- `time.Duration(req.TimeoutMS) * time.Millisecond` as int64, and `timeoutContext`: the nanoseconds
-- after which the context is over, or none for a context without a deadline.
unfoldable pub deadline_of : ℤ → Option ℕ
deadline_of timeout_ms =
    let timeout = to_word timeout_ms * 1_000_000 % 2 ^ 64 in
    if timeout == 0 then none else if ltb timeout (2 ^ 63) then some timeout else none

-- The calls of the broker, each from its start to its return, on a state that holds the broker and
-- all that the other goroutines do meanwhile. A Pop without a deadline can also wait forever: Calls
-- are those that return, and such a wait has no value here (it is in System).
pub record Calls (S : Type 0) : Type 0 where
  pub push_owned : S → Bytes → Bytes → Option Error × S
  pub pop : S → (deadline : Option ℕ) → List Bytes → Result Delivery × S

abbrev pub failure : Bytes → Response
failure text = record { is_ok = false; channel = []; payload = []; error = text }

abbrev pub done : Response
done = record { is_ok = true; channel = []; payload = []; error = [] }

abbrev pub delivered : Delivery → Response
delivered d = record { is_ok = true; channel = d.channel; payload = d.payload; error = [] }

module _ {S : Type 0} (fmt : Format) (calls : Calls S) where
  -- Whether the loop goes on, the writer, and the state.
  abbrev pub Served : Type 0
  Served = Bool × Writer × S

  -- `_ = writeResponse(...)` and `return`
  unfoldable pub last_reply : Response → Writer → S → Served
  last_reply resp w s = (false, (write_response resp w).1, s)

  -- `if err := writeResponse(...); err != nil { return }`
  abbrev pub goes_on : Result (Unit {0}) × Writer → S → Served
  goes_on (ok u, w) s = (true, w, s)
  goes_on (err e, w) s = (false, w, s)

  unfoldable pub after_push_call : Writer → Option Error × S → Served
  unfolding last_reply
  after_push_call w (some e, s) = last_reply (failure (error_text fmt e)) w s
  after_push_call w (none, s) = goes_on (write_response done w) s

  unfoldable pub after_pop_call : Writer → Result Delivery × S → Served
  unfolding last_reply
  after_pop_call w (err e, s) = last_reply (failure (error_text fmt e)) w s
  after_pop_call w (ok d, s) = goes_on (write_response (delivered d) w) s

  unfoldable pub serve_push : List Bytes → Bytes → Writer → S → Served
  unfolding last_reply after_push_call
  serve_push [] payload w s = last_reply (failure (codes "push requires exactly one channel")) w s
  serve_push (channel ∷ []) payload w s = after_push_call w (calls.push_owned s channel payload)
  serve_push (c ∷ d ∷ rest) payload w s =
      last_reply (failure (codes "push requires exactly one channel")) w s

  -- The `switch` of the loop.
  unfoldable pub serve_request : Request → Writer → S → Served
  unfolding last_reply serve_push after_pop_call
  serve_request req w s =
      if str_eq req.op "push"
      then serve_push req.channels req.payload w s
      else if str_eq req.op "pop"
      then after_pop_call w (calls.pop s (deadline_of req.timeout_ms) req.channels)
      else last_reply (failure (codes "unknown op " ++ fmt.quote (codes req.op))) w s

  unfoldable pub decode_failed : Error → Writer → S → Served
  unfolding last_reply
  decode_failed eof w s = (false, w, s)
  decode_failed e w s = last_reply (failure (codes "decode request: " ++ error_text fmt e)) w s

  -- One round of the loop: what is left of the input stands behind its outcome.
  unfoldable pub serve_next : Result Request × Bytes → Writer → S → Served × Bytes
  unfolding decode_failed
  serve_next (err e, rest) w s = (decode_failed e w s, rest)
  serve_next (ok req, rest) w s = (serve_request req w s, rest)

  -- The end of a round: `return`, or the next round.
  unfoldable pub end_round :
      (Bytes → Writer → S → Option (Writer × S)) → Served × Bytes → Option (Writer × S)
  end_round loop ((true, w, s), rest) = loop rest w s
  end_round loop ((false, w, s), rest) = some (w, s)

  -- The loop, on what the client still sends, for calls that return. `none` is fuel that has run out.
  unfoldable pub handle_conn : ℕ → Bytes → Writer → S → Option (Writer × S)
  unfolding end_round serve_next
  handle_conn zero input w s = none
  handle_conn (suc fuel) input w s =
      end_round (handle_conn fuel) (serve_next (read_request input) w s)
