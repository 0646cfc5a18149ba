-- ===== src/Server/Requests.antt =====
-- The requests of a client that pushes to a channel and pops from it, and the responses to them.
use atomic_queue.Prelude.{
  ℕ, zero, suc, ◌≤◌, ◌≡◌, refl, inl, inr, none, List, [], ◌∷◌, length, All, le→leb, arith,
}
use atomic_queue.Prelude.Int.{ℤ, pos, IsInt64}
use atomic_queue.Limits.{default_max_bytes}
use atomic_queue.Fault.{Bytes}
use atomic_queue.Channel.{match_channel, validate_channel, validate_payload}
use atomic_queue.Broker.Queues.{message}
use atomic_queue.Broker.Ops.{Broker, check_push, check_channels, check_pop}
use atomic_queue.Protocol.Stream.{Writer}
use atomic_queue.Protocol.Request.{Request}
use atomic_queue.Protocol.Response.{Response}
use atomic_queue.Protocol.Wire.{CanReply, flushed, wire_response}
use atomic_queue.Server.{done, delivered}
use atomic_queue.Server.Loop.{IsSendable}

abbrev pub push_request : Bytes → Bytes → Request
push_request channel payload = record {
  op = "push";
  channels = channel ∷ [];
  payload = payload;
  timeout_ms = pos 0;
}

abbrev pub pop_request : Bytes → ℤ → Request
pop_request channel timeout_ms = record {
  op = "pop";
  channels = channel ∷ [];
  payload = [];
  timeout_ms = timeout_ms;
}

abbrev pub pop_requests : Bytes → ℤ → ℕ → List Request
pop_requests channel timeout_ms zero = []
pop_requests channel timeout_ms (suc n) =
    pop_request channel timeout_ms ∷ pop_requests channel timeout_ms n

-- The writer after it has sent responses.
abbrev pub sent_all : Writer → List Response → Writer
sent_all w [] = w
sent_all w (resp ∷ resps) = sent_all (flushed w (wire_response resp)) resps

abbrev pub delivery_of : Bytes → Bytes → Response
delivery_of channel payload = delivered (message channel payload)

abbrev pub done_of : Bytes → Response
done_of payload = done

pub valid-short : (c : Bytes) → validate_channel c ≡ none → length c ≤ 128
unfolding validate_channel match_channel
valid-short [] h = omega arith
valid-short (x ∷ xs) h = ground arith

pub push-IsSendable :
    (c p : Bytes)
    → validate_channel c ≡ none
    → length p ≤ default_max_bytes
    → IsSendable (push_request c p)
push-IsSendable c p known small = (
  record {
    known = inl refl;
    few = omega arith;
    short = (omega (arith, valid-short c known), tt);
    small = small;
  },
  omega arith,
)

pub pop-IsSendable :
    (c : Bytes) (t : ℤ) (n : ℕ)
    → validate_channel c ≡ none
    → IsInt64 t
    → All IsSendable (pop_requests c t n)
pop-IsSendable c t zero known fits = tt
pop-IsSendable c t (suc n) known fits = (
  (
    record {
      known = inr refl;
      few = omega arith;
      short = (omega (arith, valid-short c known), tt);
      small = omega arith;
    },
    fits,
  ),
  pop-IsSendable c t n known fits,
)

pub check_push-none :
    (b : Broker) (c p : Bytes)
    → validate_channel c ≡ none
    → length p ≤ b.max_bytes
    → check_push b c p ≡ none
unfolding check_push validate_payload
check_push-none b c p known small = rw (check_push, known, le→leb (length p) b.max_bytes small) refl

pub check_pop-none : (c : Bytes) → validate_channel c ≡ none → check_pop (c ∷ []) ≡ none
unfolding check_pop check_channels
check_pop-none c known = rw (check_channels, known) refl

pub done-CanReply : CanReply done
done-CanReply = record { small = omega arith; short = omega arith; brief = omega arith }

pub delivered-CanReply :
    (c p : Bytes)
    → validate_channel c ≡ none
    → length p ≤ default_max_bytes
    → CanReply (delivery_of c p)
delivered-CanReply c p known small = record {
  small = small;
  short = omega (arith, valid-short c known);
  brief = omega arith;
}
