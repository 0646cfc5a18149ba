-- ===== src/Protocol/Wire.antt =====
-- The layout of a request and of a response on the wire, apart from the code that writes it, and
-- that the writers of protocol.go send just that.
use Prim.Native.String.{String}
use text.Mathlib.Text.{◌==◌ as str_eq}
use atomic_queue.Prelude.{
  ℕ, ◌^◌, ◌%◌, ◌≤◌, ◌<◌, ◌≡◌, ◌∙◌, ◌⊎◌, inl, inr, false, List, [], ◌∷◌, ◌++◌, length, All, le→leb,
  append_assoc, append-nil, arith, if◌then◌else◌,
}
use atomic_queue.Prelude.Int.{to_word}
use atomic_queue.Limits.{
  default_max_bytes, protocol_max_channels, protocol_max_error_size, op_push, op_pop, status_ok,
  status_error,
}
use atomic_queue.Fault.{Bytes, ok}
use atomic_queue.Protocol.Stream.{Writer, to_be, write, write_uint, flush, pure}
use atomic_queue.Protocol.Frames.{write_string16, write_bytes32, write_string32}
use atomic_queue.Protocol.Fields.{field16, field32}
use atomic_queue.Protocol.Request.{Request, op_byte, op_name, write_channels, write_request}
use atomic_queue.Protocol.Response.{Response, write_response}

abbrev pub IsOp : String → Type 0
IsOp op = (op ≡ "push") ⊎ (op ≡ "pop")

abbrev pub Fits16 : Bytes → Type 0
Fits16 value = length value ≤ 0xffff

-- What `write_request` accepts.
pub record CanSend (req : Request) : Type 0 where
  pub known : IsOp req.op
  pub few : length req.channels ≤ protocol_max_channels
  pub short : All Fits16 req.channels
  pub small : length req.payload ≤ default_max_bytes

abbrev pub code_of : String → ℕ
code_of op = if str_eq op "push" then op_push else op_pop

abbrev pub wire_channels : List Bytes → Bytes
wire_channels [] = []
wire_channels (c ∷ cs) = field16 c ++ wire_channels cs

abbrev pub wire_request : Request → Bytes
wire_request req =
    code_of req.op
    ∷ (to_be 8 (to_word req.timeout_ms)
        ++ (to_be 2 (length req.channels) ++ (wire_channels req.channels ++ field32 req.payload)))

-- The writer after it has sent all that waited, and `bytes` behind it.
abbrev pub flushed : Writer → Bytes → Writer
flushed w bytes = record w { sent = w.sent ++ (w.buffered ++ bytes); buffered = [] }

pub op_byte-code_of : {S : Type 0} (op : String) → IsOp op → op_byte {S = S} op ≡ pure (code_of op)
unfolding op_byte
op_byte-code_of op (inl e) = rw e
op_byte-code_of op (inr e) = rw e

pub op_name-code_of : {S : Type 0} (op : String) → IsOp op → op_name {S = S} (code_of op) ≡ pure op
unfolding op_name
op_name-code_of op (inl e) = rw e
op_name-code_of op (inr e) = rw e

pub mod16 : (n : ℕ) → n ≤ 0xffff → n % 2 ^ 16 ≡ n
mod16 n h = omega arith

pub mod32 : (n : ℕ) → n < 2 ^ 32 → n % 2 ^ 32 ≡ n
mod32 n h = omega arith

write_channels-wire :
    (cs : List Bytes) (w : Writer)
    → All Fits16 cs
    → write_channels cs w ≡ (ok tt, record w { buffered = w.buffered ++ wire_channels cs })
unfolding write_channels write_uint write
write_channels-wire [] w h = rw append-nil
write_channels-wire (c ∷ cs) w h =
    rw (le→leb (length c) 0xffff h.0, mod16 (length c) h.0)
      (write_channels-wire cs _ h.1 ∙ simp append_assoc)

-- On a connection that is up, an acceptable request is sent whole, and nothing stays behind.
pub write_request-wire :
    (req : Request) (w : Writer)
    → CanSend req
    → w.gone ≡ false
    → write_request req w ≡ (ok tt, flushed w (wire_request req))
unfolding write_request write_uint write flush
write_request-wire req w can up =
    rw
      (
        op_byte-code_of req.op can.known,
        le→leb (length req.channels) protocol_max_channels can.few,
        le→leb (length req.payload) default_max_bytes can.small,
        mod16 (length req.channels) (omega (arith, can.few)),
        mod32 (length req.payload) (omega (arith, can.small)),
      )
      (rw (write_channels-wire req.channels _ can.short, up) (simp append_assoc))

-- What `write_response` accepts.
pub record CanReply (resp : Response) : Type 0 where
  pub small : length resp.payload ≤ default_max_bytes
  pub short : Fits16 resp.channel
  pub brief : length resp.error ≤ protocol_max_error_size

abbrev pub wire_response : Response → Bytes
wire_response resp =
    (if resp.is_ok then status_ok else status_error)
    ∷ (field16 resp.channel ++ (field32 resp.payload ++ field32 resp.error))

pub write_response-wire :
    (resp : Response) (w : Writer)
    → CanReply resp
    → w.gone ≡ false
    → write_response resp w ≡ (ok tt, flushed w (wire_response resp))
unfolding write_response write_string16 write_bytes32 write_string32 write_uint write flush
write_response-wire resp w can up =
    rw
      (
        le→leb (length resp.payload) default_max_bytes can.small,
        le→leb (length resp.channel) 0xffff can.short,
        le→leb (length resp.error) protocol_max_error_size can.brief,
        mod16 (length resp.channel) can.short,
        mod32 (length resp.payload) (omega (arith, can.small)),
        mod32 (length resp.error) (omega (arith, can.brief)),
        up,
      )
      (simp append_assoc)
