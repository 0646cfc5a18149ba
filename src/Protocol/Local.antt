-- ===== src/Protocol/Local.antt =====
-- The readers do not look past what they return: more bytes behind the input join the rest.
-- So no proper prefix of a request is taken for a request.
use atomic_queue.Prelude.{
  ℕ, zero, suc, ◌≡◌, refl, ap, ◌≤◌, Bool, true, false, List, [], ◌∷◌, ◌++◌, length, take, drop,
  length-append, append-nil, leb, ◌==◌, ◌⊎◌, inl, inr, arith, if◌then◌else◌,
}
use atomic_queue.Prelude.Int.{IsInt64}
use atomic_queue.Fault.{Bytes, Error, Result, ok, err}
use atomic_queue.Protocol.Stream.{
  M, and_then, ◌>>=◌, pure, throw, guard, read_byte, read_full, read_uint,
}
use atomic_queue.Protocol.Frames.{whole_frame, read_string16, read_bytes32}
use atomic_queue.Protocol.Request.{Request, op_name, read_channels, read_request}
use atomic_queue.Protocol.Wire.{CanSend, wire_request}
use atomic_queue.Protocol.RoundTrip.{read_request-wire}

abbrev IsLocal : {A : Type 0} → M Bytes A → Type 0
IsLocal {A} m =
    (s : Bytes) (a : A) (t more : Bytes) → m s ≡ (ok a, t) → m (s ++ more) ≡ (ok a, t ++ more)

pure-IsLocal : {A : Type 0} (a : A) → IsLocal (pure a)
pure-IsLocal a s b t more h = cc

throw-IsLocal : {A : Type 0} (e : Error) → IsLocal {A = A} (throw e)
throw-IsLocal e s b t more h = cc

guard-IsLocal : (test : Bool) (e : Error) → IsLocal (guard test e)
guard-IsLocal true e s b t more h = cc
guard-IsLocal false e s b t more h = cc

bind-IsLocal :
    {A B : Type 0} (m : M Bytes A) (f : A → M Bytes B)
    → IsLocal m
    → ((a : A) → IsLocal (f a))
    → IsLocal (m >>= f)
bind-IsLocal {A} {B} m f hm hf s b t more = go (m s) refl
  where
    go :
        (r : Result A × Bytes)
        → m s ≡ r
        → and_then r f ≡ (ok b, t)
        → (m >>= f) (s ++ more) ≡ (ok b, t ++ more)
    go (ok a, u) e h = rw (hm s a u more e) (hf a u b t more h)
    go (err x, u) e h = cc

read_byte-IsLocal : IsLocal read_byte
unfolding read_byte
read_byte-IsLocal [] a t more h = cc
read_byte-IsLocal (b ∷ s) a t more h = cc

take-append_le :
    (n : ℕ) (s more : Bytes)
    → n ≤ length s
    → (take n (s ++ more) ≡ take n s) × (drop n (s ++ more) ≡ drop n s ++ more)
take-append_le zero s more h = (refl, refl)
take-append_le (suc n) [] more h = absurd (omega arith)
take-append_le (suc n) (x ∷ s) more h =
    let ih = take-append_le n s more (omega arith) in (ap (◌∷◌ x) ih.0, ih.1)

read_full-IsLocal : (n : ℕ) → IsLocal (read_full n)
unfolding read_full
read_full-IsLocal zero s a t more h = cc
read_full-IsLocal (suc n) [] a t more h = cc
read_full-IsLocal (suc n) (x ∷ s) a t more h =
    ground (arith, take-append_le n s more, length-append s more)

read_uint-IsLocal : (k : ℕ) → IsLocal (read_uint k)
unfolding read_uint
read_uint-IsLocal k = bind-IsLocal (read_full k) _ (read_full-IsLocal k) (λ buf. pure-IsLocal _)

whole_frame-IsLocal : (m : M Bytes Bytes) → IsLocal m → IsLocal (λ s. whole_frame (m s))
whole_frame-IsLocal m hm s a t more = go (m s) refl
  where
    go :
        (r : Result Bytes × Bytes)
        → m s ≡ r
        → whole_frame r ≡ (ok a, t)
        → whole_frame (m (s ++ more)) ≡ (ok a, t ++ more)
    go (ok b, u) e h = rw (hm s b u more e) (cc)
    go (err x, u) e h = ground arith

read_string16-IsLocal : IsLocal read_string16
unfolding read_string16
read_string16-IsLocal = bind-IsLocal (read_uint 2) _ (read_uint-IsLocal 2) read_full-IsLocal

-- A branch on a test is local where both sides are.
if-IsLocal :
    {A : Type 0} (b : Bool) (m k : M Bytes A) → IsLocal m → IsLocal k → IsLocal (if b then m else k)
if-IsLocal true m k hm hk = hm
if-IsLocal false m k hm hk = hk

read_bytes32-IsLocal : (max : ℕ) → IsLocal (read_bytes32 max)
unfolding read_bytes32
read_bytes32-IsLocal max = bind-IsLocal (read_uint 4) _ (read_uint-IsLocal 4) λ n.
    bind-IsLocal (guard (leb n max) _) _ (guard-IsLocal (leb n max) _) λ _.
      if-IsLocal (n == 0) _ _ (pure-IsLocal [])
        (whole_frame-IsLocal (read_full n) (read_full-IsLocal n))

op_name-IsLocal : (op : ℕ) → IsLocal (op_name op)
unfolding op_name
op_name-IsLocal op =
    if-IsLocal (op == 1) _ _ (pure-IsLocal _)
      (if-IsLocal (op == 2) _ _ (pure-IsLocal _) (throw-IsLocal _))

read_channels-IsLocal : (n : ℕ) (done : List Bytes) → IsLocal (read_channels n done)
unfolding read_channels
read_channels-IsLocal zero done = pure-IsLocal done
read_channels-IsLocal (suc n) done =
    bind-IsLocal read_string16 _ read_string16-IsLocal λ c. read_channels-IsLocal n (done ++ c ∷ [])

-- When `read_request` accepts a request, it accepts the same one whatever bytes follow, and leaves
-- those bytes behind the rest of its input.
pub read_request-IsLocal :
    (s : Bytes) (req : Request) (rest more : Bytes)
    → read_request s ≡ (ok req, rest)
    → read_request (s ++ more) ≡ (ok req, rest ++ more)
unfolding read_request
read_request-IsLocal = bind-IsLocal read_byte _ read_byte-IsLocal λ op.
    bind-IsLocal (read_uint 8) _ (read_uint-IsLocal 8) λ timeout.
      bind-IsLocal (read_uint 2) _ (read_uint-IsLocal 2) λ count.
        bind-IsLocal (guard _ _) _ (guard-IsLocal _ _) λ _.
          bind-IsLocal (read_channels count []) _ (read_channels-IsLocal count []) λ channels.
            bind-IsLocal (read_bytes32 _) _ (read_bytes32-IsLocal _)
              λ payload. bind-IsLocal (op_name op) _ (op_name-IsLocal op) λ name. pure-IsLocal _

Result-cases :
    {A S : Type 0} (r : Result A × S)
    → ((a : A) × (s : S) × (r ≡ (ok a, s))) ⊎ ((e : Error) × (r.0 ≡ err e))
Result-cases (ok a, s) = inl (a, s, refl)
Result-cases (err e, s) = inr (e, refl)

-- No proper prefix of the bytes of an acceptable request is accepted as a request: if the
-- connection ends inside it, `read_request` gives an error.
pub read_request_truncated :
    (req : Request) (front : Bytes) (b : ℕ) (back : Bytes)
    → CanSend req
    → IsInt64 req.timeout_ms
    → wire_request req ≡ front ++ b ∷ back
    → (e : Error) × ((read_request front).0 ≡ err e)
read_request_truncated req front b back can fits split = elim (Result-cases (read_request front)) [
  | inr refused ↦ refused
  | inl (other, rest, e) ↦ absurd (
      ground (
        arith,
        rw (append-nil, split) at (read_request-wire req [] can fits),
        read_request-IsLocal front other rest (b ∷ back) e,
        length-append rest (b ∷ back),
      ))
]
