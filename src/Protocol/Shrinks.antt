-- ===== src/Protocol/Shrinks.antt =====
-- The readers of protocol.go never give back more than they were given.
use atomic_queue.Prelude.{
  ℕ, zero, suc, ◌≡◌, refl, ◌∙◌, ◌<◌, ◌≤◌, Bool, true, false, List, [], ◌∷◌, ◌++◌, length, drop, leb,
  ◌==◌, arith, if◌then◌else◌,
}
use atomic_queue.Fault.{Bytes, Error, Result, ok, err}
use atomic_queue.Protocol.Stream.{
  M, and_then, ◌>>=◌, pure, throw, guard, read_byte, read_full, read_uint,
}
use atomic_queue.Protocol.Frames.{whole_frame, read_string16, read_bytes32}
use atomic_queue.Protocol.Request.{Request, op_name, read_channels, read_request}

-- Readers that leave a rest no longer than their input.
abbrev Shrinks : {A : Type 0} → M Bytes A → Type 0
Shrinks {A} m = (s : Bytes) (a : A) (t : Bytes) → m s ≡ (ok a, t) → length t ≤ length s

pure-Shrinks : {A : Type 0} (a : A) → Shrinks (pure a)
pure-Shrinks a s b t h = ground arith

throw-Shrinks : {A : Type 0} (e : Error) → Shrinks {A = A} (throw e)
throw-Shrinks e s b t h = cc

guard-Shrinks : (test : Bool) (e : Error) → Shrinks (guard test e)
guard-Shrinks test e s b t h = ground arith

bind-Shrinks :
    {A B : Type 0} (m : M Bytes A) (f : A → M Bytes B)
    → Shrinks m
    → ((a : A) → Shrinks (f a))
    → Shrinks (m >>= f)
bind-Shrinks {A} {B} m f hm hf s b t = go (m s) refl
  where
    go : (r : Result A × Bytes) → m s ≡ r → and_then r f ≡ (ok b, t) → length t ≤ length s
    go (ok a, u) e h = omega (arith, hm s a u e, hf a u b t h)
    go (err x, u) e h = cc

if-Shrinks :
    {A : Type 0} (b : Bool) (m k : M Bytes A) → Shrinks m → Shrinks k → Shrinks (if b then m else k)
if-Shrinks true m k hm hk = hm
if-Shrinks false m k hm hk = hk

length-drop-le : (n : ℕ) (s : Bytes) → length (drop n s) ≤ length s
length-drop-le zero s = omega arith
length-drop-le (suc n) [] = omega arith
length-drop-le (suc n) (x ∷ s) = omega (arith, length-drop-le n s)

read_full-Shrinks : (n : ℕ) → Shrinks (read_full n)
unfolding read_full
read_full-Shrinks zero s a t h = ground arith
read_full-Shrinks (suc n) [] a t h = cc
read_full-Shrinks (suc n) (x ∷ s) a t h = ground (arith, length-drop-le n s)

read_uint-Shrinks : (k : ℕ) → Shrinks (read_uint k)
unfolding read_uint
read_uint-Shrinks k = bind-Shrinks (read_full k) _ (read_full-Shrinks k) (λ buf. pure-Shrinks _)

whole_frame-Shrinks : (m : M Bytes Bytes) → Shrinks m → Shrinks (λ s. whole_frame (m s))
whole_frame-Shrinks m hm s a t = go (m s) refl
  where
    go : (r : Result Bytes × Bytes) → m s ≡ r → whole_frame r ≡ (ok a, t) → length t ≤ length s
    go (ok b, u) e h = hm s a t (e ∙ h)
    go (err x, u) e h = ground arith

read_bytes32-Shrinks : (max : ℕ) → Shrinks (read_bytes32 max)
unfolding read_bytes32
read_bytes32-Shrinks max = bind-Shrinks (read_uint 4) _ (read_uint-Shrinks 4) λ n.
    bind-Shrinks (guard (leb n max) _) _ (guard-Shrinks (leb n max) _) λ _.
      if-Shrinks (n == 0) _ _ (pure-Shrinks [])
        (whole_frame-Shrinks (read_full n) (read_full-Shrinks n))

read_string16-Shrinks : Shrinks read_string16
unfolding read_string16
read_string16-Shrinks = bind-Shrinks (read_uint 2) _ (read_uint-Shrinks 2) read_full-Shrinks

read_channels-Shrinks : (n : ℕ) (done : List Bytes) → Shrinks (read_channels n done)
unfolding read_channels
read_channels-Shrinks zero done = pure-Shrinks done
read_channels-Shrinks (suc n) done =
    bind-Shrinks read_string16 _ read_string16-Shrinks λ c. read_channels-Shrinks n (done ++ c ∷ [])

op_name-Shrinks : (op : ℕ) → Shrinks (op_name op)
unfolding op_name
op_name-Shrinks op =
    if-Shrinks (op == 1) _ _ (pure-Shrinks _)
      (if-Shrinks (op == 2) _ _ (pure-Shrinks _) (throw-Shrinks _))

-- A request that is accepted has taken a byte at least.
pub read_request_shrinks :
    (s : Bytes) (req : Request) (rest : Bytes)
    → read_request s ≡ (ok req, rest)
    → length rest < length s
unfolding read_request read_byte
read_request_shrinks [] req rest h = cc
read_request_shrinks (op ∷ s) req rest h = omega (arith, body s req rest h)
  where
    body : Shrinks (λ t. read_request (op ∷ t))
    body = bind-Shrinks (read_uint 8) _ (read_uint-Shrinks 8) λ timeout.
        bind-Shrinks (read_uint 2) _ (read_uint-Shrinks 2) λ count.
          bind-Shrinks (guard _ _) _ (guard-Shrinks _ _) λ _.
            bind-Shrinks (read_channels count []) _ (read_channels-Shrinks count []) λ channels.
              bind-Shrinks (read_bytes32 _) _ (read_bytes32-Shrinks _)
                λ payload. bind-Shrinks (op_name op) _ (op_name-Shrinks op) λ name. pure-Shrinks _
