-- ===== src/Protocol/Fields.antt =====
-- Reading back what one field's writer wrote.
use mathlib.Core.List.{foldl-append}
use native.Mathlib.Nat.{pow-suc}
use atomic_queue.Prelude.{
  ℕ, zero, suc, ◌+◌, ◌*◌, ◌/◌, ◌%◌, ◌^◌, ◌≤◌, ◌<◌, ◌≡◌, refl, ap, ◌∙◌, [], ◌∷◌, ◌++◌, length,
  length-append, take-length-append, drop-length-append, le→ltb, le→leb, suc-==-zero, arith, ◌==◌,
  if◌then◌else◌,
}
use atomic_queue.Fault.{Bytes, ok}
use atomic_queue.Protocol.Stream.{from_be, to_be, read_full, read_uint, pure}
use atomic_queue.Protocol.Frames.{whole_frame, read_string16, read_bytes32, read_string32}

pub length-to_be : (k v : ℕ) → length (to_be k v) ≡ k
unfolding to_be
length-to_be zero v = refl
length-to_be (suc k) v =
    omega (arith, length-append (to_be k (v / 256)) ((v % 256) ∷ []), length-to_be k (v / 256))

from_be-snoc : (xs : Bytes) (b : ℕ) → from_be (xs ++ b ∷ []) ≡ from_be xs * 256 + b
unfolding from_be
from_be-snoc xs b = rw foldl-append

pub from_be-to_be : (k v : ℕ) → v < 256 ^ k → from_be (to_be k v) ≡ v
unfolding to_be
from_be-to_be zero v h = unfold from_be in omega (arith)
from_be-to_be (suc k) v h =
    from_be-snoc (to_be k (v / 256)) (v % 256)
    ∙ omega (arith, from_be-to_be k (v / 256) (omega (arith, rw pow-suc at h)))

pub read_full-append :
    (n : ℕ) (xs rest : Bytes) → length xs ≡ n → read_full n (xs ++ rest) ≡ (ok xs, rest)
unfolding read_full
read_full-append n [] rest h = rw (← h)
read_full-append n (x ∷ xs) rest h =
    rw (← h, le→ltb (length (xs ++ rest)) (length xs) (omega (arith, length-append xs rest)))
      (rw (take-length-append xs rest, drop-length-append xs rest))

pub read_uint-to_be :
    (k v : ℕ) (rest : Bytes) → v < 256 ^ k → read_uint k (to_be k v ++ rest) ≡ (ok v, rest)
unfolding read_uint
read_uint-to_be k v rest h =
    rw (read_full-append k (to_be k v) rest (length-to_be k v)) (rw (from_be-to_be k v h))

-- The fields on the wire: a length in two or four bytes, then the bytes.
abbrev pub field16 : Bytes → Bytes
field16 value = to_be 2 (length value) ++ value

abbrev pub field32 : Bytes → Bytes
field32 value = to_be 4 (length value) ++ value

pub read_string16-field16 :
    (value rest : Bytes)
    → length value ≤ 0xffff
    → read_string16 (to_be 2 (length value) ++ (value ++ rest)) ≡ (ok value, rest)
unfolding read_string16
read_string16-field16 value rest h =
    rw (read_uint-to_be 2 (length value) (value ++ rest) (omega arith))
      (read_full-append (length value) value rest refl)

pub read_bytes32-field32 :
    (max : ℕ) (value rest : Bytes)
    → length value ≤ max
    → max < 2 ^ 32
    → read_bytes32 max (to_be 4 (length value) ++ (value ++ rest)) ≡ (ok value, rest)
unfolding read_bytes32
read_bytes32-field32 max value rest h fits =
    rw (read_uint-to_be 4 (length value) (value ++ rest) (omega arith))
      (rw (le→leb (length value) max h) (body value))
  where
    body :
        (v : Bytes)
        → (if length v == 0 then pure [] else (λ s. whole_frame (read_full (length v) s)))
            (v ++ rest)
          ≡ (ok v, rest)
    body [] = refl
    body (x ∷ v) =
        rw (suc-==-zero (length v))
          (ap whole_frame (read_full-append (suc (length v)) (x ∷ v) rest refl))

pub read_string32-field32 :
    (max : ℕ) (value rest : Bytes)
    → length value ≤ max
    → max < 2 ^ 32
    → read_string32 max (to_be 4 (length value) ++ (value ++ rest)) ≡ (ok value, rest)
unfolding read_string32
read_string32-field32 max value rest h fits = rw (read_bytes32-field32 max value rest h fits)
