-- ===== src/Protocol/Stream.antt =====
-- The streams that protocol.go reads and writes: bufio, io.ReadFull, encoding/binary, big endian.
-- A reader is what the peer still sends before it closes; a writer has sent bytes and bytes that
-- wait for `Flush`. A write fails only at `Flush`, when the peer is gone.
use mathlib.Core.List.{foldl}
use atomic_queue.Prelude.{
  ℕ, zero, suc, ◌+◌, ◌*◌, ◌/◌, ◌%◌, Bool, [], ◌∷◌, ◌++◌, length, take, drop, ltb, if◌then◌else◌,
}
use atomic_queue.Fault.{Bytes, Error, eof, unexpected_eof, write_failed, Result, ok, err}

-- A computation over a stream `S`: what has been read or written stays so after an error.
abbrev pub M : Type 0 → Type 0 → Type 0
M S A = S → Result A × S

abbrev pub and_then : {S A B : Type 0} → Result A × S → (A → M S B) → Result B × S
and_then (ok a, s) f = f a s
and_then (err e, s) f = (err e, s)

infixl 5 ◌>>=◌ ◌>>◌
abbrev pub ◌>>=◌ : {S A B : Type 0} → M S A → (A → M S B) → M S B
◌>>=◌ m f s = and_then (m s) f

abbrev pub ◌>>◌ : {S B : Type 0} → M S (Unit {0}) → M S B → M S B
m >> k = m >>= λ _. k

abbrev pub pure : {S A : Type 0} → A → M S A
pure a s = (ok a, s)

abbrev pub throw : {S A : Type 0} → Error → M S A
throw e s = (err e, s)

abbrev pub guard : {S : Type 0} → Bool → Error → M S (Unit {0})
guard test e s = (if test then ok tt else err e, s)

-- `r.ReadByte()`
unfoldable pub read_byte : M Bytes ℕ
read_byte [] = (err eof, [])
read_byte (b ∷ s) = (ok b, s)

-- `io.ReadFull(r, buf)` for a buffer of `n` bytes.
unfoldable pub read_full : ℕ → M Bytes Bytes
read_full zero s = (ok [], s)
read_full (suc n) [] = (err eof, [])
read_full (suc n) (b ∷ s) =
    if ltb (length s) n then (err unexpected_eof, []) else (ok (b ∷ take n s), drop n s)

abbrev pub push_digit : ℕ → ℕ → ℕ
push_digit acc b = acc * 256 + b

-- The number that `k` bytes stand for, the highest first.
unfoldable pub from_be : Bytes → ℕ
from_be = foldl push_digit 0

-- The lowest `k` bytes of a number, the highest first.
unfoldable pub to_be : ℕ → ℕ → Bytes
to_be zero v = []
to_be (suc k) v = to_be k (v / 256) ++ (v % 256) ∷ []

-- `binary.Read` into an unsigned number of `k` bytes.
unfoldable pub read_uint : ℕ → M Bytes ℕ
read_uint k = do buf ← read_full k; pure (from_be buf)

pub record Writer : Type 0 where
  pub sent : Bytes
  pub buffered : Bytes
  pub gone : Bool

unfoldable pub write : Bytes → M Writer (Unit {0})
write bytes w = (ok tt, record w { buffered = w.buffered ++ bytes })

-- `binary.Write` of an unsigned number of `k` bytes.
unfoldable pub write_uint : ℕ → ℕ → M Writer (Unit {0})
write_uint k v = write (to_be k v)

unfoldable pub flush : M Writer (Unit {0})
flush w =
    if w.gone
    then (err write_failed, w)
    else (ok tt, record w { sent = w.sent ++ w.buffered; buffered = [] })
