-- ===== src/System/Buffers.antt =====
-- The messages in the buffer of one reply channel.
use atomic_queue.Prelude.{
  ℕ, zero, suc, ◌+◌, ◌≡◌, refl, Bool, some, List, [], ◌∷◌, ◌++◌, length, get_elem?, set, ◌==◌,
  arith, if◌then◌else◌,
}
use atomic_queue.Broker.Queues.{Delivery}
use atomic_queue.System.{Replies}

abbrev pub one_if : Bool → ℕ
one_if b = if b then 1 else 0

-- How many messages stand in the buffer of a channel.
unfoldable pub buffer_len : ℕ → Replies → ℕ
buffer_len id [] = 0
buffer_len zero (q ∷ rs) = length q
buffer_len (suc id) (q ∷ rs) = buffer_len id rs

pub buffer_len-set :
    (id : ℕ) (rs : Replies) (j : ℕ) (q q' : List Delivery)
    → get_elem? rs j ≡ some q
    → buffer_len id (set rs j q') + (if j == id then length q else 0)
      ≡ buffer_len id rs + (if j == id then length q' else 0)
unfolding buffer_len
buffer_len-set id [] j q q' e = cc
buffer_len-set zero (r ∷ rs) zero q q' e = ground arith
buffer_len-set (suc id) (r ∷ rs) zero q q' e = ground arith
buffer_len-set zero (r ∷ rs) (suc j) q q' e = ground arith
buffer_len-set (suc id) (r ∷ rs) (suc j) q q' e = ground (arith, buffer_len-set id rs j q q' e)

pub buffer_len-append : (id : ℕ) (rs : Replies) → buffer_len id (rs ++ [] ∷ []) ≡ buffer_len id rs
unfolding buffer_len
buffer_len-append zero [] = refl
buffer_len-append (suc id) [] = refl
buffer_len-append zero (r ∷ rs) = refl
buffer_len-append (suc id) (r ∷ rs) = buffer_len-append id rs
