-- ===== src/System/Handoff.antt =====
-- What the account of the reply channels means for the goroutines of broker.go.
use atomic_queue.Prelude.{
  ℕ, ◌+◌, ◌≤◌, ◌<◌, ◌^◌, ◌≡◌, ◌⊎◌, inl, inr, true, some, [], ◌∷◌, length, le-or-lt, Bool-cases,
  All-get_elem, get_elem?, set, ◌==◌, arith,
}
use atomic_queue.Fault.{Bytes}
use atomic_queue.Broker.Queues.{Delivery}
use atomic_queue.Broker.Ops.{is_closed}
use atomic_queue.System.{
  handing, parked, pushed, receiving, checking, Thread, System, Move, send, Reach,
}
use atomic_queue.System.Conservation.{over_threads}
use atomic_queue.System.Invariant.{Reach-SystemOk}
use atomic_queue.System.Tickets.{sends, receives}
use atomic_queue.System.Buffers.{buffer_len}
use atomic_queue.System.Replies.{Reach-ReplyOk, buffer_len-zero, le-over_threads, checking-empty}

module _ {max_bytes max_queued_bytes : ℕ} {s : System}
    (small : max_queued_bytes + max_bytes < 2 ^ 63) (r : Reach max_bytes max_queued_bytes s) (i : ℕ)
    (t : Thread) (at : get_elem? s.threads i ≡ some t) where
  -- With limits whose sum is below 2^63, in every reachable state: a push that has taken a waiter off
  -- the list can send at once, since the buffer of the reply channel is empty, so that
  -- `w.reply <- delivery` never blocks.
  pub send_never_blocks :
      (id : ℕ) (d : Delivery)
      → t.phase ≡ handing id d
      → Move s.broker s.replies t.ctx_done
          (handing id d)
          s.broker
          (set s.replies id (d ∷ []))
          (pushed d)
  send_never_blocks id d e =
      let k = Reach-ReplyOk small r id in
      let here : sends id t.phase ≡ 1 = rw e (ground arith) in
      let one : 1 ≤ over_threads (sends id) s.threads =
        omega (arith, here, le-over_threads (sends id) s.threads i t at) in
      let made : id < length s.replies = elim (le-or-lt (length s.replies) id) [
        | inl early ↦ absurd (omega (arith, one, k.paired, k.fresh early))
        | inr h ↦ h
      ] in
      send (buffer_len-zero id s.replies made (omega (arith, one, k.paired, k.single)))

  -- With limits whose sum is below 2^63, in every reachable state: a pop that has timed out and
  -- taken its waiter off the list itself finds its reply channel empty, so that no message is lost
  -- with it.
  pub timeout_leaves_nothing : (id : ℕ) → t.phase ≡ checking id → get_elem? s.replies id ≡ some []
  timeout_leaves_nothing id e = checking-empty id s i t (Reach-ReplyOk small r id) at e

  -- With limits whose sum is below 2^63, in every reachable state: when a push took the waiter of a
  -- pop off the list before the pop could, either the message stands in the reply channel, or
  -- exactly one push is about to send it.
  pub receiver_is_served :
      (id : ℕ)
      → t.phase ≡ receiving id
      → buffer_len id s.replies + over_threads (sends id) s.threads ≡ 1
  receiver_is_served id e =
      let k = Reach-ReplyOk small r id in
      let here : receives id t.phase ≡ 1 = rw e (ground arith) in
      let one : 1 ≤ over_threads (receives id) s.threads =
        omega (arith, here, le-over_threads (receives id) s.threads i t at) in
      omega (arith, one, k.paired, k.single, k.apart)

  -- With limits whose sum is below 2^63, in every reachable state: a push that waits for a signal
  -- either can wake up, since the signal is closed, or still has no room in the queue, so that no
  -- wake-up for capacity is lost.
  pub no_lost_drain :
      (c p : Bytes) (sig : ℕ)
      → t.phase ≡ parked c p sig
      → (is_closed sig s.broker.closed_signals ≡ true)
        ⊎ (s.broker.max_queued_bytes < s.broker.queued_bytes + length p)
  no_lost_drain c p sig e =
      let o = Reach-SystemOk small r in
      let h = rw e at (All-get_elem _ s.threads i at o.locals) in
      elim (Bool-cases (sig == s.broker.drain_signal)) [
        | inl now ↦ inr (h.2 (ground arith))
        | inr old ↦ inl (o.valid.signals.past sig h.1 (λ same. ground arith))
      ]
