-- ===== src/System/Tickets.antt =====
-- One reply channel followed through the system: the waiter that stands in the broker's list, the
-- push that is about to send, the message in the buffer, and the pop that owns the channel.
use atomic_queue.Prelude.{
  ℕ, ◌+◌, ◌≤◌, ◌≡◌, refl, ◌⊎◌, inl, inr, Bool, false, Bool-cases, some, List, [], ◌∷◌, ◌++◌, length,
  length-append, length-set, total, total-append, All, get_elem?, ◌==◌, arith,
}
use atomic_queue.Fault.{Bytes}
use atomic_queue.Broker.Waiters.{Waiter, total-erase_idx}
use atomic_queue.Broker.Ops.{Broker, push_turn, pop_turn, cancel_turn, enlist}
use atomic_queue.Broker.Valid.{IsValid}
use atomic_queue.Broker.Cases.{Pushes, to_waiter, to_queue, must_wait, push_turn-Pushes}
use atomic_queue.Broker.PopCases.{
  Pops, takes, gives_up, waits, pop_turn-Pops, Cancels, leaves, had_left, cancel_turn-Cancels,
}
use atomic_queue.System.{
  Phase, pushing, handing, popping, waiting, cancelling, receiving, checking, Replies, after_push,
  after_pop, make_reply, after_cancel, Move, push_lock, send, wake, push_expire, pop_lock, receive,
  pop_expire, cancel_lock, last_receive, late_receive, nothing_late,
}
use atomic_queue.System.Grows.{PhaseOk}
use atomic_queue.System.Buffers.{one_if, buffer_len, buffer_len-set, buffer_len-append}

module _ (id : ℕ) where
  abbrev pub lists : Waiter → ℕ
  lists w = one_if (w.id == id)

  -- A push that is about to send to the channel.
  abbrev pub sends : Phase → ℕ
  sends (handing j d) = one_if (j == id)
  sends _ = 0

  -- A pop that waits at the channel, or has still to take its waiter off the list.
  abbrev pub awaits : Phase → ℕ
  awaits (waiting j) = one_if (j == id)
  awaits (cancelling j) = one_if (j == id)
  awaits _ = 0

  -- A pop whose waiter was taken by a push, and that waits for the message.
  abbrev pub receives : Phase → ℕ
  receives (receiving j) = one_if (j == id)
  receives _ = 0

  -- A pop that has taken its waiter off the list.
  abbrev pub checks : Phase → ℕ
  checks (checking j) = one_if (j == id)
  checks _ = 0

  -- A step that gives nobody the channel and lists no waiter of it.
  abbrev pub Usual : Broker → Phase → Broker → Phase → Type 0
  Usual b phase b' phase' =
      (awaits phase' + receives phase' + checks phase'
        ≤ awaits phase + receives phase + checks phase)
      × (receives phase' + total lists b'.waiters ≤ receives phase + total lists b.waiters)

  -- A cancelled pop finds its waiter gone.
  abbrev pub Taken : Phase → Broker → Phase → Type 0
  Taken phase b' phase' =
      (awaits phase ≡ 1)
      × (awaits phase' + checks phase' ≡ 0)
      × (receives phase' ≡ 1)
      × (total lists b'.waiters ≡ 0)

  -- The channel is made.
  abbrev pub Made : Broker → Replies → Phase → Broker → Replies → Phase → Type 0
  Made b rs phase b' rs' phase' =
      (length rs ≡ id)
      × (length rs' ≡ id + 1)
      × (awaits phase + receives phase + checks phase ≡ 0)
      × (awaits phase' ≡ 1)
      × (receives phase' + checks phase' ≡ 0)
      × (total lists b'.waiters ≡ total lists b.waiters + 1)

  pub record Ticket (b : Broker) (rs : Replies) (phase : Phase) (b' : Broker) (rs' : Replies)
      (phase' : Phase) : Type 0 where
    pub kept :
        total lists b'.waiters + sends phase' + buffer_len id rs' + awaits phase + receives phase
        ≡ total lists b.waiters + sends phase + buffer_len id rs + awaits phase' + receives phase'
    pub longer : length rs ≤ length rs'
    pub change : Usual b phase b' phase' ⊎ (Taken phase b' phase' ⊎ Made b rs phase b' rs' phase')

  push_lock-Ticket :
      (b : Broker) (rs : Replies) (c p : Bytes)
      → IsValid b
      → length p ≤ b.max_bytes
      → Ticket b rs (pushing c p) (push_turn b c p).1 rs (after_push c p (push_turn b c p).0)
  unfolding after_push
  push_lock-Ticket b rs c p v small = go (push_turn-Pushes b c p v small)
    where
      go :
          Pushes b c p (push_turn b c p)
          → Ticket b rs (pushing c p) (push_turn b c p).1 rs (after_push c p (push_turn b c p).0)
      go (to_waiter i w got fits first r) = rw r (record {
        kept = omega (arith, total-erase_idx lists b.waiters i w got);
        longer = omega arith;
        change = inl (omega arith, omega (arith, total-erase_idx lists b.waiters i w got));
      })
      go (to_queue none_wait room r) =
          rw r
            (record { kept = refl; longer = omega arith; change = inl (omega arith, omega arith) })
      go (must_wait none_wait full r) =
          rw r
            (record { kept = refl; longer = omega arith; change = inl (omega arith, omega arith) })

  enlist-Ticket :
      (b : Broker) (rs : Replies) (cs : List Bytes)
      → Ticket b rs
          (popping cs)
          (enlist b (record { id = length rs; channels = cs }))
          (rs ++ [] ∷ [])
          (waiting (length rs))
  unfolding enlist
  enlist-Ticket b rs cs = record {
    kept = omega (
      arith,
      total-append lists b.waiters (record { id = length rs; channels = cs } ∷ []),
      buffer_len-append id rs,
    );
    longer = omega (arith, length-append rs ([] ∷ []));
    change = elim (Bool-cases (length rs == id)) [
      | inl e ↦ inr (
          inr (
            ground arith,
            ground (arith, length-append rs ([] ∷ [])),
            refl,
            rw e,
            refl,
            rw (total-append lists b.waiters _, e) (omega arith),
          ))
      | inr e ↦ inl (rw e (omega arith), rw (total-append lists b.waiters _, e) (omega arith))
    ];
  }

  pop_lock-Ticket :
      (b : Broker) (rs : Replies) (done : Bool) (cs : List Bytes)
      → IsValid b
      → let r = pop_turn b done cs (length rs) in
        Ticket b rs (popping cs) r.1 (make_reply r.0 rs) (after_pop (length rs) r.0)
  unfolding after_pop make_reply enlist
  pop_lock-Ticket b rs done cs v = go (pop_turn-Pops b done cs (length rs) v)
    where
      go :
          Pops b done cs (length rs) (pop_turn b done cs (length rs))
          → let r = pop_turn b done cs (length rs) in
            Ticket b rs (popping cs) r.1 (make_reply r.0 rs) (after_pop (length rs) r.0)
      go (takes c p q before after split dry at r) =
          rw r
            (record { kept = refl; longer = omega arith; change = inl (omega arith, omega arith) })
      go (gives_up dry e r) =
          rw r
            (record { kept = refl; longer = omega arith; change = inl (omega arith, omega arith) })
      go (waits dry e r) = rw r (enlist-Ticket b rs cs)

  no_lists : (ws : List Waiter) → All (λ w. (w.id == id) ≡ false) ws → total lists ws ≡ 0
  no_lists [] h = refl
  no_lists (w ∷ ws) h = rw h.0 (omega (arith, no_lists ws h.1))

  cancel_lock-Ticket :
      (b : Broker) (rs : Replies) (j : ℕ)
      → Ticket b rs (cancelling j) (cancel_turn b j).1 rs (after_cancel j (cancel_turn b j).0)
  unfolding after_cancel
  cancel_lock-Ticket b rs j = go (cancel_turn-Cancels b j)
    where
      go :
          Cancels b j (cancel_turn b j)
          → Ticket b rs (cancelling j) (cancel_turn b j).1 rs (after_cancel j (cancel_turn b j).0)
      go (leaves i w got same r) = rw r (record {
        kept = rw (← same) (omega (arith, total-erase_idx lists b.waiters i w got));
        longer = omega arith;
        change = inl (omega arith, omega (arith, total-erase_idx lists b.waiters i w got));
      })
      go (had_left h r) = rw r (record {
        kept = omega arith;
        longer = omega arith;
        change = elim (Bool-cases (j == id)) [
          | inl e ↦
              let same : j ≡ id = ground arith in
              inr (inl (rw e refl, refl, rw e refl, no_lists b.waiters (rw same at h)))
          | inr e ↦ inl (rw e (omega arith), rw e (omega arith))
        ];
      })

  -- Each step of a goroutine treats each channel so.
  pub Move-Ticket :
      {b : Broker} {rs : Replies} {done : Bool} {phase : Phase} {b' : Broker} {rs' : Replies}
      {phase' : Phase}
      → Move b rs done phase b' rs' phase'
      → IsValid b
      → PhaseOk b phase
      → ((j : ℕ) → phase ≡ checking j → get_elem? rs j ≡ some [])
      → Ticket b rs phase b' rs' phase'
  Move-Ticket {b} {rs} (push_lock {c} {p}) v h none_late = push_lock-Ticket b rs c p v h
  Move-Ticket {rs = rs} (send {id = j} {d} e) v h none_late = record {
    kept = ground (arith, buffer_len-set id rs j [] (d ∷ []) e);
    longer = omega (arith, length-set rs j (d ∷ []));
    change = inl (omega arith, omega arith);
  }
  Move-Ticket (wake e) v h none_late = record {
    kept = refl;
    longer = omega arith;
    change = inl (omega arith, omega arith);
  }
  Move-Ticket (push_expire e) v h none_late = record {
    kept = refl;
    longer = omega arith;
    change = inl (omega arith, omega arith);
  }
  Move-Ticket {b} {rs} {done} (pop_lock {cs}) v h none_late = pop_lock-Ticket b rs done cs v
  Move-Ticket {rs = rs} (receive {id = j} {d} {q} e) v h none_late = record {
    kept = ground (arith, buffer_len-set id rs j (d ∷ q) q e);
    longer = omega (arith, length-set rs j q);
    change = inl (omega arith, omega arith);
  }
  Move-Ticket (pop_expire e) v h none_late = record {
    kept = refl;
    longer = omega arith;
    change = inl (omega arith, omega arith);
  }
  Move-Ticket {b} {rs} (cancel_lock {id = j}) v h none_late = cancel_lock-Ticket b rs j
  Move-Ticket {rs = rs} (last_receive {id = j} {d} {q} e) v h none_late = record {
    kept = ground (arith, buffer_len-set id rs j (d ∷ q) q e);
    longer = omega (arith, length-set rs j q);
    change = inl (omega arith, omega arith);
  }
  Move-Ticket (late_receive {id = j} {d} {q} e) v h none_late = absurd (cc (none_late j refl))
  Move-Ticket (nothing_late e) v h none_late = record {
    kept = refl;
    longer = omega arith;
    change = inl (omega arith, omega arith);
  }
