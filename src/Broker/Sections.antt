-- ===== src/Broker/Sections.antt =====
-- broker.go: the sections of push, Pop and removeWaiterLocked under the mutex, in any order, and the
-- order of the messages that they accept and give.
use atomic_queue.Prelude.{
  ℕ, ◌≤◌, ◌≡◌, refl, sym, ap, ◌∙◌, Bool, Bool-cases, true, false, inl, inr, some, List, [], ◌∷◌,
  ◌++◌, length, All-get_elem, get_elem?, bytes_eq, eq_of_bytes_eq, append-nil, append_assoc,
  if◌then◌else◌,
}
use atomic_queue.Fault.{Bytes}
use atomic_queue.Broker.Queues.{Delivery, message}
use atomic_queue.Broker.Waiters.{Waiter, waiter_matches}
use atomic_queue.Broker.Ops.{
  Broker, new_broker, PushTurn, handed, queued, blocked, push_turn, PopTurn, took, over, enlisted,
  pop_turn, cancel_turn,
}
use atomic_queue.Broker.Served.{AllServed, NoTaker-queued}
use atomic_queue.Broker.Valid.{IsValid}
use atomic_queue.Broker.Fifo.{view}

-- A section under the mutex: a round of a push, the first part of a pop, and the end of a pop whose
-- context is over.
pub data Section : Type 0 where
  push_section : (channel payload : Bytes) → Section
  pop_section : (ctx_done : Bool) (channels : List Bytes) (id : ℕ) → Section
  cancel_section : (id : ℕ) → Section

-- What a round of a push accepts, and what the rounds hand to pops.
abbrev pub accepts : Bytes → Bytes → PushTurn → List Delivery
accepts channel payload (handed id) = message channel payload ∷ []
accepts channel payload queued = message channel payload ∷ []
accepts channel payload (blocked sig queued_bytes max) = []

abbrev pub hands : Bytes → Bytes → PushTurn → List Delivery
hands channel payload (handed id) = message channel payload ∷ []
hands channel payload queued = []
hands channel payload (blocked sig queued_bytes max) = []

abbrev pub gives : PopTurn → List Delivery
gives (took d) = d ∷ []
gives over = []
gives enlisted = []

-- The broker, and the messages accepted from pushes and given to pops so far.
pub record Run : Type 0 where
  pub broker : Broker
  pub accepted : List Delivery
  pub given : List Delivery

abbrev pub run_section : Run → Section → Run
run_section r (push_section channel payload) =
    let turn = push_turn r.broker channel payload in
    record {
      broker = turn.1;
      accepted = r.accepted ++ accepts channel payload turn.0;
      given = r.given ++ hands channel payload turn.0;
    }
run_section r (pop_section ctx_done channels id) =
    let turn = pop_turn r.broker ctx_done channels id in
    record { broker = turn.1; accepted = r.accepted; given = r.given ++ gives turn.0 }
run_section r (cancel_section id) = record r { broker = (cancel_turn r.broker id).1 }

abbrev pub run_sections : Run → List Section → Run
run_sections r [] = r
run_sections r (s ∷ ss) = run_sections (run_section r s) ss

abbrev pub begun : (max_bytes max_queued_bytes : ℕ) → Run
begun max_bytes max_queued_bytes = record {
  broker = new_broker max_bytes max_queued_bytes;
  accepted = [];
  given = [];
}

-- The payloads of a channel.
abbrev pub on_channel : Bytes → List Delivery → List Bytes
on_channel c [] = []
on_channel c (d ∷ ds) =
    let rest = on_channel c ds in if bytes_eq d.channel c then d.payload ∷ rest else rest

abbrev pub IsSmall : ℕ → Section → Type 0
IsSmall max_bytes (push_section channel payload) = length payload ≤ max_bytes
IsSmall max_bytes _ = Unit {0}

on_channel-append :
    (c : Bytes) (xs ys : List Delivery)
    → on_channel c (xs ++ ys) ≡ on_channel c xs ++ on_channel c ys
on_channel-append c [] ys = refl
on_channel-append c (x ∷ xs) ys = elim (Bool-cases (bytes_eq x.channel c)) [
  | inl e ↦ rw e (ap (◌∷◌ x.payload) (on_channel-append c xs ys))
  | inr e ↦ rw e (on_channel-append c xs ys)
]

-- A channel that a waiter wants has nothing queued.
pub wanted-empty :
    (b : Broker) (c : Bytes) (i : ℕ) (w : Waiter)
    → AllServed b.queues b.waiters
    → get_elem? b.waiters i ≡ some w
    → waiter_matches w.channels c ≡ true
    → (q : List Bytes) → view b c ≡ q
    → q ≡ []
wanted-empty b c i w served got fits [] e = refl
wanted-empty b c i w served got fits (p ∷ q) e =
    let refused =
      All-get_elem (λ (x : Waiter). waiter_matches x.channels c ≡ false) b.waiters i got
        (NoTaker-queued c b.queues b.waiters (λ h. cc (sym e ∙ h)) served) in
    let clash : true ≡ false = sym fits ∙ refused in cc

-- What is given, with what is still queued behind it, is what was accepted.
pub record InOrder (max_bytes : ℕ) (r : Run) : Type 0 where
  pub valid : IsValid r.broker
  pub same_max : r.broker.max_bytes ≡ max_bytes
  pub ordered : (c : Bytes) → on_channel c r.given ++ view r.broker c ≡ on_channel c r.accepted

-- A message given at once, to a pop or from the front of the queue.
module _ (c : Bytes) (p : Bytes) (given accepted : List Delivery) (d : Bytes) where
  pub given_at_once :
      (q : List Bytes)
      → (c ≡ d → q ≡ [])
      → on_channel d given ++ q ≡ on_channel d accepted
      → on_channel d (given ++ message c p ∷ []) ++ q ≡ on_channel d (accepted ++ message c p ∷ [])
  given_at_once q empty h = elim (Bool-cases (bytes_eq c d)) [
    | inl e ↦
        let nothing : q ≡ [] = empty (eq_of_bytes_eq c d e) in
        let all_given : on_channel d given ++ [] ≡ on_channel d accepted = rw nothing at h in
        rw
          (
            on_channel-append d given (message c p ∷ []),
            on_channel-append d accepted (message c p ∷ []),
            e,
            nothing,
          )
          (append-nil (on_channel d given ++ p ∷ [])
            ∙ ap (λ x. x ++ p ∷ []) (sym (append-nil (on_channel d given)) ∙ all_given))
    | inr e ↦
        rw
          (
            on_channel-append d given (message c p ∷ []),
            on_channel-append d accepted (message c p ∷ []),
            e,
            append-nil (on_channel d given),
            append-nil (on_channel d accepted),
          )
          h
  ]

  pub given_later :
      (b : Broker)
      → on_channel d given ++ view b d ≡ on_channel d accepted
      → on_channel d (given ++ []) ++ (if bytes_eq c d then view b c ++ p ∷ [] else view b d)
        ≡ on_channel d (accepted ++ message c p ∷ [])
  given_later b h = elim (Bool-cases (bytes_eq c d)) [
    | inl e ↦
        rw (append-nil given, on_channel-append d accepted (message c p ∷ []), e)
          (ap (λ v. on_channel d given ++ (v ++ p ∷ [])) (ap (view b) (eq_of_bytes_eq c d e))
            ∙ sym (append_assoc (on_channel d given) (view b d) (p ∷ []))
            ∙ ap (λ x. x ++ p ∷ []) h)
    | inr e ↦
        rw
          (
            append-nil given,
            on_channel-append d accepted (message c p ∷ []),
            e,
            append-nil (on_channel d accepted),
          )
          h
  ]

  pub given_oldest :
      (b : Broker) (q : List Bytes)
      → view b c ≡ p ∷ q
      → on_channel d given ++ view b d ≡ on_channel d accepted
      → on_channel d (given ++ message c p ∷ []) ++ (if bytes_eq c d then q else view b d)
        ≡ on_channel d accepted
  given_oldest b q at h = elim (Bool-cases (bytes_eq c d)) [
    | inl e ↦
        rw (on_channel-append d given (message c p ∷ []), e)
          (append_assoc (on_channel d given) (p ∷ []) q
            ∙ ap (λ v. on_channel d given ++ v) (sym at ∙ ap (view b) (eq_of_bytes_eq c d e))
            ∙ h)
    | inr e ↦
        rw (on_channel-append d given (message c p ∷ []), e, append-nil (on_channel d given)) h
  ]

pub given_none :
    (c : Bytes) (given accepted : List Delivery) (q : List Bytes)
    → on_channel c given ++ q ≡ on_channel c accepted
    → on_channel c (given ++ []) ++ q ≡ on_channel c (accepted ++ [])
given_none c given accepted q h = rw (append-nil given, append-nil accepted) h
