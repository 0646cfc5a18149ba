-- ===== src/Channel/Pattern.antt =====
-- The language of `channelPattern`, as a regular expression with its meaning as a relation.
use atomic_queue.Prelude.{
  ℕ, zero, suc, ◌≤◌, ◌≡◌, refl, ◌⊎◌, inl, inr, ◌↔◌, true, none, some, List, [], ◌∷◌, length, All,
  arith, Bool-cases,
}
use atomic_queue.Fault.{Bytes, invalid_channel}
use atomic_queue.Channel.{is_head, is_tail, all_tail, match_channel, validate_channel}

-- A character class: ranges of bytes.
abbrev pub Class : Type 0
Class = List (ℕ × ℕ)

abbrev pub IsIn : Class → ℕ → Type 0
IsIn [] c = ⊥
IsIn ((lo, hi) ∷ ranges) c = ((lo ≤ c) × (c ≤ hi)) ⊎ IsIn ranges c

-- Classes one after the other, each with the least and the most repetitions, up to the end.
pub data Regex : Type 0 where
  stop : Regex
  repeat : Class → ℕ → ℕ → Regex → Regex

-- `Matches r s`: the whole of `s` is a match of `r`.
pub data Matches : Regex → Bytes → Type 0 where
  at_stop : Matches stop []
  leave :
      {k : Class} {most : ℕ} {r : Regex} {s : Bytes}
      → Matches r s
      → Matches (repeat k zero most r) s
  eat_needed :
      {k : Class} {least most c : ℕ} {r : Regex} {s : Bytes}
      → IsIn k c
      → Matches (repeat k least most r) s
      → Matches (repeat k (suc least) (suc most) r) (c ∷ s)
  eat_more :
      {k : Class} {most c : ℕ} {r : Regex} {s : Bytes}
      → IsIn k c
      → Matches (repeat k zero most r) s
      → Matches (repeat k zero (suc most) r) (c ∷ s)

-- `[A-Za-z0-9]` and `[A-Za-z0-9._-]`
abbrev pub head_class : Class
head_class = (b'A', b'Z') ∷ (b'a', b'z') ∷ (b'0', b'9') ∷ []

abbrev pub tail_class : Class
tail_class =
    (b'A', b'Z') ∷ (b'a', b'z') ∷ (b'0', b'9') ∷ (b'.', b'.') ∷ (b'_', b'_') ∷ (b'-', b'-') ∷ []

-- `^[A-Za-z0-9][A-Za-z0-9._-]{0,127}$`
abbrev pub channel_pattern : Regex
channel_pattern = repeat head_class 1 1 (repeat tail_class 0 127 stop)

head_iff : (c : ℕ) → (is_head c ≡ true) ↔ IsIn head_class c
unfolding is_head
head_iff c = (λ h. ground arith, λ h. ground arith)

tail_iff : (c : ℕ) → (is_tail c ≡ true) ↔ IsIn tail_class c
unfolding is_tail
tail_iff c = (λ h. ground arith, λ h. ground arith)

-- The tail of a name, for any bound on its length.
tail-Matches :
    (most : ℕ) (s : Bytes)
    → length s ≤ most
    → all_tail s ≡ true
    → Matches (repeat tail_class zero most stop) s
unfolding all_tail
tail-Matches most [] h e = leave at_stop
tail-Matches zero (c ∷ s) h e = absurd (omega arith)
tail-Matches (suc most) (c ∷ s) h e =
    eat_more ((tail_iff c).0 (ground arith)) (tail-Matches most s (omega arith) (ground arith))

stop_inv : {s : Bytes} → Matches stop s → s ≡ []
stop_inv at_stop = refl

repeat_inv :
    {k : Class} {most : ℕ} {s : Bytes}
    → Matches (repeat k zero most stop) s
    → (length s ≤ most) × All (IsIn k) s
repeat_inv {k} (leave m) = rw (stop_inv m) (omega arith, tt)
repeat_inv (eat_more h m) = let rest = repeat_inv m in (omega (arith, rest.0), (h, rest.1))

none_inv : {k : Class} {r : Regex} {s : Bytes} → Matches (repeat k zero zero r) s → Matches r s
none_inv (leave m) = m

one_inv :
    {k : Class} {r : Regex} {s : Bytes}
    → Matches (repeat k (suc zero) (suc zero) r) s
    → (c : ℕ) × (rest : Bytes) × (s ≡ c ∷ rest) × IsIn k c × Matches r rest
one_inv (eat_needed {c = c} {s = rest} h m) = (c, rest, refl, h, none_inv m)

all_tail_of_All : (s : Bytes) → All (IsIn tail_class) s → all_tail s ≡ true
unfolding all_tail
all_tail_of_All [] h = refl
all_tail_of_All (c ∷ s) h = ground (arith, (tail_iff c).1 h.0, all_tail_of_All s h.1)

match_channel-Matches : (s : Bytes) → match_channel s ≡ true → Matches channel_pattern s
unfolding match_channel
match_channel-Matches [] h = cc
match_channel-Matches (c ∷ s) h =
    eat_needed ((head_iff c).0 (ground arith))
      (leave (tail-Matches 127 s (ground arith) (ground arith)))

Matches-match_channel : (s : Bytes) → Matches channel_pattern s → match_channel s ≡ true
unfolding match_channel
Matches-match_channel s m =
    let (c, rest, e, h, m') = one_inv m in
    let (short, tail) = repeat_inv m' in
    rw e (ground (arith, (head_iff c).1 h, all_tail_of_All rest tail, short))

-- `validate_channel` accepts exactly the byte strings that match the regular expression
-- `^[A-Za-z0-9][A-Za-z0-9._-]{0,127}$` as a whole, and answers any other with the error that
-- names it.
pub validate_channel-Matches :
    (channel : Bytes)
    → ((validate_channel channel ≡ none) ↔ Matches channel_pattern channel)
      × ((validate_channel channel ≡ some (invalid_channel channel))
          ↔ (¬ Matches channel_pattern channel))
unfolding validate_channel
validate_channel-Matches channel = elim (Bool-cases (match_channel channel)) [
  | inl e ↦ rw e (
    (λ _. match_channel-Matches channel e, λ _. refl),
    (λ h. cc, λ bad. absurd (bad (match_channel-Matches channel e))),
  )
  | inr e ↦ rw e (
    (λ h. cc, λ m. cc (Matches-match_channel channel m)),
    (λ _ m. cc (Matches-match_channel channel m), λ _. refl),
  )
]
