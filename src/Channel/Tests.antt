-- ===== src/Channel/Tests.antt =====
-- Channel names accepted and refused.
use atomic_queue.Prelude.{◌≡◌, refl, ◌↔◌, none, some, [], ◌∷◌}
use atomic_queue.Fault.{Bytes, invalid_channel}
use atomic_queue.Channel.{validate_channel}
use atomic_queue.Channel.Pattern.{Matches, channel_pattern, validate_channel-Matches}

abbrev good : Bytes
good = b'j' ∷ b'o' ∷ b'b' ∷ b's' ∷ b'.' ∷ b'1' ∷ []

good_accepted : validate_channel good ≡ none
unfolding validate_channel
good_accepted = refl

dot_first : validate_channel (b'.' ∷ []) ≡ some (invalid_channel (b'.' ∷ []))
unfolding validate_channel
dot_first = refl

validate_channel-Matches_example :
    ((validate_channel good ≡ none) ↔ Matches channel_pattern good)
    × ((validate_channel good ≡ some (invalid_channel good)) ↔ (¬ Matches channel_pattern good))
validate_channel-Matches_example = validate_channel-Matches good
