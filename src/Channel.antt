-- ===== src/Channel.antt =====
-- main.go: the channel names and payloads that the daemon and the clients accept.
pub mod Pattern
mod Tests
use atomic_queue.Prelude.{
  ℕ, Bool, true, false, Option, none, some, List, [], ◌∷◌, ◌&&◌, ◌||◌, length, leb, ◌==◌,
  if◌then◌else◌,
}
use atomic_queue.Fault.{Bytes, Error, invalid_channel, payload_too_large}

abbrev pub in_range : ℕ → ℕ → ℕ → Bool
in_range lo hi c = leb lo c && leb c hi

-- `[A-Za-z0-9]`
unfoldable pub is_head : ℕ → Bool
is_head c = in_range b'A' b'Z' c || in_range b'a' b'z' c || in_range b'0' b'9' c

-- `[A-Za-z0-9._-]`
unfoldable pub is_tail : ℕ → Bool
unfolding is_head
is_tail c = is_head c || c == b'.' || c == b'_' || c == b'-'

unfoldable pub all_tail : Bytes → Bool
unfolding is_tail
all_tail [] = true
all_tail (c ∷ cs) = is_tail c && all_tail cs

-- `channelPattern.MatchString(channel)` for `^[A-Za-z0-9][A-Za-z0-9._-]{0,127}$`
unfoldable pub match_channel : Bytes → Bool
unfolding is_head all_tail
match_channel [] = false
match_channel (c ∷ cs) = is_head c && leb (length cs) 127 && all_tail cs

-- An `error` that may be nil.
unfoldable pub validate_channel : Bytes → Option Error
unfolding match_channel
validate_channel channel = if match_channel channel then none else some (invalid_channel channel)

unfoldable pub validate_payload : Bytes → ℕ → Option Error
validate_payload payload max =
    if leb (length payload) max then none else some (payload_too_large max)
