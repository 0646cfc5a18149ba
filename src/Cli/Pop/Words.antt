-- ===== src/Cli/Pop/Words.antt =====
-- main.go: parsePopArgs on command lines that are written out from options and channels.
use Prim.Native.String.{String}
use atomic_queue.Prelude.{
  ℕ, ◌≡◌, refl, ◌∙◌, false, Option, none, some, List, [], ◌∷◌, ◌++◌, All, bytes_eq, append_assoc,
  append-nil,
}
use atomic_queue.Prelude.Int.{ℤ, pos}
use atomic_queue.Fault.{Bytes}
use atomic_queue.Fault.Text.{codes}
use atomic_queue.Cli.Number.{accept, cut_prefix, trim_option}
use atomic_queue.Cli.Pop.{
  value_next, value_is, other, socket_arg, timeout_arg, socket_loop, parse_args, timeout_loop,
  check_timeout, parse_timeouts, parse_pop_args,
}

pub data PopItem : Type 0 where
  socket_item : (value : Bytes) → PopItem
  socket_equals : (value : Bytes) → PopItem
  timeout_item : (text : Bytes) (timeout : ℤ) → PopItem
  timeout_equals : (text : Bytes) (timeout : ℤ) → PopItem
  channel_item : (channel : Bytes) → PopItem

abbrev pub pop_words : List PopItem → List Bytes
pop_words [] = []
pop_words (socket_item value ∷ items) = codes "--socket" ∷ value ∷ pop_words items
pop_words (socket_equals value ∷ items) = (codes "--socket=" ++ value) ∷ pop_words items
pop_words (timeout_item text timeout ∷ items) = codes "--timeout" ∷ text ∷ pop_words items
pop_words (timeout_equals text timeout ∷ items) = (codes "--timeout=" ++ text) ∷ pop_words items
pop_words (channel_item channel ∷ items) = channel ∷ pop_words items

-- The words without those of the sockets.
abbrev kept_words : List PopItem → List Bytes
kept_words [] = []
kept_words (socket_item value ∷ items) = kept_words items
kept_words (socket_equals value ∷ items) = kept_words items
kept_words (timeout_item text timeout ∷ items) = codes "--timeout" ∷ text ∷ kept_words items
kept_words (timeout_equals text timeout ∷ items) = (codes "--timeout=" ++ text) ∷ kept_words items
kept_words (channel_item channel ∷ items) = channel ∷ kept_words items

-- An argument that is not the option, in either form.
abbrev pub IsFree : String → Bytes → Type 0
IsFree name arg = (bytes_eq arg (codes name) ≡ false) × (trim_option arg name ≡ none)

-- A text that is a duration and no socket option; a channel that is no option.
abbrev pub IsClear : (Bytes → Option ℤ) → PopItem → Type 0
IsClear parse_duration (timeout_item text timeout) =
    IsFree "--socket" text × (parse_duration text ≡ some timeout)
IsClear parse_duration (timeout_equals text timeout) = parse_duration text ≡ some timeout
IsClear parse_duration (channel_item channel) =
    IsFree "--socket" channel × IsFree "--timeout" channel
IsClear parse_duration _ = Unit {0}

abbrev pub last_socket_item : Bytes → List PopItem → Bytes
last_socket_item socket [] = socket
last_socket_item socket (socket_item value ∷ items) = last_socket_item value items
last_socket_item socket (socket_equals value ∷ items) = last_socket_item value items
last_socket_item socket (_ ∷ items) = last_socket_item socket items

abbrev pub last_timeout : ℤ → List PopItem → ℤ
last_timeout timeout [] = timeout
last_timeout timeout (timeout_item text d ∷ items) = last_timeout d items
last_timeout timeout (timeout_equals text d ∷ items) = last_timeout d items
last_timeout timeout (_ ∷ items) = last_timeout timeout items

abbrev pub item_channels : List PopItem → List Bytes
item_channels [] = []
item_channels (channel_item channel ∷ items) = channel ∷ item_channels items
item_channels (_ ∷ items) = item_channels items

socket_arg-next : socket_arg (codes "--socket") ≡ value_next
unfolding socket_arg bytes_eq
socket_arg-next = refl

socket_arg-is : (value : Bytes) → socket_arg (codes "--socket=" ++ value) ≡ value_is value
unfolding socket_arg trim_option cut_prefix bytes_eq
socket_arg-is value = refl

socket_arg-timeout : socket_arg (codes "--timeout") ≡ other
unfolding socket_arg trim_option cut_prefix bytes_eq
socket_arg-timeout = refl

socket_arg-timeout_is : (text : Bytes) → socket_arg (codes "--timeout=" ++ text) ≡ other
unfolding socket_arg trim_option cut_prefix bytes_eq
socket_arg-timeout_is text = refl

socket_arg-free : (arg : Bytes) → IsFree "--socket" arg → socket_arg arg ≡ other
unfolding socket_arg
socket_arg-free arg h = rw (h.0, h.1) refl

timeout_arg-next : timeout_arg (codes "--timeout") ≡ value_next
unfolding timeout_arg bytes_eq
timeout_arg-next = refl

timeout_arg-is : (text : Bytes) → timeout_arg (codes "--timeout=" ++ text) ≡ value_is text
unfolding timeout_arg trim_option cut_prefix bytes_eq
timeout_arg-is text = refl

timeout_arg-free : (arg : Bytes) → IsFree "--timeout" arg → timeout_arg arg ≡ other
unfolding timeout_arg
timeout_arg-free arg h = rw (h.0, h.1) refl

keep :
    (s arg : Bytes) (kept rest : List Bytes)
    → socket_arg arg ≡ other
    → socket_loop false s kept (arg ∷ rest) ≡ socket_loop false s (kept ++ arg ∷ []) rest
unfolding socket_loop
keep s arg kept rest h = rw (socket_loop, h) refl

module _ (parse_duration : Bytes → Option ℤ) where
  socket_loop-words :
      (s : Bytes) (kept : List Bytes) (items : List PopItem)
      → All (IsClear parse_duration) items
      → socket_loop false s kept (pop_words items)
        ≡ accept (last_socket_item s items, kept ++ kept_words items)
  unfolding socket_loop
  socket_loop-words s kept [] h = rw append-nil refl
  socket_loop-words s kept (socket_item value ∷ items) h =
      rw (socket_loop, socket_arg-next) (socket_loop-words value kept items h.1)
  socket_loop-words s kept (socket_equals value ∷ items) h =
      rw (socket_loop, socket_arg-is value) (socket_loop-words value kept items h.1)
  socket_loop-words s kept (timeout_item text d ∷ items) h =
      keep s (codes "--timeout") kept (text ∷ pop_words items) socket_arg-timeout
      ∙ keep s text (kept ++ codes "--timeout" ∷ []) _ (socket_arg-free text h.0.0)
      ∙ socket_loop-words s ((kept ++ codes "--timeout" ∷ []) ++ text ∷ []) items h.1
      ∙ rw (append_assoc, append_assoc) refl
  socket_loop-words s kept (timeout_equals text d ∷ items) h =
      keep s _ kept _ (socket_arg-timeout_is text)
      ∙ socket_loop-words s (kept ++ (codes "--timeout=" ++ text) ∷ []) items h.1
      ∙ rw append_assoc refl
  socket_loop-words s kept (channel_item c ∷ items) h =
      keep s c kept _ (socket_arg-free c h.0.0)
      ∙ socket_loop-words s (kept ++ c ∷ []) items h.1
      ∙ rw append_assoc refl

  timeout_loop-words :
      (d : ℤ) (kept : List Bytes) (items : List PopItem)
      → All (IsClear parse_duration) items
      → timeout_loop parse_duration false d kept (kept_words items)
        ≡ accept (last_timeout d items, kept ++ item_channels items)
  unfolding timeout_loop
  timeout_loop-words d kept [] h = rw append-nil refl
  timeout_loop-words d kept (socket_item value ∷ items) h = timeout_loop-words d kept items h.1
  timeout_loop-words d kept (socket_equals value ∷ items) h = timeout_loop-words d kept items h.1
  timeout_loop-words d kept (timeout_item text e ∷ items) h =
      rw (timeout_loop, timeout_arg-next, h.0.1) (timeout_loop-words e kept items h.1)
  timeout_loop-words d kept (timeout_equals text e ∷ items) h =
      rw (timeout_loop, timeout_arg-is text, h.0) (timeout_loop-words e kept items h.1)
  timeout_loop-words d kept (channel_item c ∷ items) h =
      rw (timeout_loop, timeout_arg-free c h.0.1)
        (timeout_loop-words d (kept ++ c ∷ []) items h.1 ∙ rw append_assoc refl)

  -- On a command line of `pop` that is written out from sockets, durations and channels, where no
  -- channel is an option and no duration a socket option: when the last duration, or else 0, is
  -- not negative, the line is accepted with the socket that stands last or else the default, the
  -- channels in their order, and that duration.
  pub parse_pop_args-words :
      (default_socket : Bytes) (items : List PopItem) (n : ℕ)
      → All (IsClear parse_duration) items
      → last_timeout (pos 0) items ≡ pos n
      → parse_pop_args parse_duration default_socket (pop_words items)
        ≡ accept (record {
          socket = last_socket_item default_socket items;
          positionals = item_channels items;
          timeout = pos n;
        })
  unfolding parse_pop_args parse_args parse_timeouts check_timeout
  parse_pop_args-words default_socket items n h last =
      rw (socket_loop-words default_socket [] items h, timeout_loop-words (pos 0) [] items h, last)
        refl
