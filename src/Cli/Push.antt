-- ===== src/Cli/Push.antt =====
-- main.go: parsePushArgs.
use atomic_queue.Prelude.{
  ◌≡◌, refl, ◌∙◌, Bool, true, false, none, some, List, [], ◌∷◌, ◌++◌, All, bytes_eq, append_assoc,
  append-nil, if◌then◌else◌,
}
use atomic_queue.Fault.{Bytes}
use atomic_queue.Fault.Text.{codes}
use atomic_queue.Cli.Number.{Parse, accept, reject, missing_value, cut_prefix, trim_option}

pub record PushArgs : Type 0 where
  pub socket : Bytes
  pub positionals : List Bytes
  pub read_stdin : Bool

-- The cases of the `switch`, in their order: `value` is what stands behind `--socket=`.
pub data PushArg : Type 0 where
  socket_next : PushArg
  stdin_flag : PushArg
  socket_is : (value : Bytes) → PushArg
  word : Bytes → PushArg

unfoldable pub push_arg : Bytes → PushArg
push_arg arg =
    if bytes_eq arg (codes "--socket")
    then socket_next
    else if bytes_eq arg (codes "--stdin")
    then stdin_flag
    else elim (trim_option arg "--socket") [ some value ↦ socket_is value | none ↦ word arg ]

-- The loop over the arguments. `at_value` says that the argument before is `--socket`, whose round
-- takes this one as well, by `args[i+1]` and `i++`.
unfoldable pub push_args : (at_value : Bool) → PushArgs → List Bytes → Parse PushArgs
unfolding push_arg
push_args true a [] = reject (missing_value "--socket")
push_args true a (value ∷ rest) = push_args false (record a { socket = value }) rest
push_args false a [] = accept a
push_args false a (arg ∷ rest) = elim (push_arg arg) [
  | socket_next ↦ push_args true a rest
  | stdin_flag ↦ push_args false (record a { read_stdin = true }) rest
  | socket_is value ↦ push_args false (record a { socket = value }) rest
  | word w ↦ push_args false (record a { positionals = a.positionals ++ w ∷ [] }) rest
]

unfoldable pub parse_push_args : (default_socket : Bytes) → List Bytes → Parse PushArgs
unfolding push_args
parse_push_args default_socket args =
    push_args false (record { socket = default_socket; positionals = []; read_stdin = false }) args

-- A command line written out: an option and its value, or an argument, for each item.
pub data PushItem : Type 0 where
  socket_item : (value : Bytes) → PushItem
  socket_equals : (value : Bytes) → PushItem
  stdin_item : PushItem
  plain : Bytes → PushItem

abbrev pub push_words : List PushItem → List Bytes
push_words [] = []
push_words (socket_item value ∷ items) = codes "--socket" ∷ value ∷ push_words items
push_words (socket_equals value ∷ items) = (codes "--socket=" ++ value) ∷ push_words items
push_words (stdin_item ∷ items) = codes "--stdin" ∷ push_words items
push_words (plain arg ∷ items) = arg ∷ push_words items

-- An argument that is no option.
abbrev pub IsPlain : PushItem → Type 0
IsPlain (plain arg) =
    (bytes_eq arg (codes "--socket") ≡ false)
    × (bytes_eq arg (codes "--stdin") ≡ false)
    × (trim_option arg "--socket" ≡ none)
IsPlain _ = Unit {0}

-- What the items say: the last socket, the arguments in their order, and whether `--stdin` stands
-- among them.
abbrev pub last_socket : Bytes → List PushItem → Bytes
last_socket socket [] = socket
last_socket socket (socket_item value ∷ items) = last_socket value items
last_socket socket (socket_equals value ∷ items) = last_socket value items
last_socket socket (_ ∷ items) = last_socket socket items

abbrev pub plain_args : List PushItem → List Bytes
plain_args [] = []
plain_args (plain arg ∷ items) = arg ∷ plain_args items
plain_args (_ ∷ items) = plain_args items

abbrev pub has_stdin : Bool → List PushItem → Bool
has_stdin flag [] = flag
has_stdin flag (stdin_item ∷ items) = has_stdin true items
has_stdin flag (_ ∷ items) = has_stdin flag items

abbrev meaning : PushArgs → List PushItem → PushArgs
meaning a items = record {
  socket = last_socket a.socket items;
  positionals = a.positionals ++ plain_args items;
  read_stdin = has_stdin a.read_stdin items;
}

push_arg-next : push_arg (codes "--socket") ≡ socket_next
unfolding push_arg bytes_eq
push_arg-next = refl

push_arg-stdin : push_arg (codes "--stdin") ≡ stdin_flag
unfolding push_arg bytes_eq
push_arg-stdin = refl

push_arg-equals : (value : Bytes) → push_arg (codes "--socket=" ++ value) ≡ socket_is value
unfolding push_arg trim_option cut_prefix bytes_eq
push_arg-equals value = refl

push_arg-plain : (arg : Bytes) → IsPlain (plain arg) → push_arg arg ≡ word arg
unfolding push_arg
push_arg-plain arg h = rw (h.0, h.1, h.2) refl

push_args-words :
    (a : PushArgs) (items : List PushItem)
    → All IsPlain items
    → push_args false a (push_words items) ≡ accept (meaning a items)
unfolding push_args
push_args-words a [] h = rw append-nil refl
push_args-words a (socket_item value ∷ items) h =
    rw (push_args, push_arg-next) (push_args-words (record a { socket = value }) items h.1)
push_args-words a (socket_equals value ∷ items) h =
    rw (push_args, push_arg-equals value) (push_args-words (record a { socket = value }) items h.1)
push_args-words a (stdin_item ∷ items) h =
    rw (push_args, push_arg-stdin) (push_args-words (record a { read_stdin = true }) items h.1)
push_args-words a (plain arg ∷ items) h =
    rw (push_args, push_arg-plain arg h.0)
      (push_args-words (record a { positionals = a.positionals ++ arg ∷ [] }) items h.1
        ∙ rw append_assoc refl)

-- On a command line of `push` that is written out from items, with arguments that are no options:
-- it is accepted, with the socket that stands last or else the default, with the arguments in
-- their order, and with the payload from stdin exactly if `--stdin` stands among them.
pub parse_push_args-words :
    (default_socket : Bytes) (items : List PushItem)
    → All IsPlain items
    → parse_push_args default_socket (push_words items)
      ≡ accept (record {
        socket = last_socket default_socket items;
        positionals = plain_args items;
        read_stdin = has_stdin false items;
      })
unfolding parse_push_args
parse_push_args-words default_socket items h = push_args-words _ items h
