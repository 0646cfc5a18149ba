-- ===== src/Cli/Paths.antt =====
-- main.go: defaultSocketPath, socketSuggestion and suggestedSocketPath. The environment and
-- `filepath.Join` are parameters.
use Prim.Native.String.{String}
use atomic_queue.Prelude.{
  ℕ, ◌≡◌, ◌≢◌, Bool-cases, inl, inr, List, [], ◌∷◌, bytes_eq, bytes_eq_refl, if◌then◌else◌, sym,
  subst, true, false, ◌∙◌,
}
use atomic_queue.Fault.{Bytes}
use atomic_queue.Fault.Text.{Format, codes}

-- `os.Getenv`, which gives nothing for a variable that is not set, `os.Getuid` and `filepath.Join`.
pub record Place : Type 0 where
  pub getenv : String → Bytes
  pub uid : ℕ
  pub join : List Bytes → Bytes

-- `a`, or `b` if `a` is empty.
abbrev pub or_else : Bytes → Bytes → Bytes
or_else [] b = b
or_else (c ∷ cs) b = c ∷ cs

module _ (fmt : Format) (place : Place) where
  unfoldable pub default_socket_path : Bytes
  default_socket_path = or_else (place.getenv "ATOMIC_QUEUE_SOCKET") (
      place.join (
        codes "/run/user"
        ∷ fmt.decimal place.uid
        ∷ codes "atomic-queue"
        ∷ codes "atomic-queue.sock"
        ∷ []))

  -- Nothing is the empty text.
  abbrev hint_in : (runtime_dir current : Bytes) → Bytes
  hint_in [] current = []
  hint_in (c ∷ cs) current =
      let hint = place.join ((c ∷ cs) ∷ codes "atomic-queue" ∷ codes "atomic-queue.sock" ∷ []) in
      if bytes_eq hint current then [] else hint

  unfoldable pub socket_suggestion : Bytes → Bytes
  socket_suggestion current = hint_in (place.getenv "XDG_RUNTIME_DIR") current

  unfoldable pub suggested_socket_path : Bytes → Bytes
  unfolding socket_suggestion
  suggested_socket_path current = or_else (socket_suggestion current) current

unless_same :
    (hint current : Bytes) → current ≢ [] → (if bytes_eq hint current then [] else hint) ≢ current
unless_same hint current named h = elim (Bool-cases (bytes_eq hint current)) [
  | inl e ↦ let nothing : [] ≡ current = rw e at h in named (sym nothing)
  | inr e ↦
      let same : hint ≡ current = rw e at h in
      let apart : bytes_eq current current ≡ false =
        subst (λ x. bytes_eq x current ≡ false) same e in
      let clash : true ≡ false = sym (bytes_eq_refl current) ∙ apart in cc
]

-- A suggestion is never the path that has just failed.
pub socket_suggestion_differs :
    (fmt : Format) (place : Place) (current : Bytes)
    → current ≢ []
    → socket_suggestion fmt place current ≢ current
unfolding socket_suggestion
socket_suggestion_differs fmt place current named = go (place.getenv "XDG_RUNTIME_DIR")
  where
    go : (dir : Bytes) → hint_in fmt place dir current ≢ current
    go [] h = named (sym h)
    go (c ∷ cs) h = unless_same _ current named h
