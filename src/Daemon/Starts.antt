-- ===== src/Daemon/Starts.antt =====
-- main.go: what a start does to the socket path, alone and together with another start.
use atomic_queue.Prelude.{
  ℕ, ◌≡◌, ◌≢◌, refl, sym, ◌⊎◌, inl, inr, none, some, List, get_elem?, set, written, kept_by_set,
}
use atomic_queue.Daemon.{
  Entry, nothing, plain_file, socket, not_a_socket, already_running, Stage, checking, dialing,
  removing, listening, accepting, failed, after_stat, after_dial, after_remove, after_listen,
  remove_stale_socket, remove_or_stop, dial_or_stop, Site, stat, dial, remove, listen, SitePath,
  here, next,
}

-- Nothing at the path, or a socket on which nobody listens.
abbrev pub IsStale : Entry → Type 0
IsStale entry = (entry ≡ nothing) ⊎ (entry ≡ socket none)

-- The cases of `removeStaleSocket`.
pub data Cleans (entry : Entry) (r : Entry × Stage) : Type 0 where
  cleared : IsStale entry → r ≡ (nothing, listening) → Cleans entry r
  in_use :
      (id : ℕ) → entry ≡ socket (some id) → r ≡ (entry, failed already_running) → Cleans entry r
  foreign : entry ≡ plain_file → r ≡ (entry, failed not_a_socket) → Cleans entry r

-- A start that nobody interrupts goes on to listen, with nothing at the path, exactly if there was
-- nothing or a socket on which nobody listens. It leaves the socket of another daemon and a file
-- that is no socket as they are, and fails with an error that says which of the two it was.
pub remove_stale_socket-Cleans : (entry : Entry) → Cleans entry (remove_stale_socket entry)
unfolding remove_stale_socket dial_or_stop remove_or_stop after_stat after_dial after_remove
remove_stale_socket-Cleans nothing = cleared (inl refl) refl
remove_stale_socket-Cleans plain_file = foreign refl refl
remove_stale_socket-Cleans (socket none) = cleared (inr refl) refl
remove_stale_socket-Cleans (socket (some id)) = in_use id refl refl

-- The stages of two processes.
abbrev Both : List Stage → ℕ → ℕ → Stage → Stage → Type 0
Both stages i j a b = (get_elem? stages i ≡ some a) × (get_elem? stages j ≡ some b)

module _ (i j : ℕ) (apart : i ≢ j) where
  first-moves :
      (stages : List Stage) (a b c : Stage) → Both stages i j a b → Both (set stages i c) i j c b
  first-moves stages a b c (one, two) =
      (written stages i c a one, kept_by_set stages i c j b apart two)

  second-moves :
      (stages : List Stage) (a b c : Stage) → Both stages i j a b → Both (set stages j c) i j a c
  second-moves stages a b c (one, two) =
      (kept_by_set stages j c i a (λ e. apart (sym e)) one, written stages j c b two)

  -- Two processes that start when a stale socket stands at the path, whatever other processes there
  -- are, can go on so that both end up accepting connections: the second has removed the socket of
  -- the first, and the path leads to the second alone.
  pub two_starts_race :
      (stages : List Stage)
      → get_elem? stages i ≡ some checking
      → get_elem? stages j ≡ some checking
      → (t : Site) × SitePath (record { entry = socket none; stages = stages }) t
        × (get_elem? t.stages i ≡ some accepting)
        × (get_elem? t.stages j ≡ some accepting)
        × (t.entry ≡ socket (some j))
  unfolding after_stat after_dial after_remove after_listen
  two_starts_race stages one two =
      let b₀ : Both stages i j checking checking = (one, two) in
      let b₁ = first-moves stages checking checking dialing b₀ in
      let b₂ = second-moves (set stages i dialing) dialing checking dialing b₁ in
      let s₂ = set (set stages i dialing) j dialing in
      let b₃ = first-moves s₂ dialing dialing removing b₂ in
      let s₃ = set s₂ i removing in
      let b₄ = second-moves s₃ removing dialing removing b₃ in
      let s₄ = set s₃ j removing in
      let b₅ = first-moves s₄ removing removing listening b₄ in
      let s₅ = set s₄ i listening in
      let b₆ = first-moves s₅ listening removing accepting b₅ in
      let s₆ = set s₅ i accepting in
      let b₇ = second-moves s₆ accepting removing listening b₆ in
      let s₇ = set s₆ j listening in
      let b₈ = second-moves s₇ accepting listening accepting b₇ in
      let probed =
        next (next (next (next here (stat i b₀.0)) (stat j b₁.1)) (dial i b₂.0)) (dial j b₃.1) in
      let first_up = next (next probed (remove i b₄.0)) (listen i b₅.0) in
      (
        record { entry = socket (some j); stages = set s₇ j accepting },
        next (next first_up (remove j b₆.1)) (listen j b₇.1),
        b₈.0,
        b₈.1,
        refl,
      )
