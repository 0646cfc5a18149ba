-- ===== src/Watcher/Held.antt =====
-- conn_watcher.go: the connections as they are once `run` has called the cancel function that it has
-- taken out of the map.
use mathlib.Core.Option.{some-injective}
use atomic_queue.Prelude.{
  ℕ, zero, suc, ◌≡◌, refl, subst, sym, ap, ◌∙◌, ◌↔◌, ◌≢◌, Bool, true, false, Option, none, some,
  List, [], ◌∷◌, ◌++◌, get_elem?, set, written, kept_by_snoc, kept_by_set, inl, inr,
}
use atomic_queue.Watcher.{
  Watcher, ConnPhase, starting, Conn, Watch, cancel_conn, IsFree, take_event,
}
use atomic_queue.Watcher.Table.{cancel_conn-get_elem, kept_by_cancel}
use atomic_queue.Watcher.Owned.{IsWatching, WatchOk, eq-or-ne}
use atomic_queue.Watcher.Moves.{accept-WatchOk}
use atomic_queue.Watcher.Events.{dispatch-WatchOk}

abbrev pub settled : Watch → Watch
settled s = record s { conns = cancel_conn s.held s.conns }

abbrev pub mark : Bool → Conn → Conn
mark b c = record c { cancelled = b }

abbrev pub in_state : Conn → ConnPhase → Bool → Conn
in_state c phase hung = record c { phase = phase; hung = hung }

-- A connection keeps its place, its descriptor and its phase, and may be cancelled.
pub cancel_conn-set :
    (held : Option ℕ) (conns : List Conn) (i : ℕ) (c : Conn)
    → get_elem? conns i ≡ some c
    → (b : Bool) × (get_elem? (cancel_conn held conns) i ≡ some (mark b c))
      × ((phase : ConnPhase) (hung : Bool)
          → cancel_conn held (set conns i (in_state c phase hung))
            ≡ set (cancel_conn held conns) i (in_state (mark b c) phase hung))
unfolding cancel_conn
cancel_conn-set none conns i c at = (c.cancelled, at, λ phase hung. refl)
cancel_conn-set (some id) [] i c at = cc
cancel_conn-set (some zero) (d ∷ conns) zero c at = (true, cc, λ phase hung. refl)
cancel_conn-set (some zero) (d ∷ conns) (suc i) c at = (c.cancelled, at, λ phase hung. refl)
cancel_conn-set (some (suc id)) (d ∷ conns) zero c at = (c.cancelled, at, λ phase hung. refl)
cancel_conn-set (some (suc id)) (d ∷ conns) (suc i) c at =
    let (b, there, sets) = cancel_conn-set (some id) conns i c at in
    (b, there, λ phase hung. ap (◌∷◌ d) (sets phase hung))

cancel_conn-snoc :
    (held : Option ℕ) (conns : List Conn) (c : Conn)
    → ((id : ℕ) → held ≡ some id → (d : Conn) × (get_elem? conns id ≡ some d))
    → cancel_conn held (conns ++ c ∷ []) ≡ cancel_conn held conns ++ c ∷ []
unfolding cancel_conn
cancel_conn-snoc none conns c place = refl
cancel_conn-snoc (some id) [] c place = let (d, e) = place id refl in absurd (cc)
cancel_conn-snoc (some zero) (d ∷ conns) c place = refl
cancel_conn-snoc (some (suc id)) (d ∷ conns) c place =
    ap (◌∷◌ d) (cancel_conn-snoc (some id) conns c (λ j e. place (suc j) (cc e)))

cancel_conn-IsFree :
    (held : Option ℕ) (conns : List Conn) (fd : ℕ)
    → IsFree fd conns
    → IsFree fd (cancel_conn held conns)
unfolding cancel_conn
cancel_conn-IsFree none conns fd free = free
cancel_conn-IsFree (some id) [] fd free = tt
cancel_conn-IsFree (some zero) (d ∷ conns) fd free = free
cancel_conn-IsFree (some (suc id)) (d ∷ conns) fd free =
    (free.0, cancel_conn-IsFree (some id) conns fd free.1)

pub record HeldOk (s : Watch) : Type 0 where
  pub ok : WatchOk (settled s)
  pub place : (id : ℕ) → s.held ≡ some id → (c : Conn) × (get_elem? s.conns id ≡ some c)

place_after_set :
    (conns : List Conn) (i id : ℕ) (x c : Conn)
    → get_elem? conns id ≡ some c
    → (d : Conn) × (get_elem? (set conns i x) id ≡ some d)
place_after_set conns i id x c at = elim (eq-or-ne i id) [
  | inl e ↦ (x, subst (λ j. get_elem? (set conns i x) j ≡ some x) e (written conns i x c (rw e at)))
  | inr ne ↦ (c, kept_by_set conns i x id c ne at)
]

module _ (s : Watch) (i : ℕ) (c : Conn) (k : HeldOk s) (at : get_elem? s.conns i ≡ some c) where
  pub moved :
      (phase : ConnPhase) (hung : Bool) (w : Watcher)
      → ((b : Bool)
          → get_elem? (settled s).conns i ≡ some (mark b c)
          → WatchOk (record (settled s) {
            watcher = w;
            conns = set (settled s).conns i (in_state (mark b c) phase hung);
          }))
      → HeldOk (record s { watcher = w; conns = set s.conns i (in_state c phase hung) })
  moved phase hung w go =
      let (b, there, sets) = cancel_conn-set s.held s.conns i c at in
      record {
        ok =
            subst (λ xs. WatchOk (record (settled s) { watcher = w; conns = xs }))
              (sym (sets phase hung)) (go b there);
        place = λ id e.
            let (d, d_at) = k.place id e in
            place_after_set s.conns i id (in_state c phase hung) d d_at;
      }

pub accept-HeldOk :
    (s : Watch) (fd : ℕ)
    → HeldOk s
    → IsFree fd s.conns
    → HeldOk (record s {
      conns = s.conns ++ record { fd = fd; phase = starting; hung = false; cancelled = false } ∷ [];
    })
accept-HeldOk s fd k free = record {
  ok =
      subst (λ xs. WatchOk (record (settled s) { conns = xs }))
        (sym (cancel_conn-snoc s.held s.conns _ k.place))
        (accept-WatchOk (settled s) fd k.ok (cancel_conn-IsFree s.held s.conns fd free));
  place = λ id e. let (d, at) = k.place id e in (d, kept_by_snoc s.conns _ id d at);
}

pub look-HeldOk :
    (s : Watch) (fd : ℕ) (rest : List ℕ)
    → s.held ≡ none
    → HeldOk s
    → HeldOk (record s {
      watcher = (take_event s.watcher fd).1;
      held = (take_event s.watcher fd).0;
      pending = rest;
    })
unfolding take_event cancel_conn
look-HeldOk s fd rest e k =
    let same : settled s ≡ s = ap (λ h. record s { conns = cancel_conn h s.conns }) e in
    let ok : WatchOk s = subst WatchOk same k.ok in
    record {
      ok = dispatch-WatchOk s fd rest (take_event s.watcher fd).0 ok;
      place = λ id taken. let (c, at, c_fd, watched, live) = ok.owned fd id taken in (c, at);
    }

pub call_cancel-HeldOk :
    (s : Watch) (id : ℕ)
    → s.held ≡ some id
    → HeldOk s
    → HeldOk (record s { conns = cancel_conn (some id) s.conns; held = none })
unfolding cancel_conn
call_cancel-HeldOk s id e k =
    let ok : WatchOk (record s { conns = cancel_conn (some id) s.conns; held = some id }) =
      rw e at k.ok in
    record {
      ok = record { owned = ok.owned; complete = ok.complete; apart = ok.apart; early = ok.early };
      place = λ j none_held. cc;
    }

-- In the table as it will be, a connection is watching exactly if it is watching now and is not the
-- one to be cancelled.
pub settled-IsWatching :
    (held : Option ℕ) (s : Watch) (fd id : ℕ)
    → IsWatching (record s { conns = cancel_conn held s.conns }) fd id
      ↔ (IsWatching s fd id × (held ≢ some id))
unfolding cancel_conn
settled-IsWatching none s fd id = ((λ w. (w, λ p. cc)), λ w. w.0)
settled-IsWatching (some j) s fd id = (
  (λ w.
      let (c, at, c_fd, watched, live) = w in
      let (d, there, fds, phases, hung, flag) = cancel_conn-get_elem j s.conns id c at in
      elim flag [
        | inl (same, is) ↦ absurd (cc (is, live))
        | inr (ne, is) ↦
            ((c, there ∙ ap some (sym is), c_fd, watched, live), λ p. ne (some-injective _ _ p))
      ]),
  λ w.
      let (c, at, c_fd, watched, live) = w.0 in
      (c, kept_by_cancel j s.conns id c (λ p. w.1 (ap some p)) at, c_fd, watched, live),
)
