-- ===== src/Watcher/Owned.antt =====
-- conn_watcher.go: whose cancel functions the map holds.
use atomic_queue.Prelude.{
  ℕ, ◌≡◌, ◌≢◌, refl, sym, ◌∙◌, ap, subst, ◌⊎◌, inl, inr, Bool, true, false, not, ◌&&◌, Bool-cases,
  Option, none, some, Option-cases, List, get_elem?, set, get_elem?-set, kept_by_set, written, ◌==◌,
  arith,
}
use atomic_queue.Watcher.{
  Watcher, ConnPhase, starting, adding, refused, serving, leaving, removing, closing, closed, Conn,
  Watch,
}

-- From the registration until its cancel function is taken out of the map.
abbrev pub is_watched : ConnPhase → Bool
is_watched adding = true
is_watched refused = true
is_watched (serving watched) = watched
is_watched leaving = true
is_watched removing = true
is_watched _ = false

abbrev pub is_open : ConnPhase → Bool
is_open closed = false
is_open starting = true
is_open adding = true
is_open refused = true
is_open (serving watched) = true
is_open leaving = true
is_open removing = true
is_open closing = true

-- The connection of that number has that descriptor, is registered, and is not cancelled.
abbrev pub IsWatching : Watch → ℕ → ℕ → Type 0
IsWatching s fd id =
    (c : Conn) × (get_elem? s.conns id ≡ some c)
    × (c.fd ≡ fd)
    × (is_watched c.phase ≡ true)
    × (c.cancelled ≡ false)

pub record WatchOk (s : Watch) : Type 0 where
  pub owned : (fd id : ℕ) → s.watcher.cancels fd ≡ some id → IsWatching s fd id
  pub complete :
      (i : ℕ) (c : Conn)
      → get_elem? s.conns i ≡ some c
      → is_watched c.phase ≡ true
      → c.cancelled ≡ false
      → s.watcher.cancels c.fd ≡ some i
  pub apart :
      (i j : ℕ) (c d : Conn)
      → get_elem? s.conns i ≡ some c
      → get_elem? s.conns j ≡ some d
      → is_open c.phase ≡ true
      → is_open d.phase ≡ true
      → c.fd ≡ d.fd
      → i ≡ j
  pub early :
      (i : ℕ) (c : Conn) → get_elem? s.conns i ≡ some c → c.phase ≡ starting → c.cancelled ≡ false

pub watched-open : (phase : ConnPhase) → is_watched phase ≡ true → is_open phase ≡ true
watched-open starting h = refl
watched-open adding h = refl
watched-open refused h = refl
watched-open (serving w) h = refl
watched-open leaving h = refl
watched-open removing h = refl
watched-open closing h = refl
watched-open closed h = cc

abbrev pub own : ℕ → Bool → Option ℕ
own i true = some i
own i false = none

pub own-some : (i id : ℕ) (b : Bool) → own i b ≡ some id → (b ≡ true) × (i ≡ id)
own-some i id true h = (refl, cc)
own-some i id false h = cc

and-true : (a b : Bool) → (a && not b) ≡ true → (a ≡ true) × (b ≡ false)
and-true true true h = cc
and-true true false h = (refl, refl)
and-true false b h = cc

pub same-conn :
    {A : Type 0} (xs : List A) (i j : ℕ) (c d : A)
    → i ≡ j
    → get_elem? xs i ≡ some c
    → get_elem? xs j ≡ some d
    → c ≡ d
same-conn xs i j c d e h k = cc

-- What the map says of the descriptor of an open connection.
pub current :
    (s : Watch) (i : ℕ) (c : Conn)
    → WatchOk s
    → get_elem? s.conns i ≡ some c
    → is_open c.phase ≡ true
    → s.watcher.cancels c.fd ≡ own i (is_watched c.phase && not c.cancelled)
current s i c k at up = elim (Bool-cases (is_watched c.phase && not c.cancelled)) [
  | inl e ↦ let (watched, live) = and-true _ _ e in rw e (k.complete i c at watched live)
  | inr e ↦ rw e (elim (Option-cases (s.watcher.cancels c.fd)) [
    | inl nobody ↦ nobody
    | inr (id, who) ↦
        let (d, there, fd, watched, live) = k.owned c.fd id who in
        let i_is : id ≡ i = k.apart id i d c there at (watched-open d.phase watched) up fd in
        let d_is : d ≡ c = same-conn s.conns id i d c i_is there at in absurd (cc)
  ])
]

pub eq-or-ne : (a b : ℕ) → (a ≡ b) ⊎ (a ≢ b)
eq-or-ne a b = elim (Bool-cases (a == b)) [
  | inl e ↦ inl (ground arith)
  | inr e ↦ inr (λ p. ground arith)
]

-- A write to one open connection, with what the map then says of its descriptor.
module _ (s : Watch) (i : ℕ) (c c' : Conn) (w : Watcher) (k : WatchOk s)
    (at : get_elem? s.conns i ≡ some c) (up : is_open c.phase ≡ true) (fd : c'.fd ≡ c.fd)
    (flag : c'.cancelled ≡ c.cancelled) (begins : c'.phase ≡ starting → c.phase ≡ starting)
    (others : (q : ℕ) → c.fd ≢ q → w.cancels q ≡ s.watcher.cancels q)
    (mine : w.cancels c.fd ≡ own i (is_watched c'.phase && not c.cancelled)) where
  abbrev pub next : Watch
  next = record s { watcher = w; conns = set s.conns i c' }

  write-owned : (q id : ℕ) → w.cancels q ≡ some id → IsWatching next q id
  write-owned q id h = elim (eq-or-ne c.fd q) [
    | inl here ↦
        let (b, i_is) = own-some i id _ (sym mine ∙ rw (sym here) at h) in
        let (watched, live) = and-true _ _ b in
        (
          c',
          subst (λ j. get_elem? (set s.conns i c') j ≡ some c') i_is (written s.conns i c' c at),
          fd ∙ here,
          watched,
          flag ∙ live,
        )
    | inr elsewhere ↦
        let (d, there, d_fd, watched, live) = k.owned q id (sym (others q elsewhere) ∙ h) in
        (
          d,
          kept_by_set s.conns i c' id d
              (λ e.
                elsewhere (ap (λ (x : Conn). x.fd) (same-conn s.conns i id c d e at there) ∙ d_fd))
              there,
          d_fd,
          watched,
          live,
        )
  ]

  write_complete :
      (j : ℕ) (d : Conn)
      → get_elem? (set s.conns i c') j ≡ some d
      → is_watched d.phase ≡ true
      → d.cancelled ≡ false
      → w.cancels d.fd ≡ some j
  write_complete j d h watched live = elim (get_elem?-set s.conns i c' j d h) [
    | inl (e, same) ↦
        let c_live : c.cancelled ≡ false =
          sym flag ∙ ap (λ (x : Conn). x.cancelled) (sym same) ∙ live in
        let c_watched : is_watched c'.phase ≡ true = rw same at watched in
        let d_fd : d.fd ≡ c.fd = ap (λ (x : Conn). x.fd) same ∙ fd in
        rw d_fd (mine ∙ rw (c_watched, c_live, e) refl)
    | inr (ne, there) ↦
        others d.fd (λ e. ne (k.apart i j c d at there up (watched-open d.phase watched) e))
        ∙ k.complete j d there watched live
  ]

  write-apart :
      (j l : ℕ) (d e : Conn)
      → get_elem? (set s.conns i c') j ≡ some d
      → get_elem? (set s.conns i c') l ≡ some e
      → is_open d.phase ≡ true
      → is_open e.phase ≡ true
      → d.fd ≡ e.fd
      → j ≡ l
  write-apart j l d e hd he d_up e_up same_fd = elim (get_elem?-set s.conns i c' j d hd) [
    | inl (i_j, d_is) ↦ elim (get_elem?-set s.conns i c' l e he) [
      | inl (i_l, e_is) ↦ sym i_j ∙ i_l
      | inr (ne, there) ↦
          sym i_j
          ∙ k.apart i l c e at there up e_up (sym fd ∙ ap (λ (x : Conn). x.fd) (sym d_is) ∙ same_fd)
    ]
    | inr (ne, there) ↦ elim (get_elem?-set s.conns i c' l e he) [
      | inl (i_l, e_is) ↦
          k.apart j i d c there at d_up up (same_fd ∙ ap (λ (x : Conn). x.fd) e_is ∙ fd) ∙ i_l
      | inr (ne', there') ↦ k.apart j l d e there there' d_up e_up same_fd
    ]
  ]

  write-early :
      (j : ℕ) (d : Conn)
      → get_elem? (set s.conns i c') j ≡ some d
      → d.phase ≡ starting
      → d.cancelled ≡ false
  write-early j d h first = elim (get_elem?-set s.conns i c' j d h) [
    | inl (e, same) ↦
        ap (λ (x : Conn). x.cancelled) same
        ∙ flag
        ∙ k.early i c at (begins (ap (λ (x : Conn). x.phase) (sym same) ∙ first))
    | inr (ne, there) ↦ k.early j d there first
  ]

  pub write-WatchOk : WatchOk next
  write-WatchOk = record {
    owned = write-owned;
    complete = write_complete;
    apart = write-apart;
    early = write-early;
  }
