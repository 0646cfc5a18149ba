-- ===== src/Watcher/Moves.antt =====
-- conn_watcher.go: the steps of a connection, and that they keep the map of cancel functions exact.
use atomic_queue.Prelude.{
  ℕ, ◌≡◌, ◌≢◌, refl, sym, ◌∙◌, ap, inl, inr, Bool, true, false, not, ◌&&◌, Option, none, some, [],
  ◌∷◌, ◌++◌, get_elem?, set, get_elem?-snoc, kept_by_snoc, All-get_elem, arith, if◌then◌else◌,
}
use atomic_queue.Watcher.{
  Watcher, update, put_cancel, delete_cancel, ConnPhase, starting, adding, refused, serving,
  leaving, removing, closing, closed, Conn, Watch, at_phase, move, IsFree,
}
use atomic_queue.Watcher.Owned.{is_watched, is_open, WatchOk, own, current, write-WatchOk}

pub update-here : {A : Type 0} (f : ℕ → A) (k : ℕ) (v : A) → update f k v k ≡ v
update-here f k v = ground arith

pub update-there : {A : Type 0} (f : ℕ → A) (k : ℕ) (v : A) (q : ℕ) → k ≢ q → update f k v q ≡ f q
update-there f k v q ne = ground arith

pub clash : {B : Type 0} (id : ℕ) → none ≡ some id → B
clash id h = cc

module _ (s : Watch) (i : ℕ) (c : Conn) (k : WatchOk s) (at : get_elem? s.conns i ≡ some c) where
  -- A move of an open connection that leaves the map alone.
  pub move-quiet :
      (phase : ConnPhase) (w : Watcher)
      → is_open c.phase ≡ true
      → is_watched phase ≡ is_watched c.phase
      → (phase ≡ starting → c.phase ≡ starting)
      → w.cancels ≡ s.watcher.cancels
      → WatchOk (move s i c phase w)
  move-quiet phase w up same begins cancels =
      write-WatchOk s i c (at_phase c phase) w k at up refl refl begins
        (λ q ne. ap (λ (f : ℕ → Option ℕ). f q) cancels)
        (ap (λ (f : ℕ → Option ℕ). f c.fd) cancels
          ∙ current s i c k at up
          ∙ ap (λ b. own i (b && not c.cancelled)) (sym same))

  pub move-put : c.phase ≡ starting → WatchOk (move s i c adding (put_cancel s.watcher c.fd i))
  unfolding put_cancel
  move-put e =
      write-WatchOk s i c (at_phase c adding) _ k at (rw e refl) refl refl (λ p. cc)
        (λ q ne. update-there s.watcher.cancels c.fd (some i) q ne)
        (update-here s.watcher.cancels c.fd (some i) ∙ rw (k.early i c at e) refl)

  pub move-delete :
      (phase : ConnPhase)
      → is_open c.phase ≡ true
      → is_watched phase ≡ false
      → (phase ≡ starting → c.phase ≡ starting)
      → WatchOk (move s i c phase (delete_cancel s.watcher c.fd))
  unfolding delete_cancel
  move-delete phase up unwatched begins =
      write-WatchOk s i c (at_phase c phase) _ k at up refl refl begins
        (λ q ne. update-there s.watcher.cancels c.fd none q ne)
        (update-here s.watcher.cancels c.fd none ∙ rw unwatched refl)

  pub hang_up-WatchOk :
      c.phase ≢ closed → WatchOk (record s { conns = set s.conns i (record c { hung = true }) })
  hang_up-WatchOk up =
      write-WatchOk s i c (record c { hung = true }) s.watcher k at (open_of c.phase up) refl refl
        (λ p. p) (λ q ne. refl) (current s i c k at (open_of c.phase up))
    where
      open_of : (phase : ConnPhase) → phase ≢ closed → is_open phase ≡ true
      open_of starting h = refl
      open_of adding h = refl
      open_of refused h = refl
      open_of (serving w) h = refl
      open_of leaving h = refl
      open_of removing h = refl
      open_of closing h = refl
      open_of closed h = absurd (h refl)

  pub stop-WatchOk :
      (watched : Bool)
      → c.phase ≡ serving watched
      → WatchOk (move s i c (if watched then leaving else closing) s.watcher)
  stop-WatchOk true e = move-quiet leaving s.watcher (rw e refl) (rw e refl) (λ p. cc) refl
  stop-WatchOk false e = move-quiet closing s.watcher (rw e refl) (rw e refl) (λ p. cc) refl

pub accept-WatchOk :
    (s : Watch) (fd : ℕ)
    → WatchOk s
    → IsFree fd s.conns
    → WatchOk (record s {
      conns = s.conns ++ record { fd = fd; phase = starting; hung = false; cancelled = false } ∷ [];
    })
accept-WatchOk s fd k free = record {
  owned = λ q id h.
      let (d, there, d_fd, watched, live) = k.owned q id h in
      (d, kept_by_snoc s.conns new id d there, d_fd, watched, live);
  complete = λ i c h watched live. elim (get_elem?-snoc s.conns new i c h) [
    | inl (e, same) ↦ absurd (cc)
    | inr there ↦ k.complete i c there watched live
  ];
  apart = λ i j c d hc hd c_up d_up same_fd. elim (get_elem?-snoc s.conns new i c hc) [
    | inl (i_is, c_is) ↦ elim (get_elem?-snoc s.conns new j d hd) [
      | inl (j_is, d_is) ↦ i_is ∙ sym j_is
      | inr there ↦ absurd (taken d j there d_up (sym same_fd ∙ ap (λ (x : Conn). x.fd) c_is))
    ]
    | inr there ↦ elim (get_elem?-snoc s.conns new j d hd) [
      | inl (j_is, d_is) ↦ absurd (taken c i there c_up (same_fd ∙ ap (λ (x : Conn). x.fd) d_is))
      | inr there' ↦ k.apart i j c d there there' c_up d_up same_fd
    ]
  ];
  early = λ i c h first. elim (get_elem?-snoc s.conns new i c h) [
    | inl (e, same) ↦ ap (λ (x : Conn). x.cancelled) same
    | inr there ↦ k.early i c there first
  ];
}
  where
    new : Conn
    new = record { fd = fd; phase = starting; hung = false; cancelled = false }

    taken : (d : Conn) (j : ℕ) → get_elem? s.conns j ≡ some d → is_open d.phase ≡ true → d.fd ≢ fd
    taken d j there up = elim (All-get_elem _ s.conns j there free) [
      | inl shut ↦ absurd (cc)
      | inr other ↦ other
    ]
