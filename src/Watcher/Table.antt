-- ===== src/Watcher/Table.antt =====
-- The connections under a cancellation, place by place.
use atomic_queue.Prelude.{
  ℕ, zero, suc, ◌≡◌, ◌≢◌, refl, ◌⊎◌, inl, inr, true, some, List, [], ◌∷◌, get_elem?, arith,
}
use atomic_queue.Watcher.{Conn, cancel_conn}

-- Cancelling changes the flag of one connection, and nothing else.
pub cancel_conn-get_elem :
    (id : ℕ) (conns : List Conn) (j : ℕ) (c : Conn)
    → get_elem? (cancel_conn (some id) conns) j ≡ some c
    → (d : Conn) × (get_elem? conns j ≡ some d)
      × (c.fd ≡ d.fd)
      × (c.phase ≡ d.phase)
      × (c.hung ≡ d.hung)
      × (((id ≡ j) × (c.cancelled ≡ true)) ⊎ ((id ≢ j) × (c ≡ d)))
unfolding cancel_conn
cancel_conn-get_elem id [] j c h = cc
cancel_conn-get_elem zero (d ∷ conns) zero c h = (d, refl, cc, cc, cc, inl (refl, cc))
cancel_conn-get_elem zero (d ∷ conns) (suc j) c h =
    (c, h, refl, refl, refl, inr (λ e. omega arith, refl))
cancel_conn-get_elem (suc id) (d ∷ conns) zero c h =
    (c, h, refl, refl, refl, inr (λ e. omega arith, refl))
cancel_conn-get_elem (suc id) (d ∷ conns) (suc j) c h =
    let (e, at, fd, phase, hung, flag) = cancel_conn-get_elem id conns j c h in
    (
      e,
      at,
      fd,
      phase,
      hung,
      (elim flag [
        | inl (same, is) ↦ inl (omega arith, is)
        | inr (ne, is) ↦ inr (λ (p : suc id ≡ suc j). ne (omega arith), is)
      ]),
    )

pub kept_by_cancel :
    (id : ℕ) (conns : List Conn) (j : ℕ) (c : Conn)
    → id ≢ j
    → get_elem? conns j ≡ some c
    → get_elem? (cancel_conn (some id) conns) j ≡ some c
unfolding cancel_conn
kept_by_cancel id [] j c ne h = cc
kept_by_cancel zero (d ∷ conns) zero c ne h = absurd (ne refl)
kept_by_cancel zero (d ∷ conns) (suc j) c ne h = h
kept_by_cancel (suc id) (d ∷ conns) zero c ne h = h
kept_by_cancel (suc id) (d ∷ conns) (suc j) c ne h =
    kept_by_cancel id conns j c (λ e. ne (omega arith)) h
