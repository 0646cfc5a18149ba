-- ===== src/Watcher/Events.antt =====
-- conn_watcher.go: what `run` does with an event keeps the map of cancel functions exact.
use mathlib.Core.Option.{some-injective}
use atomic_queue.Prelude.{
  ℕ, ◌≡◌, ◌≢◌, sym, ◌∙◌, ap, inl, inr, Option, none, some, Option-cases, List, get_elem?,
}
use atomic_queue.Watcher.{update, delete_cancel, take_event, starting, Conn, Watch, cancel_conn}
use atomic_queue.Watcher.Table.{cancel_conn-get_elem, kept_by_cancel}
use atomic_queue.Watcher.Owned.{WatchOk, same-conn, eq-or-ne}
use atomic_queue.Watcher.Moves.{update-here, update-there, clash}

-- An event for a descriptor that is not in the map changes nothing.
unknown-WatchOk :
    (s : Watch) (fd : ℕ) (rest : List ℕ) (held : Option ℕ)
    → WatchOk s
    → s.watcher.cancels fd ≡ none
    → WatchOk (record s { watcher = delete_cancel s.watcher fd; pending = rest; held = held })
unfolding delete_cancel
unknown-WatchOk s fd rest held k nobody = record {
  owned = λ q id h. elim (eq-or-ne fd q) [
    | inl here ↦ clash id (
        sym (update-here s.watcher.cancels fd none)
        ∙ ap (update s.watcher.cancels fd none) here
        ∙ h)
    | inr elsewhere ↦ k.owned q id (sym (update-there s.watcher.cancels fd none q elsewhere) ∙ h)
  ];
  complete = λ i c h watched live. elim (eq-or-ne fd c.fd) [
    | inl here ↦ clash i (sym nobody ∙ ap s.watcher.cancels here ∙ k.complete i c h watched live)
    | inr elsewhere ↦
        update-there s.watcher.cancels fd none c.fd elsewhere ∙ k.complete i c h watched live
  ];
  apart = k.apart;
  early = k.early;
}

-- An event for a descriptor in the map: its connection is cancelled, and leaves the map.
known-WatchOk :
    (s : Watch) (fd id : ℕ) (rest : List ℕ) (held : Option ℕ)
    → WatchOk s
    → s.watcher.cancels fd ≡ some id
    → WatchOk (record {
      watcher = delete_cancel s.watcher fd;
      conns = cancel_conn (some id) s.conns;
      pending = rest;
      held = held;
    })
unfolding delete_cancel
known-WatchOk s fd id rest held k who = record {
  owned = λ q j h. elim (eq-or-ne fd q) [
    | inl here ↦ clash j (
        sym (update-here s.watcher.cancels fd none)
        ∙ ap (update s.watcher.cancels fd none) here
        ∙ h)
    | inr elsewhere ↦
        let (d, there, d_fd, watched, live) =
          k.owned q j (sym (update-there s.watcher.cancels fd none q elsewhere) ∙ h) in
        (
          d,
          kept_by_cancel id s.conns j d (λ e. elsewhere (sym (mine d j e there) ∙ d_fd)) there,
          d_fd,
          watched,
          live,
        )
  ];
  complete = λ j c h watched live.
      let (d, there, c_fd, phase, hung, flag) = cancel_conn-get_elem id s.conns j c h in
      elim flag [
        | inl (e, is) ↦ absurd (cc (is, live))
        | inr (ne, same) ↦
            let at_j : get_elem? s.conns j ≡ some c = there ∙ ap some (sym same) in
            let known : s.watcher.cancels c.fd ≡ some j = k.complete j c at_j watched live in
            update-there s.watcher.cancels fd none c.fd
              (λ here. ne (some-injective _ _ (sym who ∙ ap s.watcher.cancels here ∙ known)))
            ∙ known
      ];
  apart = λ i j c d hc hd c_up d_up same.
      let (c', at_i, c_fd, c_phase, c_hung, c_flag) = cancel_conn-get_elem id s.conns i c hc in
      let (d', at_j, d_fd, d_phase, d_hung, d_flag) = cancel_conn-get_elem id s.conns j d hd in
      k.apart i j c' d' at_i at_j (rw c_phase at c_up) (rw d_phase at d_up)
        (sym c_fd ∙ same ∙ d_fd);
  early = λ j c h first.
      let (d, there, c_fd, phase, hung, flag) = cancel_conn-get_elem id s.conns j c h in
      elim flag [
        | inl (e, is) ↦ absurd (not_starting d j e there (sym phase ∙ first))
        | inr (ne, same) ↦ k.early j c (there ∙ ap some (sym same)) first
      ];
}
  where
    mine : (d : Conn) (j : ℕ) → id ≡ j → get_elem? s.conns j ≡ some d → d.fd ≡ fd
    mine d j e there =
        let (o, at, o_fd, watched, live) = k.owned fd id who in
        ap (λ (x : Conn). x.fd) (same-conn s.conns j id d o (sym e) there at) ∙ o_fd

    not_starting : (d : Conn) (j : ℕ) → id ≡ j → get_elem? s.conns j ≡ some d → d.phase ≢ starting
    not_starting d j e there first =
        let (o, at, o_fd, watched, live) = k.owned fd id who in
        let same : d ≡ o = same-conn s.conns j id d o (sym e) there at in cc

pub dispatch-WatchOk :
    (s : Watch) (fd : ℕ) (rest : List ℕ) (held : Option ℕ)
    → WatchOk s
    → WatchOk (record {
      watcher = (take_event s.watcher fd).1;
      conns = cancel_conn (take_event s.watcher fd).0 s.conns;
      pending = rest;
      held = held;
    })
unfolding take_event cancel_conn
dispatch-WatchOk s fd rest held k = elim (Option-cases (s.watcher.cancels fd)) [
  | inl nobody ↦ rw nobody (unknown-WatchOk s fd rest held k nobody)
  | inr (id, who) ↦ rw who (known-WatchOk s fd id rest held k who)
]
