-- ===== src/Daemon/Alone.antt =====
-- main.go: daemons that start, stop and are killed on one socket path, when no start
-- or stop overlaps with another.
use atomic_queue.Prelude.{
  ℕ, zero, suc, ◌≡◌, ◌≢◌, refl, subst, ◌∙◌, sym, ap, inl, inr, true, none, some, List, [], ◌∷◌,
  ◌++◌, length, get_elem?, get_elem?-set, get_elem?-snoc, written, kept_by_snoc, at_end, set, ◌==◌,
  arith,
}
use atomic_queue.Daemon.{
  Entry, nothing, plain_file, socket, Stage, checking, listening, accepting, closing, stopped,
  remove_path, remove_stale_socket, listen_or_stop, start_up, after_listen, orphaned, Site, proceed,
  SerialStep, start_alone, stop_alone, killed_alone, SerialReach, untouched, after, SitePath,
  SiteStep, here, next, start, stat, dial, remove, listen, stop, killed, dialing, removing,
  dial_or_stop, remove_or_stop, after_stat, after_dial, after_remove,
}
use atomic_queue.Daemon.Starts.{
  IsStale, Cleans, cleared, in_use, foreign, remove_stale_socket-Cleans,
}

-- The path leads to a process exactly if that process accepts connections.
pub record Alone (entry : Entry) (stages : List Stage) : Type 0 where
  pub live : (id : ℕ) → entry ≡ socket (some id) → get_elem? stages id ≡ some accepting
  pub only : (id : ℕ) → get_elem? stages id ≡ some accepting → entry ≡ socket (some id)

-- Nobody listens.
abbrev pub IsDead : Entry → Type 0
IsDead entry = (id : ℕ) → entry ≢ socket (some id)

IsStale-IsDead : (entry : Entry) → IsStale entry → IsDead entry
IsStale-IsDead entry (inl e) id h = cc
IsStale-IsDead entry (inr e) id h = cc

-- A start that fails.
add_failed :
    (entry : Entry) (stages : List Stage) (stage : Stage)
    → stage ≢ accepting
    → Alone entry stages
    → Alone entry (stages ++ stage ∷ [])
add_failed entry stages stage ne a = record {
  live = λ id h. kept_by_snoc stages stage id accepting (a.live id h);
  only = λ id h. elim (get_elem?-snoc stages stage id accepting h) [
    | inl (e, same) ↦ absurd (ne (sym same))
    | inr at ↦ a.only id at
  ];
}

-- A start at a path where nobody listens.
add_accepting :
    (entry : Entry) (stages : List Stage)
    → IsDead entry
    → Alone entry stages
    → Alone (socket (some (length stages))) (stages ++ accepting ∷ [])
add_accepting entry stages dead a = record {
  live = λ id h.
      subst (λ n. get_elem? (stages ++ accepting ∷ []) n ≡ some accepting) (cc h)
        (at_end stages accepting);
  only = λ id h. elim (get_elem?-snoc stages accepting id accepting h) [
    | inl (e, same) ↦ ap (λ n. socket (some n)) (sym e)
    | inr at ↦ absurd (dead id (a.only id at))
  ];
}

-- The end of the process at the path, which leaves nobody there.
leave :
    (entry left : Entry) (stages : List Stage) (i : ℕ)
    → get_elem? stages i ≡ some accepting
    → IsDead left
    → Alone entry stages
    → Alone left (set stages i stopped)
leave entry left stages i one dead a = record {
  live = λ id h. absurd (dead id h);
  only = λ id h. elim (get_elem?-set stages i stopped id accepting h) [
    | inl (e, same) ↦ cc
    | inr (ne, at) ↦
        let same : socket (some i) ≡ socket (some id) = sym (a.only i one) ∙ a.only id at in
        absurd (ne (cc same))
  ];
}

start-Alone :
    (entry : Entry) (stages : List Stage) (r : Entry × Stage)
    → Cleans entry r
    → Alone entry stages
    → Alone
        (listen_or_stop (length stages) r).0
        (stages ++ (listen_or_stop (length stages) r).1 ∷ [])
unfolding listen_or_stop after_listen
start-Alone entry stages r (cleared stale e) a =
    rw e (add_accepting entry stages (IsStale-IsDead entry stale) a)
start-Alone entry stages r (in_use id e h) a = rw h (add_failed entry stages _ (λ x. cc) a)
start-Alone entry stages r (foreign e h) a = rw h (add_failed entry stages _ (λ x. cc) a)

orphaned-IsDead : (i : ℕ) (entry : Entry) → entry ≡ socket (some i) → IsDead (orphaned i entry)
unfolding orphaned
orphaned-IsDead i entry e id h =
    let same : (i == i) ≡ true = ground arith in
    let here : socket none ≡ socket (some id) = rw (e, same) at h in cc

Step-Alone : {s t : Site} → SerialStep s t → Alone s.entry s.stages → Alone t.entry t.stages
unfolding start_up
Step-Alone {s} start_alone a =
    start-Alone s.entry s.stages (remove_stale_socket s.entry) (remove_stale_socket-Cleans s.entry)
      a
Step-Alone {s} (stop_alone i one) a = leave s.entry nothing s.stages i one (λ id h. cc) a
Step-Alone {s} (killed_alone i one) a =
    leave s.entry (orphaned i s.entry) s.stages i one (orphaned-IsDead i s.entry (a.only i one)) a

Reach-Alone :
    (entry : Entry) {s : Site} → IsDead entry → SerialReach entry s → Alone s.entry s.stages
Reach-Alone entry dead untouched = record { live = λ id h. absurd (dead id h); only = λ id h. cc }
Reach-Alone entry dead (after reach step) = Step-Alone step (Reach-Alone entry dead reach)

set-at_end :
    (stages : List Stage) (a b : Stage)
    → set (stages ++ a ∷ []) (length stages) b ≡ stages ++ b ∷ []
set-at_end [] a b = refl
set-at_end (x ∷ stages) a b = ap (◌∷◌ x) (set-at_end stages a b)

abbrev with_last : Entry → List Stage → Stage → Site
with_last entry stages stage = record { entry = entry; stages = stages ++ stage ∷ [] }

module _ (stages : List Stage) where
  move_on :
      (s : Site) (entry left : Entry) (a b : Stage)
      → SitePath s (with_last entry stages a)
      → SiteStep
          (with_last entry stages a)
          (proceed (with_last entry stages a) (length stages) left b)
      → SitePath s (with_last left stages b)
  move_on s entry left a b path step =
      subst (λ xs. SitePath s (record { entry = left; stages = xs })) (set-at_end stages a b)
        (next path step)

  -- A start without an interruption is a sequence of steps.
  start_up-path :
      (entry : Entry)
      → SitePath
          (record { entry = entry; stages = stages })
          (with_last (start_up (length stages) entry).0 stages (start_up (length stages) entry).1)
  unfolding start_up listen_or_stop remove_stale_socket dial_or_stop remove_or_stop after_stat
      after_dial after_remove after_listen
  start_up-path nothing =
      let p =
        move_on _ nothing nothing checking listening (next here start)
          (stat _ (at_end stages checking)) in
      move_on _ nothing _ listening accepting p (listen _ (at_end stages listening))
  start_up-path plain_file =
      move_on _ plain_file plain_file checking _ (next here start) (stat _ (at_end stages checking))
  start_up-path (socket none) =
      let p =
        move_on _ (socket none) (socket none) checking dialing (next here start)
          (stat _ (at_end stages checking)) in
      let q =
        move_on _ (socket none) (socket none) dialing removing p (dial _ (at_end stages dialing)) in
      let r =
        move_on _ (socket none) nothing removing listening q (remove _ (at_end stages removing)) in
      move_on _ nothing _ listening accepting r (listen _ (at_end stages listening))
  start_up-path (socket (some id)) =
      let p =
        move_on _ (socket (some id)) (socket (some id)) checking dialing (next here start)
          (stat _ (at_end stages checking)) in
      move_on _ (socket (some id)) _ dialing _ p (dial _ (at_end stages dialing))

path_join : {s t u : Site} → SitePath s t → SitePath t u → SitePath s u
path_join p here = p
path_join p (next q step) = next (path_join p q) step

set-set : (stages : List Stage) (i : ℕ) (a b : Stage) → set (set stages i a) i b ≡ set stages i b
set-set [] i a b = refl
set-set (x ∷ stages) zero a b = refl
set-set (x ∷ stages) (suc i) a b = ap (◌∷◌ x) (set-set stages i a b)

Step-SitePath : {s t : Site} → SerialStep s t → SitePath s t
Step-SitePath {s} start_alone = start_up-path s.stages s.entry
Step-SitePath {s} (stop_alone i one) =
    subst (λ xs. SitePath s (record { entry = nothing; stages = xs }))
      (set-set s.stages i (closing none) stopped)
      (next (next here (stop i one))
        (remove_path i none (written s.stages i (closing none) accepting one)))
Step-SitePath (killed_alone i one) = next here (killed i one)

-- What happens without overlaps is among what happens in any order.
Reach-SitePath :
    (entry : Entry) {s : Site}
    → SerialReach entry s
    → SitePath (record { entry = entry; stages = [] }) s
Reach-SitePath entry untouched = here
Reach-SitePath entry (after reach step) =
    path_join (Reach-SitePath entry reach) (Step-SitePath step)

-- When nobody listens at the path at first, and each start and each stop is over before another start
-- or stop begins, then however daemons start, stop and are killed: two that accept connections are
-- the same one, and the path leads to it. All this is among what the single steps of
-- removeStaleSocket and serve can do.
pub one_daemon :
    (entry : Entry) (s : Site) (i j : ℕ)
    → IsDead entry
    → SerialReach entry s
    → get_elem? s.stages i ≡ some accepting
    → get_elem? s.stages j ≡ some accepting
    → SitePath (record { entry = entry; stages = [] }) s × (i ≡ j) × (s.entry ≡ socket (some i))
one_daemon entry s i j dead reach one two =
    let a = Reach-Alone entry dead reach in
    let same : socket (some i) ≡ socket (some j) = sym (a.only i one) ∙ a.only j two in
    (Reach-SitePath entry reach, cc same, a.only i one)
