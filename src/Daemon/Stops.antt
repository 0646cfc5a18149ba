-- ===== src/Daemon/Stops.antt =====
-- main.go: `serve` removes the path twice at its end, in `listener.Close` and in the deferred
-- `os.Remove`; what a start between the two comes to.
use atomic_queue.Prelude.{◌≡◌, refl, none, some, List, ◌∷◌}
use atomic_queue.Daemon.{
  nothing, socket, Stage, checking, accepting, stopped, after_stat, after_listen, Site, stat,
  listen, stop, remove_path, SitePath, here, next,
}

-- A daemon accepts connections at the path, and two processes are about to start, whatever other
-- processes there are. The run can go on so that the daemon has stopped and the first of the two has
-- started, and nothing is left at the path, although the first accepts connections; and from there so
-- that the second has started too, both accept connections, and the path leads to the second alone.
pub start_during_stop :
    (others : List Stage)
    → (m : Site) × SitePath
        (record { entry = socket (some 0); stages = accepting ∷ checking ∷ checking ∷ others })
        m
      × (m.stages ≡ stopped ∷ accepting ∷ checking ∷ others)
      × (m.entry ≡ nothing)
      × (t : Site) × SitePath m t
      × (t.stages ≡ stopped ∷ accepting ∷ accepting ∷ others)
      × (t.entry ≡ socket (some 2))
unfolding after_stat after_listen
start_during_stop others =
    let first_up = next (next (next here (stop 0 refl)) (stat 1 refl)) (listen 1 refl) in
    (
      record { entry = nothing; stages = stopped ∷ accepting ∷ checking ∷ others },
      next first_up (remove_path 0 none refl),
      refl,
      refl,
      record { entry = socket (some 2); stages = stopped ∷ accepting ∷ accepting ∷ others },
      next (next here (stat 2 refl)) (listen 2 refl),
      refl,
      refl,
    )
