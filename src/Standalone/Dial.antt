-- ===== src/Standalone/Dial.antt =====
-- examples/go/standalone-client/main.go: Dial and ensureDaemon. Every error of `net.DialTimeout` is a
-- `*net.OpError`, so each failed dial starts the daemon.
use atomic_queue.Prelude.{◌≡◌, refl, ◌⊎◌, inl, inr, true, if◌then◌else◌}
use atomic_queue.Cli.Connect.{
  Dial, connected, absent, refusing, unreachable, Host, not_started, Started, down, Client, client,
  probe, take_connection, dial_again, is_connected, should_start_daemon, ensure_daemon,
  new_rpc_client,
}

-- The probes are those of the program's own ensureDaemon.
unfoldable pub start_daemon : Host → Started
unfolding probe
start_daemon host = if host.can_start then probe host true host.probes 1 else down not_started

abbrev pub after_dial : Host → Dial → Client
after_dial host (connected peer) = client peer
after_dial host absent = dial_again host (start_daemon host)
after_dial host refusing = dial_again host (start_daemon host)
after_dial host unreachable = dial_again host (start_daemon host)

unfoldable pub dial_client : Host → Client
unfolding start_daemon dial_again
dial_client host = after_dial host (host.dial 0)

-- On a host that can find the executable, and whose first dial connects or finds nobody listening,
-- Dial gets the connection, or the error, that the program's own client gets when it may start the
-- daemon.
pub dial_client-agrees :
    (host : Host)
    → host.has_executable ≡ true
    → (is_connected (host.dial 0) ≡ true) ⊎ (should_start_daemon (host.dial 0) ≡ true)
    → dial_client host ≡ new_rpc_client host true
unfolding dial_client new_rpc_client ensure_daemon start_daemon should_start_daemon take_connection
dial_client-agrees host found known = go (host.dial 0) refl known
  where
    go :
        (d : Dial)
        → host.dial 0 ≡ d
        → (is_connected d ≡ true) ⊎ (should_start_daemon d ≡ true)
        → dial_client host ≡ new_rpc_client host true
    go (connected peer) e h = rw e refl
    go absent e h = rw (e, found) refl
    go refusing e h = rw (e, found) refl
    go unreachable e (inl h) = cc
    go unreachable e (inr h) = cc
