-- ===== src/Cli/Connect.antt =====
-- main.go: newRPCClient, ensureDaemon, shouldStartDaemon and roundTrip. What the operating system
-- answers is a record of parameters.
use atomic_queue.Prelude.{
  ℕ, zero, suc, ◌+◌, ◌<◌, ◌≡◌, refl, ◌∙◌, Bool, true, false, arith, if◌then◌else◌, ◌≤◌,
}
use atomic_queue.Protocol.Request.{Request}
use atomic_queue.Protocol.Response.{Response}
use atomic_queue.Server.Rpc.{ClientError, Peer, Reply, got, failed, do_request}

-- The outcome of `net.DialTimeout`: ENOENT is `absent`, ECONNREFUSED is `refusing`.
pub data Dial : Type 0 where
  connected : Peer → Dial
  absent refusing unreachable : Dial

-- `dial k` is the outcome of the dial number `k` from 0 as long as the client has started no daemon,
-- `dial_started k` its outcome once the client has, and `probes` says how often the clock is found
-- before the deadline of ensureDaemon.
pub record Host : Type 0 where
  pub dial : ℕ → Dial
  pub dial_started : ℕ → Dial
  pub has_executable : Bool
  pub can_start : Bool
  pub probes : ℕ

pub data ConnectError : Type 0 where
  no_executable not_started daemon_silent : ConnectError
  no_connection : ConnectError
  request_failed : ClientError → ConnectError

-- What a dial comes to, before `cmd.Start` has started the daemon or after it.
abbrev pub dial_at : Host → (started : Bool) → ℕ → Dial
dial_at host false = host.dial
dial_at host true = host.dial_started

-- A probe has connected: whether the daemon has been started, and the number of dials so far. Or why
-- not.
pub data Started : Type 0 where
  up : (started : Bool) → ℕ → Started
  down : ConnectError → Started

unfoldable pub should_start_daemon : Dial → Bool
should_start_daemon absent = true
should_start_daemon refusing = true
should_start_daemon (connected peer) = false
should_start_daemon unreachable = false

pub data Client : Type 0 where
  client : Peer → Client
  no_client : ConnectError → Client

module _ (host : Host) where
  abbrev pub probed : (started : Bool) → Dial → ℕ → Started → Started
  probed started (connected peer) k again = up started (suc k)
  probed started absent k again = again
  probed started refusing k again = again
  probed started unreachable k again = again

  -- The loop of ensureDaemon, by the rounds that the clock leaves.
  unfoldable pub probe : (started : Bool) → ℕ → ℕ → Started
  probe started zero k = down daemon_silent
  probe started (suc n) k =
      let again = probe started n (suc k) in probed started (dial_at host started k) k again

  -- `cmd.Start` is what starts the daemon.
  unfoldable pub ensure_daemon : ℕ → Started
  unfolding probe
  ensure_daemon k =
      if host.has_executable
      then (if host.can_start then probe true host.probes k else down not_started)
      else down no_executable

  unfoldable pub take_connection : Dial → Client
  take_connection (connected peer) = client peer
  take_connection absent = no_client no_connection
  take_connection refusing = no_client no_connection
  take_connection unreachable = no_client no_connection

  unfoldable pub dial_again : Started → Client
  unfolding take_connection
  dial_again (down e) = no_client e
  dial_again (up started k) = take_connection (dial_at host started k)

  unfoldable pub new_rpc_client : (auto_start : Bool) → Client
  unfolding should_start_daemon ensure_daemon dial_again take_connection
  new_rpc_client auto_start =
      if auto_start
      then (if should_start_daemon (host.dial 0)
          then dial_again (ensure_daemon 1)
          else take_connection (host.dial 0))
      else take_connection (host.dial 0)

-- `Do` on a client.
pub data Exchange : Type 0 where
  answered : Response → Exchange
  broken : ConnectError → Exchange

abbrev pub exchanged : Reply Response → Exchange
exchanged (got resp) = answered resp
exchanged (failed e) = broken (request_failed e)

unfoldable pub exchange : Client → Request → Exchange
unfolding do_request
exchange (no_client e) req = broken e
exchange (client peer) req = exchanged (do_request peer req)

unfoldable pub round_trip : Host → Request → (auto_start : Bool) → Exchange
unfolding new_rpc_client exchange
round_trip host req auto_start = exchange (new_rpc_client host auto_start) req

abbrev pub is_connected : Dial → Bool
is_connected (connected peer) = true
is_connected _ = false

probed-connected :
    (host : Host) (started : Bool) (d : Dial) (k : ℕ) (again : Started)
    → is_connected d ≡ true
    → probed host started d k again ≡ up started (suc k)
probed-connected host started (connected peer) k again h = refl
probed-connected host started absent k again h = cc
probed-connected host started refusing k again h = cc
probed-connected host started unreachable k again h = cc

probed-failed :
    (host : Host) (started : Bool) (d : Dial) (k : ℕ) (again : Started)
    → is_connected d ≡ false
    → probed host started d k again ≡ again
probed-failed host started (connected peer) k again h = cc
probed-failed host started absent k again h = refl
probed-failed host started refusing k again h = refl
probed-failed host started unreachable k again h = refl

probe-up :
    (host : Host) (n m k : ℕ)
    → k < n
    → ((j : ℕ) → j < k → is_connected (host.dial_started (m + j)) ≡ false)
    → is_connected (host.dial_started (m + k)) ≡ true
    → probe host true n m ≡ up true (suc (m + k))
unfolding probe
probe-up host zero m k h before now = absurd (omega arith)
probe-up host (suc n) m zero h before now =
    let here : m + 0 ≡ m = omega arith in
    rw here (probed-connected host true (host.dial_started m) m _ (rw here at now))
probe-up host (suc n) m (suc k) h before now =
    let here : m + 0 ≡ m = omega arith in
    let next : suc m + k ≡ m + suc k = omega arith in
    probed-failed host true (host.dial_started m) m _ (rw here at (before 0 (omega arith)))
    ∙ rw next at (
        probe-up host n (suc m) k (omega arith)
          (λ j less.
            let step : suc m + j ≡ m + suc j = omega arith in
            rw step (before (suc j) (omega arith)))
          (rw next now))

unreached :
    (host : Host) (d : Dial)
    → should_start_daemon d ≡ true
    → take_connection host d ≡ no_client no_connection
unfolding take_connection should_start_daemon
unreached host absent h = refl
unreached host refusing h = refl
unreached host (connected peer) h = cc
unreached host unreachable h = cc

-- When nobody listens as long as the client does not start the daemon, and the daemon, once
-- `cmd.Start` has started it, answers from the dial after `k` failed probes on, within the deadline
-- of ensureDaemon: then the client that may start the daemon starts it and is connected to it, and
-- the client that may not gets no connection.
pub new_rpc_client-started :
    (host : Host) (k : ℕ) (peer : Peer)
    → ((j : ℕ) → should_start_daemon (host.dial j) ≡ true)
    → host.has_executable ≡ true
    → host.can_start ≡ true
    → k < host.probes
    → ((j : ℕ) → j < k → is_connected (host.dial_started (1 + j)) ≡ false)
    → ((j : ℕ) → k ≤ j → host.dial_started (1 + j) ≡ connected peer)
    → (new_rpc_client host true ≡ client peer)
      × (new_rpc_client host false ≡ no_client no_connection)
unfolding new_rpc_client ensure_daemon dial_again take_connection
new_rpc_client-started host k peer nobody found starts in_time before from =
    let answers : is_connected (host.dial_started (1 + k)) ≡ true =
      rw (from k (omega arith)) refl in
    let again : host.dial_started (suc (1 + k)) ≡ connected peer =
      let same : 1 + (1 + k) ≡ suc (1 + k) = omega arith in
      rw same at (from (1 + k) (omega arith)) in
    (
      rw (nobody 0, found, starts, probe-up host host.probes 1 k in_time before answers)
          (rw again refl),
      unreached host (host.dial 0) (nobody 0),
    )
