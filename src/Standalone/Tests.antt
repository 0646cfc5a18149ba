-- ===== src/Standalone/Tests.antt =====
-- The example client at a daemon whose broker has one message, and the program at a new daemon.
use atomic_queue.Prelude.{
  ℕ, zero, suc, ◌≡◌, refl, inr, Option, none, List, [], ◌∷◌, arith, true, ◌++◌,
}
use atomic_queue.Prelude.Int.{pos}
use atomic_queue.Fault.{Bytes, timed_out, Result, ok, err}
use atomic_queue.Fault.Text.{Format, codes}
use atomic_queue.Broker.Queues.{Delivery, message, get_queue}
use atomic_queue.Protocol.Request.{Request}
use atomic_queue.Protocol.Wire.{CanSend}
use atomic_queue.Server.{Calls}
use atomic_queue.Server.Rpc.{got, daemon}
use atomic_queue.Standalone.{milliseconds, pop}
use atomic_queue.Standalone.Agrees.{pop-daemon}
use atomic_queue.Limits.{default_max_bytes}
use atomic_queue.Broker.Ops.{new_broker}
use atomic_queue.Broker.Valid.{new_broker-IsValid}
use atomic_queue.Server.Live.{Live, broker_calls}
use atomic_queue.Server.Expired.{expired}
use atomic_queue.Cli.Connect.{Host, connected}
use atomic_queue.Standalone.Main.{jobs, job, push_and_pop}
use atomic_queue.Standalone.Whole.{push_and_pop-daemon}
use atomic_queue.Server.Session.{KeepsOff-refl}

abbrev silent : Format
silent = record { quote = λ s. s; decimal = λ n. []; system = λ e. []; allocates = λ n. true }

abbrev pop_next : ℕ → Option ℕ → List Bytes → Result Delivery × ℕ
pop_next zero deadline channels = (err timed_out, zero)
pop_next (suc n) deadline channels = (ok (message jobs (4 ∷ [])), n)

abbrev stock : Calls ℕ
stock = record { push_owned = λ n channel payload. (none, suc n); pop = pop_next }

abbrev five_seconds : Request
five_seconds = record { op = "pop"; channels = jobs ∷ []; payload = []; timeout_ms = pos 5000 }

five_seconds-CanSend : CanSend five_seconds
five_seconds-CanSend = record {
  known = inr refl;
  few = omega arith;
  short = (omega arith, tt);
  small = omega arith;
}

four_popped : pop (daemon silent stock 1) (jobs ∷ []) (pos 5_000_000_000) ≡ got (4 ∷ [])
unfolding milliseconds
four_popped =
    pop-daemon silent stock 1 (jobs ∷ []) (pos 5_000_000_000) 0 (message jobs (4 ∷ []))
      five_seconds-CanSend (omega arith)
      (record { small = omega arith; short = omega arith; brief = omega arith }) refl

abbrev new_live : Live
new_live = record { broker = new_broker default_max_bytes 1000; next_id = 0 }

abbrev served_host : Host
served_host = record {
  dial = λ n. connected (daemon silent (broker_calls expired) new_live);
  dial_started = λ n. connected (daemon silent (broker_calls expired) new_live);
  has_executable = true;
  can_start = true;
  probes = 1;
}

push_and_pop-daemon_example :
    push_and_pop served_host
    ≡ record { code = 0; output = codes "received: " ++ (job ++ b'\n' ∷ []) }
unfolding new_broker get_queue
push_and_pop-daemon_example =
    push_and_pop-daemon silent expired (λ s v. KeepsOff-refl _ s.broker v) new_live
      (new_broker-IsValid default_max_bytes 1000 (omega arith)) refl tt (omega arith) job [] refl
      (omega arith) served_host refl
