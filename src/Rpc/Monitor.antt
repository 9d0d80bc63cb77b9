-- ===== src/Rpc/Monitor.antt =====
-- src/main/chain/rpc-monitor.ts: the monitor of the configured endpoint as a state machine. The
-- module's variables are the fields of `Monitor`; what it reads from other modules (the endpoint,
-- the tunnel, the kill switch's marker, the clock) is the `World` of each event. A function that
-- awaits a probe is two steps: `refresh` starts it and `probe_done` is the code after the await.
pub mod Confirmation
pub mod Paths
use text.Mathlib.Text.{◌==◌ as str_eq}
use katacomb_vpn.Prelude.{
  ℕ, ◌+◌, String, Bool, true, false, not, ◌&&◌, ◌||◌, Option, none, some, List, [], ◌∷◌, ◌==◌,
  if◌then◌else◌, is_some,
}
use katacomb_vpn.Rpc.Health.{
  RpcProbe, RpcState, ok, degraded, down, suspended, blocked, unknown, classify_rpc, is_fault,
  needs_confirmation,
}

pub record RpcHealth : Type 0 where
  pub probe : RpcProbe
  pub state : RpcState
  pub endpoint : String
  pub checked_at : ℕ

-- The probe in flight: the endpoint that it was sent to, and whether it confirms a held reading.
pub record Flight : Type 0 where
  pub endpoint : String
  pub confirming : Bool

-- `broadcasts` lists what was sent to the windows, latest first, and `selections` counts the calls
-- of `runAutoRpcSelection`.
pub record Monitor : Type 0 where
  pub health : RpcHealth
  pub poll_timer : Bool
  pub probe_in_flight : Option Flight
  pub confirm_timer : Bool
  pub broadcasts : List RpcHealth
  pub selections : ℕ

pub record World : Type 0 where
  pub rpc_endpoint : String
  pub vpn_active : Bool
  pub kill_switch_armed : Bool
  pub now : ℕ

-- The figures of a state that was not measured.
abbrev no_reading : RpcProbe
no_reading = record {
  reachable = false;
  latency_ms = none;
  chain_id = none;
  height = none;
  block_age_sec = none;
  error = none;
}

unfoldable pub initial : Monitor
initial = record {
  health = record { probe = no_reading; state = unknown; endpoint = ""; checked_at = 0 };
  poll_timer = false;
  probe_in_flight = none;
  confirm_timer = false;
  broadcasts = [];
  selections = 0;
}

-- A code for each state, by which `!==` on states is decided.
abbrev state_code : RpcState → ℕ
state_code ok = 0
state_code degraded = 1
state_code down = 2
state_code suspended = 3
state_code blocked = 4
state_code unknown = 5

abbrev same_number : Option ℕ → Option ℕ → Bool
same_number none none = true
same_number (some a) (some b) = a == b
same_number _ _ = false

abbrev has_changed : RpcHealth → RpcHealth → Bool
has_changed next old =
    not (state_code next.state == state_code old.state)
    || (not (str_eq next.endpoint old.endpoint)
        || (not (same_number next.probe.latency_ms old.probe.latency_ms)
            || not (same_number next.probe.height old.probe.height)))

unfoldable pub set_health : RpcHealth → Monitor → Monitor
set_health next m = record m {
  health = next;
  broadcasts = if has_changed next m.health then next ∷ m.broadcasts else m.broadcasts;
}

abbrev cancel_confirm : Monitor → Monitor
cancel_confirm m = record m { confirm_timer = false }

unfoldable pub unprobed_state : World → Option RpcState
unprobed_state w =
    if w.vpn_active then some suspended else if w.kill_switch_armed then some blocked else none

abbrev publish_unprobed : RpcState → String → World → Monitor → Monitor
publish_unprobed state endpoint w m =
    set_health
      (record { probe = no_reading; state = state; endpoint = endpoint; checked_at = w.now }) m

-- `refreshRpcHealth` up to the await of the probe.
unfoldable pub refresh : Bool → World → Monitor → Monitor
unfolding set_health unprobed_state
refresh confirming w m = elim m.probe_in_flight [
  | some _ ↦ m
  | none ↦ elim (unprobed_state w) [
    | some state ↦ publish_unprobed state w.rpc_endpoint w (cancel_confirm m)
    | none ↦ record m {
      probe_in_flight = some (record { endpoint = w.rpc_endpoint; confirming = confirming });
    }
  ]
]

abbrev was_fault_on_same_endpoint : String → Monitor → Bool
was_fault_on_same_endpoint endpoint m = is_fault m.health.state && str_eq m.health.endpoint endpoint

-- Publish a reading, and run the automatic selection on a new fault.
unfoldable publish_reading : RpcState → RpcProbe → Flight → World → Monitor → Monitor
unfolding set_health
publish_reading state probe f w m =
    let next =
      set_health
        (record { probe = probe; state = state; endpoint = f.endpoint; checked_at = w.now })
        (cancel_confirm m) in
    if is_fault state && not (was_fault_on_same_endpoint f.endpoint m)
    then record next { selections = m.selections + 1 }
    else next

-- A reading was graded: hold it until a second probe agrees, or publish it.
unfoldable pub judge : RpcState → RpcProbe → Flight → World → Monitor → Monitor
unfolding publish_reading
judge state probe f w m =
    if not f.confirming && needs_confirmation state m.health.state
    then record m { confirm_timer = true }
    else publish_reading state probe f w m

-- The code of `refreshRpcHealth` after the await, with the flight's result at hand.
unfoldable pub land : Flight → RpcProbe → World → Monitor → Monitor
unfolding unprobed_state set_health
land f probe w m = elim (unprobed_state w) [
  | some state ↦ publish_unprobed state f.endpoint w (cancel_confirm m)
  | none ↦ judge (classify_rpc probe) probe f w m
]

unfoldable pub probe_done : RpcProbe → World → Monitor → Monitor
probe_done probe w m = elim m.probe_in_flight [
  | none ↦ m
  | some f ↦ land f probe w (record m { probe_in_flight = none })
]

-- The callback of the confirm timer, which runs only while the timer is set.
unfoldable pub confirm_fires : World → Monitor → Monitor
unfolding refresh
confirm_fires w m =
    if m.confirm_timer then refresh true w (record m { confirm_timer = false }) else m

unfoldable on_rpc_endpoint_changed : World → Monitor → Monitor
unfolding refresh
on_rpc_endpoint_changed w m = refresh false w (cancel_confirm m)

-- `health.state === 'suspended' || health.state === 'blocked'`
abbrev is_stale : RpcState → Bool
is_stale suspended = true
is_stale blocked = true
is_stale _ = false

unfoldable on_chain_path_changed : World → Monitor → Monitor
unfolding refresh set_health unprobed_state
on_chain_path_changed w m = refresh false w (
    if is_stale m.health.state && not (is_some (unprobed_state w))
    then publish_unprobed unknown w.rpc_endpoint w m
    else m)

unfoldable start_rpc_monitor : World → Monitor → Monitor
unfolding refresh
start_rpc_monitor w m =
    if m.poll_timer then m else (let m' = refresh false w m in record m' { poll_timer = true })

unfoldable stop_rpc_monitor : Monitor → Monitor
stop_rpc_monitor m = record m { poll_timer = false; confirm_timer = false }

-- What can happen: a caller of the module, one of its timers, or the answer of a probe.
pub data Event : Type 0 where
  start stop poll_fires report_failure endpoint_changed path_changed confirm_timer_fires : Event
  answer : RpcProbe → Event

unfoldable pub step : World → Event → Monitor → Monitor
unfolding refresh confirm_fires on_rpc_endpoint_changed on_chain_path_changed start_rpc_monitor
    stop_rpc_monitor
step w start m = start_rpc_monitor w m
step w stop m = stop_rpc_monitor m
step w poll_fires m = if m.poll_timer then refresh false w m else m
step w report_failure m = refresh false w m
step w endpoint_changed m = on_rpc_endpoint_changed w m
step w path_changed m = on_chain_path_changed w m
step w confirm_timer_fires m = confirm_fires w m
step w (answer probe) m = probe_done probe w m

unfoldable pub run : List (World × Event) → Monitor → Monitor
unfolding step
run [] m = m
run ((w, e) ∷ es) m = run es (step w e m)
