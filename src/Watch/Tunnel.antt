-- ===== src/Watch/Tunnel.antt =====
-- Whether the tunnel still carries traffic: `checkTunnelStalled`, `checkWireGuardHandshake`,
-- `connectedSecondsAlive` and `rememberUsageFor` of src/main/ipc-handlers.ts, with the tests of
-- src/main/vpn/connect-decisions.ts. Times are milliseconds; the differences that may be negative
-- in the code are compared with positive bounds only, so they are subtractions on ℕ.
pub mod Evidence
pub mod Floor
use katacomb_vpn.Prelude.{
  ℕ, zero, suc, ◌+◌, ◌-◌, ◌*◌, max, min, String, Bool, true, false, not, ◌&&◌, ◌||◌, Option, none,
  some, List, [], ◌∷◌, ltb, leb, ◌==◌, if◌then◌else◌, filter, any,
}

abbrev one_way_tx_floor_bytes : ℕ
one_way_tx_floor_bytes = 65536

abbrev one_way_silence_ms : ℕ
one_way_silence_ms = 90000

abbrev wg_handshake_dead_seconds : ℕ
wg_handshake_dead_seconds = 180

abbrev wg_handshake_stale_samples : ℕ
wg_handshake_stale_samples = 3

abbrev pub is_tunnel_one_way : ℕ → ℕ → Bool
is_tunnel_one_way tx_since_last_rx ms_since_last_rx =
    leb one_way_tx_floor_bytes tx_since_last_rx && leb one_way_silence_ms ms_since_last_rx

abbrev pub is_wireguard_peer_gone : Option ℕ → Bool
is_wireguard_peer_gone none = false
is_wireguard_peer_gone (some age) = leb wg_handshake_dead_seconds age

abbrev latest_proof_of_life_ms : ℕ → ℕ → ℕ
latest_proof_of_life_ms handshake_completed_at last_rx_moved_at =
    max handshake_completed_at last_rx_moved_at

pub data Mode : Type 0 where
  tunnel proxy : Mode

abbrev usage_accrues_without_tunnel_interface : Mode → Bool
usage_accrues_without_tunnel_interface proxy = true
usage_accrues_without_tunnel_interface tunnel = false

pub record Bytes : Type 0 where
  pub rx : ℕ
  pub tx : ℕ

pub record Tracking : Type 0 where
  pub last_rx_bytes : ℕ
  pub last_tx_at_rx : ℕ
  pub last_rx_moved_at : ℕ
  pub alive_until : ℕ
  pub alive_bytes : Bytes
  pub stale_handshake_ticks : ℕ

unfoldable pub reset_one_way_tracking : Tracking → Tracking
reset_one_way_tracking t = record t {
  last_rx_bytes = 0;
  last_tx_at_rx = 0;
  last_rx_moved_at = 0;
  alive_bytes = record { rx = 0; tx = 0 };
  stale_handshake_ticks = 0;
}

pub data TunnelFailure : Type 0 where
  stalled dropped : TunnelFailure

-- The counters after a look at them: what came in moves the moment of the last sign of life.
abbrev pub note_bytes : ℕ → Bytes → Tracking → Tracking
note_bytes now b t =
    if (t.last_rx_moved_at == 0) || ltb t.last_rx_bytes b.rx
    then record t {
      last_rx_bytes = b.rx;
      last_tx_at_rx = b.tx;
      last_rx_moved_at = now;
      alive_bytes = b;
    }
    else record t { alive_bytes = b }

abbrev pub judge_bytes : ℕ → Bytes → Tracking → Option TunnelFailure × Tracking
judge_bytes now b t =
    if is_tunnel_one_way (b.tx - t.last_tx_at_rx) (now - t.last_rx_moved_at)
    then (some stalled, record t { alive_until = t.last_rx_moved_at })
    else (none, record t { alive_until = now })

-- `readTunnelBytes()` is `none` when there is no interface.
unfoldable pub check_tunnel_stalled :
    Mode → ℕ → Option Bytes → Tracking → Option TunnelFailure × Tracking
check_tunnel_stalled mode now (some b) t = judge_bytes now b (note_bytes now b t)
check_tunnel_stalled mode now none t =
    if usage_accrues_without_tunnel_interface mode
    then (none, record t { alive_until = now })
    else (some dropped, t)

-- An answer of the daemon about the last handshake's age in seconds, for a tunnel that is still this
-- one. `now - age * 1000` is the moment of that handshake.
unfoldable pub judge_handshake : ℕ → Option ℕ → Tracking → Option TunnelFailure × Tracking
judge_handshake now none t = (none, record t { stale_handshake_ticks = 0 })
judge_handshake now (some age) t =
    if not (is_wireguard_peer_gone (some age))
    then (none, record t { stale_handshake_ticks = 0 })
    else if ltb (t.stale_handshake_ticks + 1) wg_handshake_stale_samples
    then (none, record t { stale_handshake_ticks = t.stale_handshake_ticks + 1 })
    else (
      some stalled,
      record t {
        stale_handshake_ticks = t.stale_handshake_ticks + 1;
        alive_until =
            min t.alive_until (latest_proof_of_life_ms (now - age * 1000) t.last_rx_moved_at);
      },
    )

-- `startQuotaWatchdog`: the clock of a tunnel that comes up.
abbrev or_now : ℕ → Option ℕ → ℕ
or_now now none = now
or_now now (some at) = at

unfoldable start_clock : ℕ → Option ℕ → Tracking → ℕ × Tracking
unfolding reset_one_way_tracking
start_clock now connected_at t = (
  or_now now connected_at,
  reset_one_way_tracking (record t { alive_until = max t.alive_until (or_now now connected_at) }),
)

-- In milliseconds; a missing or zero moment of connecting counts nothing.
unfoldable pub connected_alive : ℕ → Option ℕ → Tracking → ℕ
connected_alive now none t = 0
connected_alive now (some zero) t = 0
connected_alive now (some (suc at)) t = min now (max t.alive_until (suc at)) - suc at

pub record Usage : Type 0 where
  pub download_bytes : ℕ
  pub upload_bytes : ℕ
  pub duration : ℕ

abbrev bytes_or : Option Bytes → Bytes → Bytes
bytes_or none b = b
bytes_or (some b) _ = b

-- `base` is what the session's row says, all zero without one.
unfoldable pub remember_usage_for : ℕ → Option ℕ → Option Bytes → Usage → Tracking → Usage
unfolding connected_alive
remember_usage_for now connected_at live base t = record {
  download_bytes = base.download_bytes + (bytes_or live t.alive_bytes).rx;
  upload_bytes = base.upload_bytes + (bytes_or live t.alive_bytes).tx;
  duration = base.duration + connected_alive now connected_at t;
}

-- The identifiers as texts with their equality test. An empty list of rows prunes nothing.
module _ {Key : Type 0} (same : Key → Key → Bool) where
  abbrev pub is_active : Option Key → Key → Bool
  is_active none id = false
  is_active (some a) id = same a id

  unfoldable pub prunable_usage_ids : List Key → List Key → Option Key → List Key
  prunable_usage_ids remembered [] active = []
  prunable_usage_ids remembered (x ∷ xs) active =
      filter (λ id. not (any (λ l. same l id) (x ∷ xs)) && not (is_active active id)) remembered
