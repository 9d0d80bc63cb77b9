-- ===== src/Rpc/Tests.antt =====
-- Endpoints and readings at which the theorems about src/shared/rpc-health.ts and
-- src/main/chain/rpc-monitor.ts are applied.
use katacomb_vpn.Prelude.{ℕ, ◌≡◌, refl, true, false, none, some, List, [], ◌∷◌, arith}
use text.Mathlib.TextEquality.{eq_iff}
use katacomb_vpn.Rpc.Health.{
  RpcProbe, RpcCandidate, blocked, classify_rpc, is_fault, pick_best_rpc, pick_auto_rpc,
  qualifies_for_auto, expected_chain_id, needs_confirmation,
}
use katacomb_vpn.Rpc.Health.Switch.{IsQualified}
use katacomb_vpn.Rpc.Health.Stability.{HasDistinctEndpoints, pick_auto_rpc_stable}
use katacomb_vpn.Rpc.Monitor.{
  Monitor, World, Event, confirm_timer_fires, answer, initial, run, step, start, unprobed_state,
  path_changed, land, judge, probe_done,
}
use katacomb_vpn.Rpc.Monitor.Confirmation.{StartsTwice, bad_in_a_row, run-fault_backed}
use katacomb_vpn.Rpc.Monitor.Paths.{
  IsNamed, IsSilent, step-IsSilent, two_bad_answers, two_bad_answers-is_fault,
}

abbrev reading : ℕ → ℕ → ℕ → RpcProbe
reading latency height age = record {
  reachable = true;
  latency_ms = some latency;
  chain_id = some expected_chain_id;
  height = some height;
  block_age_sec = some age;
  error = none;
}

abbrev slow_one : RpcCandidate
slow_one = record {
  endpoint = "https://a:443";
  probe = reading 900 1000 3;
  aggregator_healthy = none;
}

abbrev fast_one : RpcCandidate
fast_one = record {
  endpoint = "https://b:443";
  probe = reading 80 998 6;
  aggregator_healthy = some true;
}

-- It answers fastest and lags by more than the tolerance.
abbrev behind_one : RpcCandidate
behind_one = record {
  endpoint = "https://c:443";
  probe = reading 20 500 9;
  aggregator_healthy = some true;
}

abbrev feed : List RpcCandidate
feed = slow_one ∷ behind_one ∷ fast_one ∷ []

auto_switches : pick_auto_rpc feed "https://a:443" ≡ some "https://b:443"
unfolding pick_auto_rpc qualifies_for_auto classify_rpc
auto_switches = refl

best_is_fastest : pick_best_rpc feed "https://a:443" ≡ some behind_one
unfolding pick_best_rpc classify_rpc
best_is_fastest = refl

feed-HasDistinctEndpoints : HasDistinctEndpoints feed
feed-HasDistinctEndpoints a b m k e = ground (
  arith,
  eq_iff "https://a:443" "https://b:443",
  eq_iff "https://a:443" "https://c:443",
  eq_iff "https://b:443" "https://c:443",
)

pick_auto_rpc_stable_example : pick_auto_rpc feed "https://b:443" ≡ none
pick_auto_rpc_stable_example =
    pick_auto_rpc_stable feed "https://a:443" "https://b:443" feed-HasDistinctEndpoints
      auto_switches

slow_one-IsQualified : IsQualified feed slow_one
slow_one-IsQualified = record {
  answered = refl;
  right_chain = refl;
  not_reported = λ e. cc;
  height = 1000;
  reported = refl;
  in_consensus = λ d h m e. ground arith;
}

abbrev free : World
free = record {
  rpc_endpoint = "https://a:443";
  vpn_active = false;
  kill_switch_armed = false;
  now = 1000;
}

abbrev dead : RpcProbe
dead = record {
  reachable = false;
  latency_ms = none;
  chain_id = none;
  height = none;
  block_age_sec = none;
  error = some "RPC probe failed";
}

dead-is_fault : is_fault (classify_rpc dead) ≡ true
unfolding classify_rpc
dead-is_fault = refl

abbrev launch : List (World × Event)
launch =
    (free, start) ∷ (free, answer dead) ∷ (free, confirm_timer_fires) ∷ (free, answer dead) ∷ []

launch_faults : is_fault (run launch initial).health.state ≡ true
unfolding run step initial probe_done land judge classify_rpc needs_confirmation
launch_faults = refl

run-fault_backed_example :
    StartsTwice (run launch initial).health.endpoint (bad_in_a_row launch initial [])
run-fault_backed_example = run-fault_backed launch launch_faults

abbrev walled : World
walled = record free { kill_switch_armed = true }

walled_blocked : unprobed_state walled ≡ some blocked
unfolding unprobed_state
walled_blocked = refl

step-IsSilent_example : IsSilent blocked initial (step walled path_changed initial)
step-IsSilent_example = step-IsSilent walled path_changed initial blocked walled_blocked

abbrev polling : Monitor
polling = record (unfold initial in initial) { poll_timer = true }

free_unprobed : unprobed_state free ≡ none
unfolding unprobed_state
free_unprobed = refl

two_bad_answers-is_fault_example : IsNamed free (run (two_bad_answers free dead dead) polling)
unfolding initial
two_bad_answers-is_fault_example =
    two_bad_answers-is_fault free polling dead dead refl refl free_unprobed dead-is_fault
      dead-is_fault
