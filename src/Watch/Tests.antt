-- ===== src/Watch/Tests.antt =====
-- Sessions and counters at which the theorems about the watchdog of src/main/ipc-handlers.ts are
-- applied.
use katacomb_vpn.Prelude.{ℕ, ◌+◌, ◌≡◌, ◌≤◌, ◌↔◌, ◌⊎◌, refl, some, [], ◌∷◌, arith}
use katacomb_vpn.Watch.Quota.{
  QuotaInput, time, data_used, evaluate_quota, quota_level_rank, ActiveQuota, Scored, verdict_for,
  score, current_quota_verdict,
}
use katacomb_vpn.Watch.Quota.Verdict.{IsUsedUp, evaluate_quota-rank_iff}
use katacomb_vpn.Watch.Quota.Chain.{IsNoWorse, current_quota_verdict-IsWorst}
use katacomb_vpn.Watch.Tunnel.{
  tunnel, Tracking, Usage, check_tunnel_stalled, reset_one_way_tracking,
}
use katacomb_vpn.Watch.Tunnel.Evidence.{
  Look, watch, IsSilentSince, check_tunnel_stalled-IsSilentSince,
}

-- An hour that is used up to 57 minutes, and a gibibyte used up to the half.
abbrev an_hour : QuotaInput
an_hour = record {
  max_duration = some 3600000;
  baseline_duration = 3000000;
  connected = 420000;
  max_bytes = 1073741824;
  baseline_bytes = 500000000;
  live_rx_bytes = 36870912;
}

evaluate_quota-rank_iff_example :
    ((2 ≤ quota_level_rank (evaluate_quota an_hour))
      ↔ (IsUsedUp an_hour 100 time ⊎ IsUsedUp an_hour 100 data_used))
    × ((1 ≤ quota_level_rank (evaluate_quota an_hour))
        ↔ (IsUsedUp an_hour 90 time ⊎ IsUsedUp an_hour 90 data_used))
evaluate_quota-rank_iff_example = evaluate_quota-rank_iff an_hour

abbrev entry_quota : ActiveQuota
entry_quota = record {
  session_id = "11";
  quota_max_duration = some 3600000;
  quota_baseline_duration = 0;
  quota_max_bytes = 0;
  quota_baseline_bytes = 0;
}

abbrev exit_quota : ActiveQuota
exit_quota = record entry_quota { session_id = "12"; quota_max_duration = some 1800000 }

current_quota_verdict-IsWorst_example :
    (s : Scored) × (current_quota_verdict 1800000 0 (some entry_quota) (some exit_quota) ≡ some s)
    × ((s ≡ score 1800000 0 entry_quota) ⊎ (s ≡ score 1800000 0 exit_quota))
    × IsNoWorse (verdict_for 1800000 0 entry_quota) s.verdict
    × IsNoWorse (verdict_for 1800000 0 exit_quota) s.verdict
current_quota_verdict-IsWorst_example =
    current_quota_verdict-IsWorst 1800000 0 entry_quota exit_quota

abbrev idle : Tracking
idle = record {
  last_rx_bytes = 0;
  last_tx_at_rx = 0;
  last_rx_moved_at = 0;
  alive_until = 1000;
  alive_bytes = record { rx = 0; tx = 0 };
  stale_handshake_ticks = 0;
}

-- The counters at some moment.
abbrev look : ℕ → ℕ → ℕ → Look
look at rx tx = record { at = at; seen = record { rx = rx; tx = tx } }

check_tunnel_stalled-IsSilentSince_example :
    (first : Look) × IsSilentSince first
      (look 95000 50 70000 ∷ look 20000 50 9000 ∷ look 5000 50 100 ∷ [])
    × (first.at + 90000 ≤ 95000)
    × (first.seen.tx + 65536 ≤ 70000)
    × ((check_tunnel_stalled tunnel 95000
          (some (record { rx = 50; tx = 70000 }))
          (watch tunnel idle (look 20000 50 9000 ∷ look 5000 50 100 ∷ []))).1.alive_until
        ≡ first.at)
unfolding check_tunnel_stalled reset_one_way_tracking
check_tunnel_stalled-IsSilentSince_example =
    check_tunnel_stalled-IsSilentSince tunnel idle (look 95000 50 70000)
      (look 20000 50 9000 ∷ look 5000 50 100 ∷ []) (omega arith, (omega arith, (omega arith, tt)))
      refl

abbrev settled : Usage
settled = record { download_bytes = 900; upload_bytes = 30; duration = 60000 }
