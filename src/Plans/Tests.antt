-- ===== src/Plans/Tests.antt =====
-- Candidates and answers at which the theorems about src/main/plans/plan-connect.ts and the ladder of
-- src/main/ipc-handlers.ts are applied.
use katacomb_vpn.Prelude.{
  ℕ, zero, suc, ◌≤◌, ◌↔◌, refl, String, Bool, true, false, none, some, [], ◌∷◌, Result, ok, err,
  Mem,
}
use katacomb_vpn.Plans.Ranking.{Candidate, Options, rank_plan_candidates}
use katacomb_vpn.Plans.Ranking.Order.{IsRanked, IsOffered, rank_plan_candidates-IsRanked}
use katacomb_vpn.Plans.Ladder.{Answers, max_tx_attempts, smart_connect}
use katacomb_vpn.Plans.Ladder.Money.{
  charges, still_to_pay, Leaves, count, bought_ids, smart_connect-charges_once,
  smart_connect-Leaves,
}

abbrev near : Candidate
near = record {
  address = "sentnode1near";
  moniker = "near";
  node_type = 1;
  listed = true;
  is_active = true;
  is_healthy = true;
  latency_ms = some 40;
  probe_failed = false;
  runtime_ok = true;
  signs_replies = true;
}

abbrev far : Candidate
far = record near {
  address = "sentnode1far";
  moniker = "far";
  node_type = 4;
  latency_ms = some 180;
}

abbrev sick : Candidate
sick = record near { address = "sentnode1sick"; moniker = "sick"; is_healthy = false }

abbrev any_node : Options
any_node = record { require_proxy_capable = false; require_signed = true }

-- The order that takes all addresses to be equal.
abbrev no_order : String → String → Bool
no_order x y = true

rank_plan_candidates-IsRanked_example :
    IsRanked no_order (rank_plan_candidates no_order (far ∷ sick ∷ near ∷ []) any_node).0
    × ((c : Candidate)
        → Mem c (rank_plan_candidates no_order (far ∷ sick ∷ near ∷ []) any_node).0
          ↔ (Mem c (far ∷ sick ∷ near ∷ []) × IsOffered any_node c))
rank_plan_candidates-IsRanked_example =
    rank_plan_candidates-IsRanked no_order (λ x y e. refl) (λ x y z e f. refl)
      (far ∷ sick ∷ near ∷ []) any_node

-- Each purchase works; the first handshake fails and is refunded, the next one succeeds.
abbrev flaky : ℕ → Answers String
flaky n = record {
  preflight_passes = λ c. true;
  resolve = λ c. some "https://node:8585";
  subscribe = λ c. ok ("21", some "5");
  start = λ id c. ok "22";
  lands = λ c. none;
  establish = λ session_id url. answer n;
}
  where
    answer : ℕ → Result Bool String
    answer zero = err true
    answer (suc _) = ok "[Interface]"

smart_connect-charges_once_example :
    charges (smart_connect flaky (near ∷ far ∷ []) none).1.log ≤ still_to_pay none
smart_connect-charges_once_example =
    smart_connect-charges_once flaky (near ∷ far ∷ []) none (λ k c. tt)

smart_connect-Leaves_example :
    Leaves
      (smart_connect flaky (near ∷ far ∷ []) none).0
      (smart_connect flaky (near ∷ far ∷ []) none).1.log
    × (count (bought_ids (smart_connect flaky (near ∷ far ∷ []) none).1.log) ≤ max_tx_attempts)
smart_connect-Leaves_example = smart_connect-Leaves flaky (near ∷ far ∷ []) none
