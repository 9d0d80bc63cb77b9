-- ===== src/Hops/Tests.antt =====
-- Nodes and hosts at which the theorems about the choice of a chain's nodes are applied.
use text.Mathlib.TextEquality.{eq_iff}
use text.Mathlib.Text.{◌==◌}
use katacomb_vpn.Prelude.{
  ◌≡◌, ◌≤◌, ◌<◌, ◌↔◌, refl, String, true, false, none, some, List, [], ◌∷◌, ◌++◌, length,
}
use katacomb_vpn.Hops.Rows.{
  ChainEligibility, SentNode, exit_hop, tls, success, danger, is_checkable, is_verified_for,
  chain_row_state, chain_row_rank, chain_row_rank-zero_iff,
}
use katacomb_vpn.Hops.Diversity.{Host, Hop, slash24, shared_domain, shared_domain_sound}

abbrev a_node : SentNode
a_node = record { node_type = 4; is_active = true; is_healthy = true; major = 9 }

abbrev a_grade : ChainEligibility
a_grade = record {
  reachable = true;
  entry = true;
  exit = true;
  entry_security = some tls;
  exit_security = some tls;
}

chain_row_rank-zero_iff_example :
    (((chain_row_state a_node (some a_grade) exit_hop).selectable ≡ true)
      ↔ ((is_checkable a_node ≡ true) × (is_verified_for (some a_grade) exit_hop ≡ true)))
    × ((chain_row_rank a_node (some a_grade) exit_hop ≡ 0)
        ↔ ((chain_row_state a_node (some a_grade) exit_hop).selectable ≡ true))
    × (((chain_row_state a_node (some a_grade) exit_hop).tone ≡ success)
        ↔ ((chain_row_state a_node (some a_grade) exit_hop).selectable ≡ true))
    × ((chain_row_rank a_node (some a_grade) exit_hop ≡ 3)
        ↔ ((chain_row_state a_node (some a_grade) exit_hop).tone ≡ danger))
    × ((chain_row_rank a_node (some a_grade) exit_hop ≡ 4) ↔ (is_checkable a_node ≡ false))
    × (chain_row_rank a_node (some a_grade) exit_hop ≤ 4)
chain_row_rank-zero_iff_example = chain_row_rank-zero_iff a_node (some a_grade) exit_hop

-- Two hosts of one operator: nlv2.node.id and hk2.node.id.
abbrev first_host : Host String
first_host = record { labels = "id" ∷ "node" ∷ "nlv2" ∷ []; octets = none }

abbrev second_host : Host String
second_host = record { labels = "id" ∷ "node" ∷ "hk2" ∷ []; octets = none }

abbrev hop_at : Host String → Hop String
hop_at h = record { asn = some "64500"; host = some h; country = some "Netherlands" }

shared_domain_sound_example :
    (h k : Host String) × (some first_host ≡ some h)
    × (some second_host ≡ some k)
    × (slash24 h.octets ≡ none)
    × (slash24 k.octets ≡ none)
    × ((rest other : List String) × (h.labels ≡ ("id" ∷ "node" ∷ []) ++ rest)
        × (k.labels ≡ ("id" ∷ "node" ∷ []) ++ other)
        × (0 < length rest)
        × (0 < length other)
        × (2 ≤ length {A = String} ("id" ∷ "node" ∷ [])))
unfolding shared_domain
shared_domain_sound_example =
    shared_domain_sound ◌==◌ eq_iff (some first_host) (some second_host) ("id" ∷ "node" ∷ []) refl
