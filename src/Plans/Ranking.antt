-- ===== src/Plans/Ranking.antt =====
-- src/main/plans/plan-connect.ts: the candidates that may be bought and their order. The order of
-- addresses, `localeCompare`, is a parameter.
pub mod Order
use katacomb_vpn.Prelude.{
  ℕ, zero, suc, ◌+◌, ◌/◌, String, Bool, true, false, not, ◌&&◌, Option, none, some, List, [], ◌∷◌,
  ◌==◌, ltb, any, if◌then◌else◌,
}
use katacomb_vpn.Prelude.Sort.{sort}

-- `listed` is `api !== ''`.
pub record Candidate : Type 0 where
  pub address : String
  pub moniker : String
  pub node_type : ℕ
  pub listed : Bool
  pub is_active : Bool
  pub is_healthy : Bool
  pub latency_ms : Option ℕ
  pub probe_failed : Bool
  pub runtime_ok : Bool
  pub signs_replies : Bool

-- The reasons for which a candidate is not offered, in the order in which they are tested.
pub data Reason : Type 0 where
  not_listed unknown_protocol cannot_run not_active unhealthy no_answer no_proxy_mode unsigned :
      Reason

pub record Options : Type 0 where
  pub require_proxy_capable : Bool
  pub require_signed : Bool

abbrev protocol_preference : List ℕ
protocol_preference = 1 ∷ 5 ∷ 4 ∷ 2 ∷ 6 ∷ 3 ∷ []

abbrev latency_bucket_ms : ℕ
latency_bucket_ms = 25

abbrev proxy_capable_types : List ℕ
proxy_capable_types = 2 ∷ 4 ∷ 6 ∷ []

abbrev connectable_types : List ℕ
connectable_types = 1 ∷ 2 ∷ 3 ∷ 4 ∷ 5 ∷ 6 ∷ []

unfoldable pub exclusion_reason : Candidate → Options → Option Reason
exclusion_reason c o =
    if not c.listed
    then some not_listed
    else if not (any (λ t. t == c.node_type) connectable_types)
    then some unknown_protocol
    else if not c.runtime_ok
    then some cannot_run
    else if not c.is_active
    then some not_active
    else if not c.is_healthy
    then some unhealthy
    else if c.probe_failed
    then some no_answer
    else if o.require_proxy_capable && not (any (λ t. t == c.node_type) proxy_capable_types)
    then some no_proxy_mode
    else if o.require_signed && not c.signs_replies
    then some unsigned
    else none

-- `Number.MAX_SAFE_INTEGER`.
abbrev pub max_safe_integer : ℕ
max_safe_integer = 9007199254740991

unfoldable pub latency_bucket : Candidate → ℕ
latency_bucket c = elim c.latency_ms [ none ↦ max_safe_integer | some ms ↦ ms / latency_bucket_ms ]

-- `indexOf`, or the length when there is none.
abbrev index_of : ℕ → List ℕ → ℕ
index_of x [] = 0
index_of x (y ∷ ys) = if x == y then 0 else suc (index_of x ys)

unfoldable pub protocol_rank : ℕ → ℕ
protocol_rank t = index_of t protocol_preference

-- The loop that splits the candidates.
unfoldable pub eligible : List Candidate → Options → List Candidate
eligible [] o = []
eligible (c ∷ cs) o = elim (exclusion_reason c o) [
  | none ↦ c ∷ eligible cs o
  | some _ ↦ eligible cs o
]

unfoldable pub excluded : List Candidate → Options → List (String × Reason)
excluded [] o = []
excluded (c ∷ cs) o = elim (exclusion_reason c o) [
  | none ↦ excluded cs o
  | some r ↦ (c.address, r) ∷ excluded cs o
]

module _ (not_after : String → String → Bool) where
  -- The comparison of the sort, at most zero.
  unfoldable pub goes_before : Candidate → Candidate → Bool
  goes_before a b =
      if ltb (latency_bucket a) (latency_bucket b)
      then true
      else if ltb (latency_bucket b) (latency_bucket a)
      then false
      else if ltb (protocol_rank a.node_type) (protocol_rank b.node_type)
      then true
      else if ltb (protocol_rank b.node_type) (protocol_rank a.node_type)
      then false
      else not_after a.address b.address

  unfoldable pub rank_plan_candidates :
      List Candidate → Options → List Candidate × List (String × Reason)
  rank_plan_candidates cs o = (sort goes_before (eligible cs o), excluded cs o)
