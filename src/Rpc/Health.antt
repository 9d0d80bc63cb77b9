-- ===== src/Rpc/Health.antt =====
-- src/shared/rpc-health.ts: grading a probe, and choosing an endpoint. `null` is `none`; a latency,
-- a height and a block age are natural numbers. `aggregatorHealthy?: boolean` is `Option Bool`.
pub mod Choice
pub mod Switch
pub mod Stability
use text.Mathlib.Text.{◌==◌ as str_eq}
use katacomb_vpn.Prelude.{
  ℕ, ◌+◌, ◌≤◌, ◌<◌, max, String, ◌≡◌, ◌≢◌, Bool, true, false, not, ◌&&◌, ◌||◌, Option, none, some,
  List, [], ◌∷◌, ltb, leb, if◌then◌else◌, filter, find,
}
use katacomb_vpn.Prelude.Sort.{sort, head?}

pub record RpcProbe : Type 0 where
  pub reachable : Bool
  pub latency_ms : Option ℕ
  pub chain_id : Option String
  pub height : Option ℕ
  pub block_age_sec : Option ℕ
  pub error : Option String

pub data RpcState : Type 0 where
  ok degraded down suspended blocked unknown : RpcState

pub record RpcCandidate : Type 0 where
  pub endpoint : String
  pub probe : RpcProbe
  pub aggregator_healthy : Option Bool

abbrev slow_latency_ms : ℕ
slow_latency_ms = 2500

abbrev stale_block_age_sec : ℕ
stale_block_age_sec = 120

abbrev pub expected_chain_id : String
expected_chain_id = "sentinelhub-2"

abbrev pub max_safe_integer : ℕ
max_safe_integer = 9007199254740991

-- `probe.chainId !== null && probe.chainId !== EXPECTED_CHAIN_ID`
abbrev pub is_wrong_chain : Option String → Bool
is_wrong_chain none = false
is_wrong_chain (some id) = not (str_eq id expected_chain_id)

-- `blockAgeSec !== null && blockAgeSec > STALE_BLOCK_AGE_SEC`
abbrev is_lagging : Option ℕ → Bool
is_lagging none = false
is_lagging (some age) = ltb stale_block_age_sec age

-- `latencyMs !== null && latencyMs >= SLOW_LATENCY_MS`
abbrev is_slow : Option ℕ → Bool
is_slow none = false
is_slow (some latency) = leb slow_latency_ms latency

unfoldable pub classify_rpc : RpcProbe → RpcState
classify_rpc p =
    if not p.reachable
    then down
    else if is_wrong_chain p.chain_id
    then down
    else if is_lagging p.block_age_sec
    then degraded
    else if is_slow p.latency_ms
    then degraded
    else ok

pub data DegradedReason : Type 0 where
  lagging slow : DegradedReason

unfoldable degraded_reason : RpcProbe → Option DegradedReason
degraded_reason p =
    if is_lagging p.block_age_sec
    then some lagging
    else if is_slow p.latency_ms
    then some slow
    else none

unfoldable is_chain_unreachable : RpcState → Bool
is_chain_unreachable down = true
is_chain_unreachable blocked = true
is_chain_unreachable _ = false

abbrev pub is_ok : RpcState → Bool
is_ok ok = true
is_ok _ = false

abbrev is_down : RpcState → Bool
is_down down = true
is_down _ = false

-- `state === 'down' || state === 'degraded'`
abbrev pub is_fault : RpcState → Bool
is_fault down = true
is_fault degraded = true
is_fault _ = false

unfoldable pub needs_confirmation : RpcState → RpcState → Bool
needs_confirmation probed published = if is_ok probed then false else not (is_fault published)

-- `aggregatorHealthy !== false`
abbrev not_failing : Option Bool → Bool
not_failing (some false) = false
not_failing _ = true

-- `latencyMs ?? Number.MAX_SAFE_INTEGER`
abbrev pub latency_key : RpcCandidate → ℕ
latency_key c = elim c.probe.latency_ms [ none ↦ max_safe_integer | some latency ↦ latency ]

-- `byLatency(a, b) <= 0`
abbrev pub by_latency : RpcCandidate → RpcCandidate → Bool
by_latency a b = leb (latency_key a) (latency_key b)

abbrev pub is_healthy : RpcCandidate → Bool
is_healthy c = is_ok (classify_rpc c.probe)

-- The filter of `pickBestRpc`.
abbrev pub is_usable : String → RpcCandidate → Bool
is_usable current c =
    not (str_eq c.endpoint current)
    && (not_failing c.aggregator_healthy && not (is_down (classify_rpc c.probe)))

-- `healthy.length > 0 ? healthy : usable`
abbrev pub tier : List RpcCandidate → List RpcCandidate
tier cs = elim (filter is_healthy cs) [ [] ↦ cs | c ∷ rest ↦ c ∷ rest ]

-- `[...tier].sort(byLatency)[0]`
abbrev pub fastest : List RpcCandidate → Option RpcCandidate
fastest cs = head? (sort by_latency (tier cs))

unfoldable pub pick_best_rpc : List RpcCandidate → String → Option RpcCandidate
pick_best_rpc cs current = fastest (filter (is_usable current) cs)

abbrev pub auto_height_tolerance_blocks : ℕ
auto_height_tolerance_blocks = 10

abbrev pub auto_keep_margin_ms : ℕ
auto_keep_margin_ms = 250

-- The heights that the candidates report, `null` left out.
abbrev pub heights : List RpcCandidate → List ℕ
heights [] = []
heights (c ∷ cs) = elim c.probe.height [ none ↦ heights cs | some h ↦ h ∷ heights cs ]

-- `Math.max(...heights)`
abbrev pub max_of : List ℕ → ℕ
max_of [] = 0
max_of (h ∷ hs) = max h (max_of hs)

-- `c.probe.height >= minHeight`, where `minHeight` is the tallest height less the tolerance: the
-- tolerance stands on the left, since the difference may be negative.
abbrev pub near_tallest : ℕ → Option ℕ → Bool
near_tallest tallest none = false
near_tallest tallest (some h) = leb tallest (h + auto_height_tolerance_blocks)

abbrev pub is_expected_chain : Option String → Bool
is_expected_chain none = false
is_expected_chain (some id) = str_eq id expected_chain_id

unfoldable pub qualifies_for_auto : RpcCandidate → ℕ → Bool
qualifies_for_auto c tallest =
    c.probe.reachable
    && (is_expected_chain c.probe.chain_id
        && (not_failing c.aggregator_healthy && near_tallest tallest c.probe.height))

abbrev pub is_other : String → ℕ → RpcCandidate → Bool
is_other current tallest c = not (str_eq c.endpoint current) && qualifies_for_auto c tallest

-- `best + AUTO_KEEP_MARGIN_MS < current`, and `null` when either latency is unknown.
abbrev pub clearly_faster : Option ℕ → Option ℕ → Bool
clearly_faster (some b) (some c) = ltb (b + auto_keep_margin_ms) c
clearly_faster _ _ = false

-- The decision once `best` is known and the current endpoint qualifies.
abbrev pub beats : RpcCandidate → RpcCandidate → Bool
beats best current =
    if is_healthy current
    then is_healthy best && clearly_faster best.probe.latency_ms current.probe.latency_ms
    else is_healthy best

-- The decision against the current endpoint, which may be missing or may not qualify.
abbrev pub keep_or_switch : ℕ → Option RpcCandidate → RpcCandidate → Option String
keep_or_switch tallest none best = some best.endpoint
keep_or_switch tallest (some c) best =
    if not (qualifies_for_auto c tallest)
    then some best.endpoint
    else if beats best c
    then some best.endpoint
    else none

abbrev pub pick_among : List RpcCandidate → String → ℕ → Option String
pick_among cs current tallest = elim (fastest (filter (is_other current tallest) cs)) [
  | none ↦ none
  | some best ↦ keep_or_switch tallest (find (λ c. str_eq c.endpoint current) cs) best
]

unfoldable pub pick_auto_rpc : List RpcCandidate → String → Option String
pick_auto_rpc cs current = elim (heights cs) [
  | [] ↦ none
  | h ∷ hs ↦ pick_among cs current (max_of (h ∷ hs))
]
