-- ===== src/Hops/Rows.antt =====
-- src/renderer/utils/chain-node.ts: what a node's row says of it as a hop of a chain. The title of a
-- row, which is text, is left out.
use katacomb_vpn.Prelude.{
  ℕ, ◌≡◌, ◌≤◌, ◌↔◌, Bool, true, false, not, ◌&&◌, Option, none, some, arith, leb, ◌==◌,
  if◌then◌else◌, List, [], ◌∷◌, any,
}

pub data ChainRole : Type 0 where
  entry_hop exit_hop : ChainRole

-- `major` is what `parseInt` reads before the first point of the version, zero if nothing.
pub record SentNode : Type 0 where
  pub node_type : ℕ
  pub is_active : Bool
  pub is_healthy : Bool
  pub major : ℕ

pub data Security : Type 0 where
  reality tls : Security

pub record ChainEligibility : Type 0 where
  pub reachable : Bool
  pub entry : Bool
  pub exit : Bool
  pub entry_security : Option Security
  pub exit_security : Option Security

abbrev chainable_types : List ℕ
chainable_types = 2 ∷ 4 ∷ []

unfoldable is_chainable : SentNode → Bool
is_chainable n = any (λ t. t == n.node_type) chainable_types && (n.is_active && n.is_healthy)

abbrev pub is_checkable : SentNode → Bool
is_checkable n = leb 9 n.major

-- The badges; `too_old` shows the version.
pub data Badge : Type 0 where
  too_old checking unknown no_tls no_tls_tcp : Badge
  wrapped : ChainRole → Security → Badge

pub data Tone : Type 0 where
  success warning danger muted : Tone

pub record ChainRowState : Type 0 where
  pub selectable : Bool
  pub badge : Badge
  pub tone : Tone

abbrev serves : ChainRole → ChainEligibility → Bool
serves entry_hop g = g.entry
serves exit_hop g = g.exit

abbrev security_of : ChainRole → ChainEligibility → Option Security
security_of entry_hop g = g.entry_security
security_of exit_hop g = g.exit_security

-- `security === 'reality' ? 'Reality' : 'TLS'`
abbrev wrapping : Option Security → Security
wrapping (some reality) = reality
wrapping _ = tls

abbrev refused_badge : ChainRole → Badge
refused_badge entry_hop = no_tls
refused_badge exit_hop = no_tls_tcp

abbrev graded_row : ChainRole → Option ChainEligibility → ChainRowState
graded_row role none = record { selectable = false; badge = checking; tone = muted }
graded_row role (some g) =
    if not g.reachable
    then record { selectable = false; badge = unknown; tone = warning }
    else if serves role g
    then record {
      selectable = true;
      badge = wrapped role (wrapping (security_of role g));
      tone = success;
    }
    else record { selectable = false; badge = refused_badge role; tone = danger }

unfoldable pub chain_row_state : SentNode → Option ChainEligibility → ChainRole → ChainRowState
chain_row_state n grade role =
    if is_checkable n
    then graded_row role grade
    else record { selectable = false; badge = too_old; tone = muted }

abbrev graded_rank : ChainRole → Option ChainEligibility → ℕ
graded_rank role none = 1
graded_rank role (some g) = if not g.reachable then 2 else if serves role g then 0 else 3

unfoldable pub chain_row_rank : SentNode → Option ChainEligibility → ChainRole → ℕ
chain_row_rank n grade role = if is_checkable n then graded_rank role grade else 4

unfoldable pub is_verified_for : Option ChainEligibility → ChainRole → Bool
is_verified_for none role = false
is_verified_for (some g) role = if g.reachable then serves role g else false

-- A row may be picked only on positive evidence: exactly if the node can be checked, was checked and
-- serves the role. Such rows are exactly those of rank 0, before all others, and those shown as a
-- success; a row known to fail comes after one that is only unproven, and one that cannot be checked
-- comes last.
pub chain_row_rank-zero_iff :
    (n : SentNode) (grade : Option ChainEligibility) (role : ChainRole)
    → (((chain_row_state n grade role).selectable ≡ true)
        ↔ ((is_checkable n ≡ true) × (is_verified_for grade role ≡ true)))
      × ((chain_row_rank n grade role ≡ 0) ↔ ((chain_row_state n grade role).selectable ≡ true))
      × (((chain_row_state n grade role).tone ≡ success)
          ↔ ((chain_row_state n grade role).selectable ≡ true))
      × ((chain_row_rank n grade role ≡ 3) ↔ ((chain_row_state n grade role).tone ≡ danger))
      × ((chain_row_rank n grade role ≡ 4) ↔ (is_checkable n ≡ false))
      × (chain_row_rank n grade role ≤ 4)
unfolding chain_row_state chain_row_rank is_verified_for
chain_row_rank-zero_iff n none role =
    (ground arith, ground arith, ground arith, ground arith, ground arith, ground arith)
chain_row_rank-zero_iff n (some g) entry_hop =
    (ground arith, ground arith, ground arith, ground arith, ground arith, ground arith)
chain_row_rank-zero_iff n (some g) exit_hop =
    (ground arith, ground arith, ground arith, ground arith, ground arith, ground arith)
