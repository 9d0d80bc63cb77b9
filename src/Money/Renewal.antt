-- ===== src/Money/Renewal.antt =====
-- src/shared/renewal-policy.ts: whether the chain lets a lease renew. A price is the number of its
-- digits, or `none` for a text that is no number.
use katacomb_vpn.Prelude.{
  ℕ, ◌≡◌, ◌≤◌, ◌↔◌, ◌≢◌, ◌⊎◌, Bool, true, false, not, Option, none, some, arith, ltb, leb, ◌==◌,
}

-- `RENEWAL_POLICY` and whatever other number a lease may hold.
pub data RenewalPolicy : Type 0 where
  unspecified if_lesser if_lesser_or_equal if_equal if_not_equal if_greater if_greater_or_equal
        always other :
      RenewalPolicy

abbrev pub allows : RenewalPolicy → ℕ → ℕ → Bool
allows if_lesser current stored = ltb current stored
allows if_lesser_or_equal current stored = leb current stored
allows if_equal current stored = current == stored
allows if_not_equal current stored = not (current == stored)
allows if_greater current stored = ltb stored current
allows if_greater_or_equal current stored = leb stored current
allows always current stored = true
allows unspecified current stored = false
allows other current stored = false

unfoldable renewal_policy_allows : RenewalPolicy → Option ℕ → Option ℕ → Bool
renewal_policy_allows p (some current) (some stored) = allows p current stored
renewal_policy_allows p _ _ = false

-- What `renewalPolicyRefusal` says.
pub data Refusal : Type 0 where
  never_renews no_price price_moved : Refusal

abbrev refusal_for : RenewalPolicy → Option ℕ → Option ℕ → Refusal
refusal_for unspecified _ _ = never_renews
refusal_for p (some _) (some _) = price_moved
refusal_for p _ _ = no_price

unfoldable renewal_policy_refusal : RenewalPolicy → Option ℕ → Option ℕ → Option Refusal
renewal_policy_refusal p current stored = elim (renewal_policy_allows p current stored) [
  | true ↦ none
  | false ↦ some (refusal_for p current stored)
]

-- The policies that a lease may be bought with, by `RENEWAL_POLICY_OPTIONS`.
abbrev is_offered : RenewalPolicy → Bool
is_offered always = true
is_offered if_lesser_or_equal = true
is_offered if_lesser = true
is_offered unspecified = true
is_offered _ = false

-- No policy that is offered renews only because the price went up: what it allows at some price it
-- allows at every lower one.
renewal_policy_allows_cheaper :
    (p : RenewalPolicy) (current cheaper : ℕ) (stored : Option ℕ)
    → is_offered p ≡ true
    → cheaper ≤ current
    → renewal_policy_allows p (some current) stored ≡ true
    → renewal_policy_allows p (some cheaper) stored ≡ true
unfolding renewal_policy_allows
renewal_policy_allows_cheaper p current cheaper none o h k = ground arith
renewal_policy_allows_cheaper p current cheaper (some stored) o h k = ground arith

-- The refusal is given exactly when the renewal is not allowed, and it is right: `never renews` is
-- said of the policy without a choice alone, a missing price when one is missing, and a moved price
-- only where both are known and the policy is one that compares, or an unknown one.
renewal_policy_refusal_iff :
    (p : RenewalPolicy) (current stored : Option ℕ)
    → ((renewal_policy_refusal p current stored ≡ none)
        ↔ (renewal_policy_allows p current stored ≡ true))
      × ((renewal_policy_refusal p current stored ≡ some never_renews) ↔ (p ≡ unspecified))
      × (renewal_policy_refusal p current stored ≡ some no_price
          → (current ≡ none) ⊎ (stored ≡ none))
      × (renewal_policy_refusal p current stored ≡ some price_moved
          → (p ≢ always) × (current ≢ none) × (stored ≢ none))
unfolding renewal_policy_refusal renewal_policy_allows
renewal_policy_refusal_iff p none none =
    (ground arith, ground arith, λ h. ground arith, λ h. ground arith)
renewal_policy_refusal_iff p none (some s) =
    (ground arith, ground arith, λ h. ground arith, λ h. ground arith)
renewal_policy_refusal_iff p (some c) none =
    (ground arith, ground arith, λ h. ground arith, λ h. ground arith)
renewal_policy_refusal_iff p (some c) (some s) =
    (ground arith, ground arith, λ h. ground arith, λ h. ground arith)
