-- ===== src/Money/Funds.antt =====
-- src/shared/funds.ts: what the wallet holds against what an operation costs. A balance's text is
-- given as the number that `parseInt` reads, if it reads one that is finite; sums stay far below the
-- bound of safe integers.
use katacomb_vpn.Prelude.{
  ℕ, ◌+◌, ◌-◌, ◌≡◌, ◌≤◌, ◌<◌, ◌↔◌, ◌⊎◌, Bool, true, false, not, ◌&&◌, Option, none, some, List,
  arith, leb, ltb, if◌then◌else◌, find,
}

abbrev fee_reserve_udvpn : ℕ
fee_reserve_udvpn = 50000

-- `denom === 'udvpn'`, and the amount as `parseInt` reads it.
pub record Balance : Type 0 where
  pub is_udvpn : Bool
  pub amount : Option ℕ

abbrev amount_or_zero : Option Balance → ℕ
amount_or_zero none = 0
amount_or_zero (some b) = elim b.amount [ none ↦ 0 | some n ↦ n ]

unfoldable udvpn_of : List Balance → ℕ
udvpn_of bs = amount_or_zero (find (λ b. b.is_udvpn) bs)

pub record FundsCheck : Type 0 where
  pub ok : Bool
  pub available : ℕ
  pub cost : ℕ
  pub required : ℕ
  pub shortfall : ℕ

-- `Math.max(0, required - available)` is the subtraction on ℕ.
unfoldable check_funds : ℕ → ℕ → FundsCheck
check_funds available cost = record {
  ok = leb (cost + fee_reserve_udvpn) available;
  available = available;
  cost = cost;
  required = cost + fee_reserve_udvpn;
  shortfall = cost + fee_reserve_udvpn - available;
}

-- The deposit of the chain's parameters: its amount if that is a text of digits.
pub record Deposit : Type 0 where
  pub in_udvpn : Bool
  pub digits : Option ℕ

-- `Number.MAX_SAFE_INTEGER`.
abbrev max_safe_amount : ℕ
max_safe_amount = 9007199254740991

-- `none` is that it throws.
unfoldable registration_deposit_cost : Deposit → Option ℕ
registration_deposit_cost d = elim d.digits [
  | none ↦ none
  | some n ↦
      if ltb max_safe_amount n then none else if ltb 0 n && not d.in_udvpn then none else some n
]

-- Adding the reported shortfall, and nothing less, makes the same check pass.
check_funds_shortfall :
    (available cost : ℕ)
    → ((check_funds (available + (check_funds available cost).shortfall) cost).ok ≡ true)
      × ((more : ℕ)
          → more < (check_funds available cost).shortfall
          → (check_funds (available + more) cost).ok ≡ false)
      × (((check_funds available cost).ok ≡ true) ↔ ((check_funds available cost).shortfall ≡ 0))
unfolding check_funds
check_funds_shortfall available cost = (ground arith, λ more h. ground arith, ground arith)

-- A registration is priced only if its deposit can be checked against the wallet: a price that comes
-- back is the deposit's own, a safe integer, and in udvpn unless it is zero. A deposit that is so
-- is never refused.
registration_deposit_cost_iff :
    (d : Deposit) (n : ℕ)
    → (registration_deposit_cost d ≡ some n)
      ↔ ((d.digits ≡ some n) × (n ≤ max_safe_amount) × ((n ≡ 0) ⊎ (d.in_udvpn ≡ true)))
unfolding registration_deposit_cost
registration_deposit_cost_iff d n = ground arith
