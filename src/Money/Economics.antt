-- ===== src/Money/Economics.antt =====
-- src/shared/provider-economics.ts: what the leased nodes cost, what a plan nets and how many
-- subscribers cover the cost. A text that stands for an amount is the number of its digits, or
-- `none` if it is not made of digits; `none` as a result is that the function throws.
pub mod Accounts
pub mod BreakEven
use katacomb_vpn.Prelude.{
  ℕ, zero, suc, ◌+◌, ◌-◌, ◌*◌, ◌/◌, Bool, true, false, Option, none, some, List, [], ◌∷◌, ltb, ◌==◌,
  if◌then◌else◌, filter, length,
}

pub record LeaseCost : Type 0 where
  pub hourly_price : Option ℕ
  pub hours : ℕ
  pub max_hours : ℕ

pub record Burn : Type 0 where
  pub hourly_udvpn : ℕ
  pub daily_udvpn : ℕ
  pub active_leases : ℕ

pub data BreakEvenResult : Type 0 where
  subscribers : ℕ → BreakEvenResult
  no_burn never : BreakEvenResult

abbrev hours_per_day : ℕ
hours_per_day = 24

abbrev pub dec_one : ℕ
dec_one = 1000000000000000000

-- `none` is that the text is no integer or exceeds the whole.
unfoldable pub parse_dec_share : Option ℕ → Option ℕ
parse_dec_share none = none
parse_dec_share (some share) = if ltb dec_one share then none else some share

abbrev pub is_active_lease : LeaseCost → Bool
is_active_lease l = ltb l.hours l.max_hours

-- The sum of a reduction whose step may throw.
abbrev pub add_price : Option ℕ → ℕ → Option ℕ → Option ℕ
add_price (some price) hours (some sum) = some (sum + price * hours)
add_price _ hours _ = none

abbrev pub sum_hourly : List LeaseCost → Option ℕ
sum_hourly [] = some 0
sum_hourly (l ∷ ls) = add_price l.hourly_price 1 (sum_hourly ls)

abbrev pub sum_committed : List LeaseCost → Option ℕ
sum_committed [] = some 0
sum_committed (l ∷ ls) = add_price l.hourly_price (l.max_hours - l.hours) (sum_committed ls)

abbrev pub burn_of : ℕ → Option ℕ → Option Burn
burn_of count none = none
burn_of count (some hourly) =
    some (record {
      hourly_udvpn = hourly;
      daily_udvpn = hourly * hours_per_day;
      active_leases = count;
    })

unfoldable pub compute_burn : List LeaseCost → Option Burn
compute_burn leases =
    burn_of (length (filter is_active_lease leases)) (sum_hourly (filter is_active_lease leases))

unfoldable pub compute_committed : List LeaseCost → Option ℕ
compute_committed leases = sum_committed (filter is_active_lease leases)

unfoldable pub net_of_staking_share : Option ℕ → ℕ → Option ℕ
net_of_staking_share none share = none
net_of_staking_share (some price) share = some (price * (dec_one - share) / dec_one)

-- A whole number of days; `Number.isInteger` fails on the others, which are `none`.
unfoldable pub break_even_count : ℕ → ℕ → ℕ → ℕ
break_even_count burn days net = (burn * days + net - 1) / net

unfoldable pub compute_break_even : Option ℕ → Option ℕ → Option ℕ → Option BreakEvenResult
compute_break_even (some zero) (some net) days = some no_burn
compute_break_even (some (suc b)) (some zero) days = some never
compute_break_even (some (suc b)) (some (suc n)) (some (suc d)) =
    some (subscribers (break_even_count (suc b) (suc d) (suc n)))
compute_break_even _ _ _ = none

unfoldable pub compute_estimated_revenue : Option ℕ → Option ℕ → Option ℕ
compute_estimated_revenue (some subscriptions) (some net) = some (net * subscriptions)
compute_estimated_revenue _ _ = none
