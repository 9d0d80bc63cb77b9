-- ===== src/Money/Economics/BreakEven.antt =====
-- The break-even of src/shared/provider-economics.ts is the least number of subscribers that covers
-- the cost.
use native.Mathlib.Nat.{div-add-mod, mod-lt, mul-suc, mul-le-mul_left, zero-lt-suc}
use katacomb_vpn.Prelude.{
  ℕ, zero, suc, ◌+◌, ◌-◌, ◌*◌, ◌/◌, ◌≡◌, ◌≤◌, ◌<◌, ◌↔◌, ◌≢◌, refl, sym, subst, some, arith,
}
use katacomb_vpn.Money.Economics.{
  subscribers, no_burn, never, break_even_count, compute_break_even, compute_estimated_revenue,
}

-- A quotient rounded up is the least multiplier that reaches the number.
ceiling_reaches : (x n : ℕ) → x ≤ suc n * ((x + suc n - 1) / suc n)
ceiling_reaches x n =
    let whole = div-add-mod (x + suc n - 1) (suc n) in
    let small = mod-lt (x + suc n - 1) (zero-lt-suc n) in omega (arith, whole, small)

ceiling_least : (x n k : ℕ) → k < (x + suc n - 1) / suc n → suc n * k < x
ceiling_least x n k h =
    let whole = div-add-mod (x + suc n - 1) (suc n) in
    let more : suc n * suc k ≤ suc n * ((x + suc n - 1) / suc n) = mul-le-mul_left (suc n) h in
    let step = mul-suc (suc n) k in omega (arith, whole, more, step)

-- The count of subscribers covers the burn of the plan's days with what they pay, as
-- `computeEstimatedRevenue` counts it, and no smaller count does.
compute_break_even-IsLeast :
    (burn net days count : ℕ)
    → compute_break_even (some burn) (some net) (some days) ≡ some (subscribers count)
    → ((revenue : ℕ) × (compute_estimated_revenue (some count) (some net) ≡ some revenue)
        × (burn * days ≤ revenue))
      × ((fewer revenue : ℕ)
          → fewer < count
          → compute_estimated_revenue (some fewer) (some net) ≡ some revenue
          → revenue < burn * days)
unfolding compute_break_even compute_estimated_revenue break_even_count
compute_break_even-IsLeast zero net days count e = absurd (ground arith)
compute_break_even-IsLeast (suc b) zero days count e = absurd (ground arith)
compute_break_even-IsLeast (suc b) (suc n) zero count e = absurd (ground arith)
compute_break_even-IsLeast (suc b) (suc n) (suc d) count e = (
  (suc n * count, refl, rw (sym same) (ceiling_reaches (suc b * suc d) n)),
  λ fewer revenue h r.
      subst (λ x. x < suc b * suc d) (paid fewer revenue r)
        (ceiling_least (suc b * suc d) n fewer (subst (λ x. fewer < x) (sym same) h)),
)
  where
    same : (suc b * suc d + suc n - 1) / suc n ≡ count
    same = ground arith

    paid : (fewer revenue : ℕ) → some (suc n * fewer) ≡ some revenue → suc n * fewer ≡ revenue
    paid fewer revenue r = cc

-- No burn is exactly no cost, and a plan never pays exactly if there is a cost and it nets nothing;
-- then no number of subscribers covers the cost of a day.
compute_break_even_never :
    (burn net days : ℕ)
    → ((compute_break_even (some burn) (some net) (some days) ≡ some no_burn) ↔ (burn ≡ 0))
      × ((compute_break_even (some burn) (some net) (some days) ≡ some never)
          ↔ ((burn ≢ 0) × (net ≡ 0)))
      × (compute_break_even (some burn) (some net) (some days) ≡ some never
          → (count revenue : ℕ) → compute_estimated_revenue (some count) (some net) ≡ some revenue
          → revenue < burn)
unfolding compute_break_even compute_estimated_revenue
compute_break_even_never zero net days = (ground arith, ground arith, λ e. absurd (ground arith))
compute_break_even_never (suc b) zero days =
    (ground arith, ground arith, λ e count revenue r. ground arith)
compute_break_even_never (suc b) (suc n) zero =
    (ground arith, ground arith, λ e. absurd (ground arith))
compute_break_even_never (suc b) (suc n) (suc d) =
    (ground arith, ground arith, λ e. absurd (ground arith))
