-- ===== src/Money/Economics/Accounts.antt =====
-- How the provider's figures of src/shared/provider-economics.ts hang together.
use native.Mathlib.Nat.{mul-suc, mul-add}
use katacomb_vpn.Prelude.{
  ℕ, suc, ◌+◌, ◌-◌, ◌*◌, ◌/◌, ◌≡◌, ◌≤◌, ◌<◌, refl, sym, ap, ◌∙◌, false, Option, none, some, List,
  [], ◌∷◌, arith, ltb, ltb→lt, if◌then◌else◌, filter, map, Bool-cases, inl, inr,
}
use katacomb_vpn.Money.Economics.{
  LeaseCost, Burn, is_active_lease, add_price, sum_hourly, sum_committed, compute_burn, burn_of,
  compute_committed, net_of_staking_share, dec_one, parse_dec_share,
}

-- An hour passes: the chain bills every active lease for it.
abbrev bill : LeaseCost → LeaseCost
bill l = if is_active_lease l then record l { hours = l.hours + 1 } else l

-- The terms of one active lease, before its hour is billed and after.
hour_lem :
    (price hours max_hours : ℕ)
    → hours < max_hours
    → price * (max_hours - hours) ≡ price * (max_hours - (hours + 1)) + price
hour_lem price hours max_hours h =
    let step : max_hours - hours ≡ suc (max_hours - (hours + 1)) = omega arith in
    ap (λ n. price * n) step ∙ mul-suc price (max_hours - (hours + 1))

add_price_cases :
    (o : Option ℕ) (hours : ℕ) (rest : Option ℕ) (total : ℕ)
    → add_price o hours rest ≡ some total
    → (price sum : ℕ) × (o ≡ some price) × (rest ≡ some sum) × (total ≡ sum + price * hours)
add_price_cases none hours rest total e = cc
add_price_cases (some p) hours none total e = cc
add_price_cases (some p) hours (some sum) total e = (p, sum, refl, refl, ground arith)

-- The committed money after the lease `l` is billed and the rest commits `rest`.
billed_head :
    (price hours max_hours rest : ℕ) (ls : List LeaseCost)
    → hours < max_hours
    → sum_committed (filter is_active_lease ls) ≡ some rest
    → sum_committed (
        filter is_active_lease
          (record { hourly_price = some price; hours = hours + 1; max_hours = max_hours } ∷ ls))
      ≡ some (rest + price * (max_hours - (hours + 1)))
billed_head price hours max_hours rest ls h e = elim (Bool-cases (ltb (hours + 1) max_hours)) [
  | inl t ↦ rw (t, e) refl
  | inr t ↦ rw (t, e) (ap some (last (omega (arith, leb_last t))))
]
  where
    leb_last : ltb (hours + 1) max_hours ≡ false → max_hours ≤ hours + 1
    leb_last t = ground arith

    last : max_hours - (hours + 1) ≡ 0 → rest ≡ rest + price * (max_hours - (hours + 1))
    last z = rw z (omega arith)

abbrev Billed : List LeaseCost → Type 0
Billed ls =
    (burn committed : ℕ)
    → sum_hourly (filter is_active_lease ls) ≡ some burn
    → sum_committed (filter is_active_lease ls) ≡ some committed
    → (rest : ℕ) × (sum_committed (filter is_active_lease (map bill ls)) ≡ some rest)
      × (rest + burn ≡ committed)

Billed-bill : (ls : List LeaseCost) → Billed ls
Billed-bill [] burn committed e f = (0, refl, ground arith)
Billed-bill (l ∷ ls) burn committed e f = elim (Bool-cases (is_active_lease l)) [
  | inr off ↦
      let (rest, eq, sum) = Billed-bill ls burn committed (rw off at e) (rw off at f) in
      (rest, rw off (rw off eq), sum)
  | inl on ↦
      let (p, b, has_price, eb, tb) = add_price_cases l.hourly_price 1 _ burn (rw on at e) in
      let (q, c, has_price', ec, tc) =
        add_price_cases l.hourly_price (l.max_hours - l.hours) _ committed (rw on at f) in
      let (rest, eq, sum) = Billed-bill ls b c eb ec in
      let same : q ≡ p = cc in
      let hour = hour_lem p l.hours l.max_hours (ltb→lt l.hours l.max_hours on) in
      (
        rest + p * (l.max_hours - (l.hours + 1)),
        rw on (
            rw has_price (
              billed_head p l.hours l.max_hours rest (map bill ls) (ltb→lt l.hours l.max_hours on)
                eq)),
        omega (arith, sum, tb, rw (same, hour) at tc),
      )
]

burn_of-some :
    (count : ℕ) (o : Option ℕ) (b : Burn)
    → burn_of count o ≡ some b
    → (o ≡ some b.hourly_udvpn) × (b.daily_udvpn ≡ b.hourly_udvpn * 24)
burn_of-some count none b e = cc
burn_of-some count (some hourly) b e = ground arith

-- The burn and the committed money are one account: when an hour passes on every active lease, what
-- is committed goes down by exactly the hourly burn, and a day's burn is that of its hours.
compute_committed-bill :
    (leases : List LeaseCost) (b : Burn) (committed : ℕ)
    → compute_burn leases ≡ some b
    → compute_committed leases ≡ some committed
    → ((rest : ℕ) × (compute_committed (map bill leases) ≡ some rest)
        × (rest + b.hourly_udvpn ≡ committed))
      × (b.daily_udvpn ≡ b.hourly_udvpn * 24)
unfolding compute_burn compute_committed
compute_committed-bill leases b committed e f =
    let (hourly, daily) = burn_of-some _ _ b e in
    (Billed-bill leases b.hourly_udvpn committed hourly f, daily)

-- The net price is the part of the price that the staking share leaves, rounded down, and never more
-- than the price.
pub net_of_staking_share_floor :
    (price share : ℕ) (raw : Option ℕ)
    → parse_dec_share raw ≡ some share
    → (net : ℕ) × (net_of_staking_share (some price) share ≡ some net)
      × (net * dec_one + price * share ≤ price * dec_one)
      × (price * dec_one < suc net * dec_one + price * share)
      × (net ≤ price)
unfolding net_of_staking_share parse_dec_share
net_of_staking_share_floor price share none e = cc
net_of_staking_share_floor price share (some raw) e =
    let few : share ≤ dec_one = ground arith in
    let split : price * (dec_one - share) + price * share ≡ price * dec_one =
      sym (mul-add price (dec_one - share) share) ∙ ap (λ n. price * n) (omega arith) in
    (price * (dec_one - share) / dec_one, refl, omega arith, omega arith, omega arith)
