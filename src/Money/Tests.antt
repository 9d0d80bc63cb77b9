-- ===== src/Money/Tests.antt =====
-- Amounts at which the theorems about the code of src/shared on money are applied.
use katacomb_vpn.Prelude.{ℕ, ◌+◌, ◌*◌, ◌≡◌, ◌≤◌, ◌<◌, refl, false, some, List, [], ◌∷◌, suc}
use katacomb_vpn.Money.Funds.{Deposit}
use katacomb_vpn.Money.Economics.{LeaseCost, net_of_staking_share, parse_dec_share, dec_one}
use katacomb_vpn.Money.Economics.Accounts.{net_of_staking_share_floor}

abbrev free : Deposit
free = record { in_udvpn = false; digits = some 0 }

abbrev leased : List LeaseCost
leased =
    record { hourly_price = some 30; hours = 2; max_hours = 10 }
    ∷ record { hourly_price = some 50; hours = 4; max_hours = 4 }
    ∷ record { hourly_price = some 20; hours = 9; max_hours = 10 }
    ∷ []

net_of_staking_share_floor_example :
    (net : ℕ) × (net_of_staking_share (some 999) 200000000000000000 ≡ some net)
    × (net * dec_one + 999 * 200000000000000000 ≤ 999 * dec_one)
    × (999 * dec_one < suc net * dec_one + 999 * 200000000000000000)
    × (net ≤ 999)
unfolding parse_dec_share
net_of_staking_share_floor_example =
    net_of_staking_share_floor 999 200000000000000000 (some 200000000000000000) refl
