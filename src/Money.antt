-- ===== src/Money.antt =====
-- What things cost: the wallet's checks (src/shared/funds.ts), the provider's figures
-- (src/shared/provider-economics.ts) and the renewal of leases (src/shared/renewal-policy.ts).
pub mod Funds
pub mod Economics
pub mod Renewal
mod Tests
