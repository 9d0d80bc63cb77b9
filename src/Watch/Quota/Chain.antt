-- ===== src/Watch/Quota/Chain.antt =====
-- The verdict over both hops of a chain (`currentQuotaVerdict` of src/main/ipc-handlers.ts).
use katacomb_vpn.Prelude.{ℕ, ◌*◌, ◌≡◌, ◌≤◌, ◌<◌, ◌⊎◌, refl, some, arith}
use katacomb_vpn.Watch.Quota.{
  ActiveQuota, QuotaVerdict, Scored, verdict_for, quota_level_rank, quota_pct, worse, score,
  current_quota_verdict,
}

-- Of a lower level, or of the same one with no greater part used.
abbrev pub IsNoWorse : QuotaVerdict → QuotaVerdict → Type 0
IsNoWorse v w =
    (quota_level_rank v < quota_level_rank w)
    ⊎ ((quota_level_rank v ≡ quota_level_rank w)
        × ((quota_pct v).used * (quota_pct w).cap ≤ (quota_pct w).used * (quota_pct v).cap))

worse-IsNoWorse :
    (a b : Scored)
    → ((worse a b ≡ a) ⊎ (worse a b ≡ b))
      × IsNoWorse a.verdict (worse a b).verdict
      × IsNoWorse b.verdict (worse a b).verdict
worse-IsNoWorse a b = ground arith

-- With two hops the verdict is that of one of them, under the name of its own session, and neither
-- hop is worse: each is of a lower level, or of the same level with no greater part used.
pub current_quota_verdict-IsWorst :
    (connected rx : ℕ) (entry exit : ActiveQuota)
    → (s : Scored) × (current_quota_verdict connected rx (some entry) (some exit) ≡ some s)
      × ((s ≡ score connected rx entry) ⊎ (s ≡ score connected rx exit))
      × IsNoWorse (verdict_for connected rx entry) s.verdict
      × IsNoWorse (verdict_for connected rx exit) s.verdict
unfolding current_quota_verdict
current_quota_verdict-IsWorst connected rx entry exit =
    let (which, above, above') =
      worse-IsNoWorse (score connected rx entry) (score connected rx exit) in
    (worse (score connected rx entry) (score connected rx exit), refl, which, above, above')
