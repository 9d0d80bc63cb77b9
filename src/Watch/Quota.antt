-- ===== src/Watch/Quota.antt =====
-- `evaluateQuota` of src/main/vpn/connect-decisions.ts and `currentQuotaVerdict`,
-- `quotaFromSessionRow` of src/main/ipc-handlers.ts. Durations are in milliseconds, so that the
-- fractions of a second that the tunnel's clock counts are numbers; a percentage is kept as the
-- fraction that it is, and two are compared by cross multiplication.
pub mod Verdict
pub mod Chain
use katacomb_vpn.Prelude.{
  ℕ, zero, suc, ◌+◌, ◌-◌, ◌*◌, String, Bool, true, false, not, ◌&&◌, ◌||◌, Option, none, some, ltb,
  leb, ◌==◌, if◌then◌else◌, is_none,
}

pub record QuotaInput : Type 0 where
  pub max_duration : Option ℕ
  pub baseline_duration : ℕ
  pub connected : ℕ
  pub max_bytes : ℕ
  pub baseline_bytes : ℕ
  pub live_rx_bytes : ℕ

pub data QuotaReason : Type 0 where
  time data_used : QuotaReason

-- The part `used / cap`.
pub record Share : Type 0 where
  pub used : ℕ
  pub cap : ℕ

pub data QuotaVerdict : Type 0 where
  fine : Share → QuotaVerdict
  warn : Share → QuotaReason → ℕ → QuotaVerdict
  expired : QuotaReason → QuotaVerdict

abbrev quota_warn_pct : ℕ
quota_warn_pct = 90

-- Whether the part is at least so many percent.
abbrev pub reaches : Share → ℕ → Bool
reaches s pct = leb (pct * s.cap) (100 * s.used)

abbrev pub exceeds : Share → Share → Bool
exceeds a b = ltb (b.used * a.cap) (a.used * b.cap)

-- `timePct` and `dataPct`: `none` without the cap.
abbrev pub part_of : ℕ → ℕ → Option Share
part_of used zero = none
part_of used (suc n) = some (record { used = used; cap = suc n })

abbrev pub time_cap : QuotaInput → ℕ
time_cap q = elim q.max_duration [ none ↦ 0 | some d ↦ d ]

abbrev pub used_time : QuotaInput → ℕ
used_time q = q.baseline_duration + q.connected

abbrev pub used_bytes : QuotaInput → ℕ
used_bytes q = q.baseline_bytes + q.live_rx_bytes

abbrev remaining : QuotaInput → QuotaReason → ℕ
remaining q time = time_cap q - used_time q
remaining q data_used = q.max_bytes - used_bytes q

abbrev pub grade : QuotaInput → QuotaReason → Share → QuotaVerdict
grade q reason s =
    if reaches s 100
    then expired reason
    else if reaches s quota_warn_pct
    then warn s reason (remaining q reason)
    else fine s

-- The worst of the two decides.
abbrev pub decide_worst : QuotaInput → Option Share → Option Share → QuotaVerdict
decide_worst q none none = fine (record { used = 0; cap = 1 })
decide_worst q (some t) none = grade q time t
decide_worst q none (some d) = grade q data_used d
decide_worst q (some t) (some d) = if exceeds d t then grade q data_used d else grade q time t

unfoldable pub evaluate_quota : QuotaInput → QuotaVerdict
evaluate_quota q =
    decide_worst q (part_of (used_time q) (time_cap q)) (part_of (used_bytes q) q.max_bytes)

pub record ActiveQuota : Type 0 where
  pub session_id : String
  pub quota_max_duration : Option ℕ
  pub quota_baseline_duration : ℕ
  pub quota_max_bytes : ℕ
  pub quota_baseline_bytes : ℕ

-- A session's row, its texts as the numbers that `parseInt` reads, zero if it reads none.
pub record SessionRow : Type 0 where
  pub row_id : String
  pub row_max_bytes : ℕ
  pub row_max_duration : Option ℕ
  pub row_duration : Option ℕ
  pub row_download_bytes : ℕ

abbrev row_cap : Option ℕ → Option ℕ
row_cap none = none
row_cap (some zero) = none
row_cap (some (suc n)) = some (suc n)

abbrev or_zero : Option ℕ → ℕ
or_zero none = 0
or_zero (some n) = n

unfoldable quota_from_session_row : SessionRow → Option ActiveQuota
quota_from_session_row row =
    if (row.row_max_bytes == 0) && is_none (row_cap row.row_max_duration)
    then none
    else some (record {
      session_id = row.row_id;
      quota_max_duration = row_cap row.row_max_duration;
      quota_baseline_duration = or_zero row.row_duration;
      quota_max_bytes = row.row_max_bytes;
      quota_baseline_bytes = row.row_download_bytes;
    })

-- The quota scored at the tunnel's clock and received bytes.
unfoldable pub verdict_for : ℕ → ℕ → ActiveQuota → QuotaVerdict
verdict_for connected rx q = evaluate_quota (record {
  max_duration = q.quota_max_duration;
  baseline_duration = q.quota_baseline_duration;
  connected = connected;
  max_bytes = q.quota_max_bytes;
  baseline_bytes = q.quota_baseline_bytes;
  live_rx_bytes = rx;
})

abbrev pub quota_level_rank : QuotaVerdict → ℕ
quota_level_rank (fine _) = 0
quota_level_rank (warn _ _ _) = 1
quota_level_rank (expired _) = 2

abbrev pub quota_pct : QuotaVerdict → Share
quota_pct (fine s) = s
quota_pct (warn s _ _) = s
quota_pct (expired _) = record { used = 1; cap = 1 }

pub record Scored : Type 0 where
  pub verdict : QuotaVerdict
  pub scored_id : String

-- The step of the reduction.
abbrev pub worse : Scored → Scored → Scored
worse worst s =
    if ltb (quota_level_rank worst.verdict) (quota_level_rank s.verdict)
      || ((quota_level_rank s.verdict == quota_level_rank worst.verdict)
          && exceeds (quota_pct s.verdict) (quota_pct worst.verdict))
    then s
    else worst

abbrev pub score : ℕ → ℕ → ActiveQuota → Scored
score connected rx q = record { verdict = verdict_for connected rx q; scored_id = q.session_id }

-- The entry's quota and the exit's, either of which may be missing.
unfoldable pub current_quota_verdict :
    ℕ → ℕ → Option ActiveQuota → Option ActiveQuota → Option Scored
current_quota_verdict connected rx none none = none
current_quota_verdict connected rx (some q) none = some (score connected rx q)
current_quota_verdict connected rx none (some x) = some (score connected rx x)
current_quota_verdict connected rx (some q) (some x) =
    some (worse (score connected rx q) (score connected rx x))
