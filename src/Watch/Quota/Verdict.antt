-- ===== src/Watch/Quota/Verdict.antt =====
-- What the verdict of `evaluateQuota` (src/main/vpn/connect-decisions.ts) says of the caps.
use native.Mathlib.Nat.{mul-le-mul_right, le_of_mul-le-mul_right}
use katacomb_vpn.Prelude.{
  ℕ, zero, suc, ◌+◌, ◌*◌, ◌≡◌, ◌≤◌, ◌<◌, ◌↔◌, ◌⊎◌, true, false, arith, leb→le, le→leb,
}
use katacomb_vpn.Watch.Quota.{
  QuotaInput, QuotaReason, time, data_used, Share, QuotaVerdict, fine, warn, expired, reaches,
  exceeds, part_of, time_cap, used_time, used_bytes, grade, decide_worst, evaluate_quota,
  quota_level_rank,
}

-- The cap that a reason names, and what is used of it.
abbrev cap_of : QuotaInput → QuotaReason → ℕ
cap_of q time = time_cap q
cap_of q data_used = q.max_bytes

abbrev used_of : QuotaInput → QuotaReason → ℕ
used_of q time = used_time q
used_of q data_used = used_bytes q

-- A cap that exists is used up to so many percent.
abbrev pub IsUsedUp : QuotaInput → ℕ → QuotaReason → Type 0
IsUsedUp q pct r = (0 < cap_of q r) × (pct * cap_of q r ≤ 100 * used_of q r)

-- A larger part reaches what a smaller one reaches.
reaches-exceeds :
    (a b : Share) (pct : ℕ)
    → 0 < b.cap
    → b.used * a.cap ≤ a.used * b.cap
    → reaches b pct ≡ true
    → reaches a pct ≡ true
reaches-exceeds a b pct h k r =
    let scaled = mul-le-mul_right a.cap (leb→le (pct * b.cap) (100 * b.used) r) in
    let common : pct * a.cap * b.cap ≤ 100 * a.used * b.cap = omega (arith, scaled, k) in
    le→leb (pct * a.cap) (100 * a.used) (le_of_mul-le-mul_right common h)

abbrev share : ℕ → ℕ → Share
share used cap = record { used = used; cap = cap }

-- The larger of two parts reaches what one of them does.
worst-reaches :
    (t d : Share) (pct : ℕ)
    → 0 < t.cap
    → 0 < d.cap
    → (exceeds d t ≡ true
        → ((reaches d pct ≡ true) ↔ ((reaches t pct ≡ true) ⊎ (reaches d pct ≡ true))))
      × (exceeds d t ≡ false
          → ((reaches t pct ≡ true) ↔ ((reaches t pct ≡ true) ⊎ (reaches d pct ≡ true))))
worst-reaches t d pct ht hd = (
  λ e. ground (arith, reaches-exceeds d t pct ht),
  λ e. ground (arith, reaches-exceeds t d pct hd),
)

abbrev Ranked : QuotaInput → ℕ → ℕ → ℕ → ℕ → ℕ → ℕ → Type 0
Ranked q rank pct ut ct ub cb =
    (rank ≤ quota_level_rank (decide_worst q (part_of ut ct) (part_of ub cb)))
    ↔ (((0 < ct) × (pct * ct ≤ 100 * ut)) ⊎ ((0 < cb) × (pct * cb ≤ 100 * ub)))

decide-rank :
    (q : QuotaInput) (ut ct ub cb : ℕ) → Ranked q 2 100 ut ct ub cb × Ranked q 1 90 ut ct ub cb
decide-rank q ut zero ub zero = (ground arith, ground arith)
decide-rank q ut (suc ct) ub zero = (ground arith, ground arith)
decide-rank q ut zero ub (suc cb) = (ground arith, ground arith)
decide-rank q ut (suc ct) ub (suc cb) =
    let full =
      worst-reaches (share ut (suc ct)) (share ub (suc cb)) 100 (omega arith) (omega arith) in
    let close =
      worst-reaches (share ut (suc ct)) (share ub (suc cb)) 90 (omega arith) (omega arith) in
    (ground (arith, full), ground (arith, close))

-- The verdict is `expired` exactly if some cap that exists is used up, and at least a warning exactly
-- if some cap that exists is used up to nine tenths; a session with no cap never expires.
pub evaluate_quota-rank_iff :
    (q : QuotaInput)
    → ((2 ≤ quota_level_rank (evaluate_quota q)) ↔ (IsUsedUp q 100 time ⊎ IsUsedUp q 100 data_used))
      × ((1 ≤ quota_level_rank (evaluate_quota q)) ↔ (IsUsedUp q 90 time ⊎ IsUsedUp q 90 data_used))
unfolding evaluate_quota
evaluate_quota-rank_iff q = decide-rank q (used_time q) (time_cap q) (used_bytes q) q.max_bytes

-- What a verdict says of the reason that it names.
abbrev IsTrue : QuotaInput → QuotaVerdict → Type 0
IsTrue q (expired r) = IsUsedUp q 100 r
IsTrue q (warn s r rest) = (rest + used_of q r ≡ cap_of q r) × (0 < rest) × (10 * rest ≤ cap_of q r)
IsTrue q (fine s) = s.used < s.cap

grade-IsTrue :
    (q : QuotaInput) (r : QuotaReason)
    → 0 < cap_of q r
    → IsTrue q (grade q r (share (used_of q r) (cap_of q r)))
grade-IsTrue q time h = ground arith
grade-IsTrue q data_used h = ground arith

-- An expiry names a cap that is used up, and a warning says exactly what is left of the cap that it
-- names, which is more than nothing and at most a tenth.
evaluate_quota-IsTrue : (q : QuotaInput) → IsTrue q (evaluate_quota q)
unfolding evaluate_quota
evaluate_quota-IsTrue q = ground (arith, grade-IsTrue q time, grade-IsTrue q data_used)
