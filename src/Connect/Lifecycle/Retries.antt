-- ===== src/Connect/Lifecycle/Retries.antt =====
-- How long the app tries to reconnect (`decideReconnect` of src/main/vpn/connect-decisions.ts).
use katacomb_vpn.Prelude.{
  ℕ, zero, suc, ◌+◌, ◌*◌, ◌≡◌, ◌≤◌, ◌<◌, refl, ap, subst, true, false, Option, none, some, arith,
}
use katacomb_vpn.Connect.Lifecycle.{abort, give_up, retry, backoff_delay_ms, decide_reconnect}

-- A ladder that fails every time, with the sum of its delays: `none` is that the fuel ran out.
abbrev pub ladder : ℕ → ℕ → ℕ → Option (ℕ × ℕ)
ladder zero attempt max_attempts = none
ladder (suc fuel) attempt max_attempts =
    elim (decide_reconnect attempt max_attempts true false true) [
      | abort _ ↦ some (attempt, 0)
      | give_up ↦ some (attempt, 0)
      | retry n delay ↦ elim (ladder fuel n max_attempts) [
        | none ↦ none
        | some (last, waited) ↦ some (last, waited + delay)
      ]
    ]

decide-gives_up : (n m : ℕ) → m ≡ n → decide_reconnect n m true false true ≡ give_up
unfolding decide_reconnect
decide-gives_up n m e = ground arith

decide-retries :
    (n m : ℕ)
    → n < m
    → decide_reconnect n m true false true ≡ retry (n + 1) (backoff_delay_ms (n + 1))
unfolding decide_reconnect
decide-retries n m h = ground arith

-- Attempts that fail one after the other come to an end: from any attempt the ladder gives up after
-- the last that is allowed, having waited at most a minute for each.
pub ladder-gives_up :
    (left attempt : ℕ)
    → (waited : ℕ) × (ladder (suc left) attempt (attempt + left) ≡ some (attempt + left, waited))
      × (waited ≤ left * 60000)
ladder-gives_up zero attempt = (
  0,
  rw (decide-gives_up attempt (attempt + 0) (omega arith), ladder)
      (ap (λ n. some (n, 0)) (omega arith)),
  omega arith,
)
ladder-gives_up (suc left) attempt =
    let (waited, e, few) = ladder-gives_up left (attempt + 1) in
    let same : attempt + 1 + left ≡ attempt + suc left = omega arith in
    (
      waited + backoff_delay_ms (attempt + 1),
      rw (decide-retries attempt (attempt + suc left) (omega arith), ladder)
          (rw (subst (Ends waited) same e) refl),
      omega (arith, few),
    )
  where
    Ends : ℕ → ℕ → Type 0
    Ends waited last = ladder (suc left) (attempt + 1) last ≡ some (last, waited)
