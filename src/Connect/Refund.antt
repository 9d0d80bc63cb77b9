-- ===== src/Connect/Refund.antt =====
-- src/main/ipc-handlers.ts, `establishSessionOrRefund`, with the decisions that it takes from
-- src/main/vpn/connect-decisions.ts: a session that was paid for gets its tunnel's configuration or
-- is cancelled. What the chain and the node answer is the record `Answers`; the effects are listed
-- in the order in which they happen.
pub mod Outcome
use katacomb_vpn.Prelude.{
  ℕ, zero, suc, ◌+◌, String, Bool, true, false, ◌&&◌, Option, none, some, List, [], ◌∷◌, ◌++◌, ◌==◌,
  ltb, if◌then◌else◌, Result, ok, err,
}

abbrev pub handshake_retry_max_retries : ℕ
handshake_retry_max_retries = 2

-- `status === 404`
abbrev is_not_found : Option ℕ → Bool
is_not_found none = false
is_not_found (some status) = status == 404

unfoldable pub should_retry_session_handshake : Option ℕ → ℕ → Bool
should_retry_session_handshake status attempt =
    is_not_found status && ltb attempt handshake_retry_max_retries

-- What a failed call threw: the HTTP status, if the node answered at all, the reason shown to the
-- user, and whether it was the policy that rejects cleartext inbounds.
pub record Failure : Type 0 where
  pub status : Option ℕ
  pub reason : String
  pub policy_rejected : Bool

pub record Session : Type 0 where
  pub session_id : String
  pub node_moniker : String
  pub is_deposit : Bool

-- The arguments of `sessionFailureMessage`, which make the error's text.
pub record FailureReport : Type 0 where
  pub refunded : Bool
  pub is_deposit : Bool
  pub session_id : String
  pub node_moniker : String
  pub reason : String
  pub policy_rejected : Bool

-- `handshake n` answers the attempt number `n`; `cancel` is whether the cancellation was accepted
-- within its time.
pub record Answers (Config : Type 0) : Type 0 where
  pub resolve : Result Failure String
  pub handshake : String → ℕ → Result Failure Config
  pub cancel : Bool

pub data Effect : Type 0 where
  resolved : Effect
  handshake_sent : ℕ → Effect
  waited : Effect
  cancel_sent : String → Effect
  sessions_changed : Effect

-- The first attempt and its retries, which the loop never exceeds.
abbrev pub max_attempts : ℕ
max_attempts = handshake_retry_max_retries + 1

module _ {Config : Type 0} (a : Answers Config) where
  -- The loop over the attempts: it returns the configuration, or the failure that is not retried.
  -- `none` means that the fuel ran out.
  unfoldable pub attempts : ℕ → String → ℕ → Option (Result Failure Config × List Effect)
  unfolding should_retry_session_handshake
  attempts zero url attempt = none
  attempts (suc fuel) url attempt = elim (a.handshake url attempt) [
    | ok config ↦ some (ok config, handshake_sent attempt ∷ [])
    | err e ↦
        let later = attempts fuel url (attempt + 1) in
        if should_retry_session_handshake e.status attempt
        then elim later [
          | none ↦ none
          | some (r, log) ↦ some (r, handshake_sent attempt ∷ waited ∷ log)
        ]
        else some (err e, handshake_sent attempt ∷ [])
  ]

  -- The endpoint given by the caller, or the one resolved, and the attempts at it.
  unfoldable pub try_handshake : Option String → Option (Result Failure Config × List Effect)
  try_handshake (some url) = attempts max_attempts url 0
  try_handshake none = elim a.resolve [
    | err e ↦ some (err e, resolved ∷ [])
    | ok url ↦ elim (attempts max_attempts url 0) [
      | none ↦ none
      | some (r, log) ↦ some (r, resolved ∷ log)
    ]
  ]

  -- The `catch`: cancel the session and throw the report.
  abbrev pub refund_log : String → List Effect
  refund_log session_id =
      if a.cancel
      then cancel_sent session_id ∷ sessions_changed ∷ []
      else cancel_sent session_id ∷ []

  abbrev pub report : Session → Failure → FailureReport
  report s e = record {
    refunded = a.cancel;
    is_deposit = s.is_deposit;
    session_id = s.session_id;
    node_moniker = s.node_moniker;
    reason = e.reason;
    policy_rejected = e.policy_rejected;
  }

  abbrev pub conclude :
      Session → Result Failure Config × List Effect → Result FailureReport Config × List Effect
  conclude s (ok config, log) = (ok config, log)
  conclude s (err e, log) = (err (report s e), log ++ refund_log s.session_id)

  unfoldable pub establish_session_or_refund :
      Session → Option String → Option (Result FailureReport Config × List Effect)
  establish_session_or_refund s remote_url = elim (try_handshake remote_url) [
    | none ↦ none
    | some r ↦ some (conclude s r)
  ]
