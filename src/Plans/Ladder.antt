-- ===== src/Plans/Ladder.antt =====
-- The ladder of `PLAN_SMART_CONNECT` in src/main/ipc-handlers.ts, with `shouldTryNextCandidate` and
-- `ladderNextTx` of src/main/plans/plan-connect.ts: the ranked candidates are tried one after the
-- other until one has a tunnel or money may be in flight. What the chain and the nodes answer in
-- each turn is the record `Answers`.
pub mod Money
use katacomb_vpn.Prelude.{
  ℕ, ◌+◌, String, Bool, true, false, Option, none, some, List, [], ◌∷◌, ltb, if◌then◌else◌, Result,
  ok, err,
}
use katacomb_vpn.Plans.Ranking.{Candidate}

pub data SmartConnectFailure : Type 0 where
  preflight handshake policy endpoint tx_timeout funds chain : SmartConnectFailure

abbrev pub max_tx_attempts : ℕ
max_tx_attempts = 3

unfoldable pub should_try_next_candidate : SmartConnectFailure → ℕ → Bool
should_try_next_candidate preflight n = true
should_try_next_candidate endpoint n = true
should_try_next_candidate handshake n = ltb n max_tx_attempts
should_try_next_candidate policy n = ltb n max_tx_attempts
should_try_next_candidate tx_timeout n = false
should_try_next_candidate funds n = false
should_try_next_candidate chain n = false

pub data Tx : Type 0 where
  plan_subscribe session_only : Tx

abbrev ladder_next_tx : Option String → Tx
ladder_next_tx none = plan_subscribe
ladder_next_tx (some _) = session_only

-- How a rejected transaction is told apart: by the message of a timeout.
pub data TxError : Type 0 where
  timed_out rejected : TxError

-- The answers in one turn. A subscription may come back without its identifier; a transaction that
-- ends in an error may land all the same, and `lands` is then the session that it makes; a failed
-- handshake tells whether the session was refunded (`REFUND_FAILED_TAIL`).
pub record Answers (Config : Type 0) : Type 0 where
  pub preflight_passes : Candidate → Bool
  pub resolve : Candidate → Option String
  pub subscribe : Candidate → Result TxError (String × Option String)
  pub start : String → Candidate → Result TxError String
  pub lands : Candidate → Option String
  pub establish : String → String → Result Bool Config

-- `plan_charged` is a transaction that pays the plan's price, `bought` one that created a session,
-- and `landed` one that did so behind an error, unknown to the code.
pub data Effect : Type 0 where
  plan_charged : String → Effect
  bought : String → String → Effect
  landed : String → String → Effect
  refunded : String → Effect
  refund_failed : String → Effect

-- `log` has its latest effect first.
pub record Ladder : Type 0 where
  pub subscription_id : Option String
  pub tx_attempts : ℕ
  pub attempts : List (String × SmartConnectFailure)
  pub log : List Effect

pub record Connected (Config : Type 0) : Type 0 where
  pub session_id : String
  pub subscription : Option String
  pub node : Candidate
  pub config : Config

-- How the ladder ends: with a tunnel, with an error that is thrown on, or with the summary of the
-- attempts.
pub data Ending (Config : Type 0) : Type 0 where
  connected : Connected Config → Ending Config
  thrown : SmartConnectFailure → Ending Config
  summary : Ending Config

abbrev note : Candidate → SmartConnectFailure → Ladder → Ladder
note c f s = record s { attempts = (c.moniker, f) ∷ s.attempts }

-- `if (res.subscriptionId) subscriptionId = res.subscriptionId`
abbrev keep_subscription : Option String → Option String → Option String
keep_subscription none old = old
keep_subscription (some id) old = some id

abbrev failure_of : TxError → SmartConnectFailure
failure_of timed_out = tx_timeout
failure_of rejected = chain

-- What a transaction with an error leaves on the chain.
abbrev charge_of : Tx → Candidate → List Effect → List Effect
charge_of plan_subscribe c log = plan_charged c.address ∷ log
charge_of session_only c log = log

abbrev leave_behind : Tx → Candidate → Option String → Ladder → Ladder
leave_behind tx c none s = s
leave_behind tx c (some session_id) s = record s {
  log = landed session_id c.address ∷ charge_of tx c s.log;
}

-- What one turn comes to: the loop goes on, or it ends.
pub data Turn (Config : Type 0) : Type 0 where
  next : Ladder → Turn Config
  over : Ending Config → Ladder → Turn Config

module _ {Config : Type 0} where
  -- The transaction of one turn: the session, if it came, and the state after.
  unfoldable pub buy : Answers Config → Candidate → Ladder → Result TxError String × Ladder
  buy a c s = elim (ladder_next_tx s.subscription_id) [
    | plan_subscribe ↦ elim (a.subscribe c) [
      | err e ↦ (err e, leave_behind plan_subscribe c (a.lands c) s)
      | ok (session_id, id) ↦ (
        ok session_id,
        record s {
          subscription_id = keep_subscription id s.subscription_id;
          tx_attempts = s.tx_attempts + 1;
          log = bought session_id c.address ∷ plan_charged c.address ∷ s.log;
        },
      )
    ]
    | session_only ↦ elim s.subscription_id [
      | none ↦ (err rejected, s)
      | some id ↦ elim (a.start id c) [
        | err e ↦ (err e, leave_behind session_only c (a.lands c) s)
        | ok session_id ↦ (
          ok session_id,
          record s { tx_attempts = s.tx_attempts + 1; log = bought session_id c.address ∷ s.log },
        )
      ]
    ]
  ]

  -- `recordAndDecide` where the loop is left by `break`.
  abbrev go_on_or_break : Candidate → SmartConnectFailure → Ladder → Turn Config
  go_on_or_break c f s =
      if should_try_next_candidate f s.tx_attempts
      then next (note c f s)
      else over summary (note c f s)

  -- `recordAndDecide` where the error is thrown on.
  abbrev pub go_on_or_throw : Candidate → SmartConnectFailure → Ladder → Turn Config
  go_on_or_throw c f s =
      if should_try_next_candidate f s.tx_attempts
      then next (note c f s)
      else over (thrown f) (note c f s)

  -- After the purchase.
  abbrev use_session : Answers Config → Candidate → String → String → Ladder → Turn Config
  use_session a c url session_id s = elim (a.establish session_id url) [
    | ok config ↦
        over
          (connected (record {
            session_id = session_id;
            subscription = s.subscription_id;
            node = c;
            config = config;
          }))
          s
    | err was_refunded ↦
        if was_refunded
        then go_on_or_throw c handshake (record s { log = refunded session_id ∷ s.log })
        else over (thrown chain) (record s { log = refund_failed session_id ∷ s.log })
  ]

  abbrev pub purchase : Answers Config → Candidate → String → Ladder → Turn Config
  purchase a c url s =
      let (r, s') = buy a c s in
      elim r [
        | err e ↦ go_on_or_throw c (failure_of e) s'
        | ok session_id ↦ use_session a c url session_id s'
      ]

  unfoldable pub turn : Answers Config → Candidate → Ladder → Turn Config
  unfolding should_try_next_candidate buy
  turn a c s =
      if a.preflight_passes c
      then elim (a.resolve c) [ none ↦ go_on_or_break c endpoint s | some url ↦ purchase a c url s ]
      else go_on_or_break c preflight s

  -- The loop over the ranked candidates; turn `n` gets the answers `w n`.
  unfoldable pub climb : (ℕ → Answers Config) → ℕ → List Candidate → Ladder → Ending Config × Ladder
  climb w n [] s = (summary, s)
  climb w n (c ∷ cs) s = elim (turn (w n) c s) [
    | next s' ↦ climb w (n + 1) cs s'
    | over e s' ↦ (e, s')
  ]

  -- The ladder with the subscription that the caller has, if any.
  abbrev pub smart_connect :
      (ℕ → Answers Config) → List Candidate → Option String → Ending Config × Ladder
  smart_connect w ranked subscription =
      climb w 0 ranked
        (record { subscription_id = subscription; tx_attempts = 0; attempts = []; log = [] })
