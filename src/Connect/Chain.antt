-- ===== src/Connect/Chain.antt =====
-- src/main/ipc-handlers.ts, `establishChainOrRefund` and `refundSessions`, over
-- `refundEachInTurn` of src/main/vpn/connect-decisions.ts: two sessions are bought for a two-hop
-- chain, and a failure at any point cancels those that were bought. The code is a state and
-- exception monad; what the chain and the nodes answer is the record `Answers`. The code finds the
-- payer of a session by its id, which is unique on the chain; the model keeps the two as a pair.
pub mod Settlement
pub mod Privacy
use katacomb_vpn.Prelude.{
  ℕ, String, Bool, true, false, Option, none, some, List, [], ◌∷◌, Result, ok, err, if◌then◌else◌,
}

pub data Role : Type 0 where
  entry exit : Role

-- The account that pays for a hop and can cancel it, and the names of the two nodes.
pub record Plan : Type 0 where
  pub entry_account : String
  pub exit_account : String
  pub entry_moniker : String
  pub exit_moniker : String

-- A thrown error; `hop` is the tag read by `chainHopRoleOf`.
pub record Failure : Type 0 where
  pub reason : String
  pub policy_rejected : Bool
  pub hop : Option Role

-- `contacted r via` is a request to the node of the hop `r`, through the provisioning proxy at the
-- given port, or directly.
pub data Effect : Type 0 where
  bought : Role → String → String → Effect
  contacted : Role → Option ℕ → Effect
  proxy_started : ℕ → Effect
  proxy_stopped : Effect
  cancel_sent : String → String → Effect

-- `paid` lists the sessions bought with their accounts, in the order of purchase; `log` has its
-- latest effect first.
pub record State : Type 0 where
  pub paid : List (String × String)
  pub failed_role : Option Role
  pub proxy : Option ℕ
  pub log : List Effect

pub record Answers (Spec Config : Type 0) : Type 0 where
  pub buy : Role → Result Failure String
  pub resolve : Role → Result Failure String
  pub handshake : Role → String → String → Result Failure Spec
  pub start_proxy : Spec → Result Failure ℕ
  pub preflight : Result Failure (Unit {0})
  pub eligible : Result Failure (Unit {0})
  pub finalize : Spec → Spec → Result Failure Config
  pub cancel : String → String → Bool

pub record Refund : Type 0 where
  pub session_id : String
  pub refunded : Bool

-- The arguments of `chainFailureMessage`, which make the error's text.
pub record FailureReport : Type 0 where
  pub reason : String
  pub policy_rejected : Bool
  pub failed_role : Option Role
  pub node_moniker : String
  pub refunds : List Refund

pub record Built (Config : Type 0) : Type 0 where
  pub config : Config
  pub entry_session_id : String
  pub exit_session_id : String

abbrev M : Type 0 → Type 0
M A = State → Result Failure A × State

infixl 5 ◌>>=◌ ◌>>◌
abbrev pub ◌>>=◌ : {A B : Type 0} → M A → (A → M B) → M B
◌>>=◌ m f s = let (r, s') = m s in elim r [ ok a ↦ f a s' | err e ↦ (err e, s') ]

abbrev pub ◌>>◌ : {B : Type 0} → M (Unit {0}) → M B → M B
m >> k = m >>= λ _. k

abbrev pure : {A : Type 0} → A → M A
pure a s = (ok a, s)

-- An awaited call that may throw.
abbrev pub await : {A : Type 0} → Result Failure A → M A
await r s = (r, s)

abbrev emit : Effect → M (Unit {0})
emit e s = (ok tt, record s { log = e ∷ s.log })

abbrev blame : Option Role → M (Unit {0})
blame role s = (ok tt, record s { failed_role = role })

abbrev pub account : Plan → Role → String
account p entry = p.entry_account
account p exit = p.exit_account

-- `paid.push({ sessionId, signer })`
abbrev push_paid : List (String × String) → String × String → List (String × String)
push_paid [] x = x ∷ []
push_paid (y ∷ ys) x = y ∷ push_paid ys x

abbrev record_paid : Plan → Role → String → M (Unit {0})
record_paid p role id s = (
  ok tt,
  record s {
    paid = push_paid s.paid (id, account p role);
    log = bought role id (account p role) ∷ s.log;
  },
)

abbrev keep_proxy : ℕ → M (Unit {0})
keep_proxy port s = (ok tt, record s { proxy = some port; log = proxy_started port ∷ s.log })

module _ {Spec Config : Type 0} (a : Answers Spec Config) (p : Plan) where
  -- The body of the `try`.
  unfoldable build_chain : M (Built Config)
  build_chain = do
    blame (some entry)
    entry_id ← await (a.buy entry)
    record_paid p entry entry_id
    entry_url ← await (a.resolve entry)
    emit (contacted entry none)
    entry_spec ← await (a.handshake entry entry_id entry_url)
    blame none
    port ← await (a.start_proxy entry_spec)
    keep_proxy port
    blame (some exit)
    emit (contacted exit (some port))
    await a.preflight
    emit (contacted exit (some port))
    await a.eligible
    exit_id ← await (a.buy exit)
    record_paid p exit exit_id
    exit_url ← await (a.resolve exit)
    emit (contacted exit (some port))
    exit_spec ← await (a.handshake exit exit_id exit_url)
    blame none
    config ← await (a.finalize entry_spec exit_spec)
    pure (record { config = config; entry_session_id = entry_id; exit_session_id = exit_id })

  -- `refundEachInTurn` under `refundSessions`: one cancellation after the other, each by the account
  -- that bought the session, and a failed one does not stop the rest.
  unfoldable pub refund_each_in_turn :
      List (String × String) → List Effect → List Refund × List Effect
  refund_each_in_turn [] log = ([], log)
  refund_each_in_turn ((id, by) ∷ rest) log =
      let (refunds, log') = refund_each_in_turn rest (cancel_sent id by ∷ log) in
      (record { session_id = id; refunded = a.cancel id by } ∷ refunds, log')

  -- `chainHopRoleOf(err) ?? failedRole`
  abbrev broken_role : Failure → Option Role → Option Role
  broken_role e failed = elim e.hop [ none ↦ failed | some role ↦ some role ]

  -- The node named in the report.
  abbrev moniker_of : Option Role → String
  moniker_of (some exit) = p.exit_moniker
  moniker_of _ = p.entry_moniker

  -- The `finally`: stop the proxy if one was started.
  abbrev stop_proxy : State → State
  stop_proxy s = elim s.proxy [
    | none ↦ s
    | some _ ↦ record s { proxy = none; log = proxy_stopped ∷ s.log }
  ]

  abbrev pub conclude :
      Result Failure (Built Config) × State → Result FailureReport (Built Config) × State
  conclude (ok built, s) = (ok built, stop_proxy s)
  conclude (err e, s) =
      let (refunds, log) = refund_each_in_turn s.paid s.log in
      (
        err (record {
          reason = e.reason;
          policy_rejected = e.policy_rejected;
          failed_role = broken_role e s.failed_role;
          node_moniker = moniker_of (broken_role e s.failed_role);
          refunds = refunds;
        }),
        stop_proxy (record s { log = log }),
      )

  abbrev nothing_paid : State
  nothing_paid = record { paid = []; failed_role = none; proxy = none; log = [] }

  unfoldable pub establish_chain_or_refund : Result FailureReport (Built Config) × State
  unfolding build_chain refund_each_in_turn
  establish_chain_or_refund = conclude (build_chain nothing_paid)
