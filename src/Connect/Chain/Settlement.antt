-- ===== src/Connect/Chain/Settlement.antt =====
-- What `establishChainOrRefund` of src/main/ipc-handlers.ts leaves behind, on every path.
use katacomb_vpn.Prelude.{◌≡◌, String, List, [], ◌∷◌, ◌++◌, arith, Result, ok, err}
use katacomb_vpn.Connect.Chain.{
  Plan, Answers, Effect, bought, contacted, proxy_started, proxy_stopped, cancel_sent, Refund,
  FailureReport, Built, establish_chain_or_refund,
}

-- The sessions bought and the cancellations sent, each with its account, oldest first.
abbrev purchases : List Effect → List (String × String)
purchases [] = []
purchases (bought _ id by ∷ log) = purchases log ++ (id, by) ∷ []
purchases (contacted _ _ ∷ log) = purchases log
purchases (proxy_started _ ∷ log) = purchases log
purchases (proxy_stopped ∷ log) = purchases log
purchases (cancel_sent _ _ ∷ log) = purchases log

abbrev cancellations : List Effect → List (String × String)
cancellations [] = []
cancellations (cancel_sent id by ∷ log) = cancellations log ++ (id, by) ∷ []
cancellations (contacted _ _ ∷ log) = cancellations log
cancellations (proxy_started _ ∷ log) = cancellations log
cancellations (proxy_stopped ∷ log) = cancellations log
cancellations (bought _ _ _ ∷ log) = cancellations log

module _ {Spec Config : Type 0} (a : Answers Spec Config) (p : Plan) where
  abbrev pub outcomes : List (String × String) → List Refund
  outcomes [] = []
  outcomes ((id, by) ∷ rest) = record { session_id = id; refunded = a.cancel id by } ∷ outcomes rest

  -- A success cancels nothing and names the two sessions bought; a failure cancels all that was
  -- bought and reports each outcome.
  abbrev pub IsSettled : Result FailureReport (Built Config) → List Effect → Type 0
  IsSettled (ok built) log =
      (purchases log
        ≡ (built.entry_session_id, p.entry_account) ∷ (built.exit_session_id, p.exit_account) ∷ [])
      × (cancellations log ≡ [])
  IsSettled (err r) log =
      (cancellations log ≡ purchases log) × (r.refunds ≡ outcomes (purchases log))

  -- A chain that comes up has bought exactly its two sessions and cancelled none; a chain that fails
  -- at any point has asked for the cancellation of every session bought, each once, in the order of
  -- purchase and by the account that paid, and reports what became of each.
  pub establish_chain_or_refund-IsSettled :
      IsSettled (establish_chain_or_refund a p).0 (establish_chain_or_refund a p).1.log
  unfolding establish_chain_or_refund
  establish_chain_or_refund-IsSettled = ground arith
