-- ===== src/Connect/Chain/Privacy.antt =====
-- What the exit node of a chain hears from this device (`establishChainOrRefund` of
-- src/main/ipc-handlers.ts).
use katacomb_vpn.Prelude.{ℕ, ◌≡◌, Option, none, some, List, [], ◌∷◌, arith}
use katacomb_vpn.Connect.Chain.{
  Plan, Answers, Effect, bought, contacted, proxy_started, proxy_stopped, cancel_sent, entry, exit,
  establish_chain_or_refund,
}

-- The provisioning proxy that is up after the effects of a log, whose head is the latest.
abbrev pub proxy_after : List Effect → Option ℕ
proxy_after [] = none
proxy_after (proxy_started port ∷ log) = some port
proxy_after (proxy_stopped ∷ log) = none
proxy_after (contacted _ _ ∷ log) = proxy_after log
proxy_after (bought _ _ _ ∷ log) = proxy_after log
proxy_after (cancel_sent _ _ ∷ log) = proxy_after log

-- The hops contacted with no proxy between.
abbrev IsRelayed : Option ℕ → Option ℕ → Type 0
IsRelayed via up = (port : ℕ) × (via ≡ some port) × (up ≡ some port)

-- Every request to the exit goes through the proxy that is up at that moment, and the exit's
-- session is bought only while one is up.
abbrev pub IsPrivate : List Effect → Type 0
IsPrivate [] = Unit
IsPrivate (contacted exit via ∷ log) = IsRelayed via (proxy_after log) × IsPrivate log
IsPrivate (contacted entry _ ∷ log) = IsPrivate log
IsPrivate (bought exit _ _ ∷ log) = IsRelayed (proxy_after log) (proxy_after log) × IsPrivate log
IsPrivate (bought entry _ _ ∷ log) = IsPrivate log
IsPrivate (proxy_started _ ∷ log) = IsPrivate log
IsPrivate (proxy_stopped ∷ log) = IsPrivate log
IsPrivate (cancel_sent _ _ ∷ log) = IsPrivate log

module _ {Spec Config : Type 0} (a : Answers Spec Config) (p : Plan) where
  -- On every path the exit node is contacted only through the proxy that leads over the entry node,
  -- its session is bought only while that proxy is up, and no proxy is left running at the end.
  pub establish_chain_or_refund-IsPrivate :
      IsPrivate (establish_chain_or_refund a p).1.log
      × (proxy_after (establish_chain_or_refund a p).1.log ≡ none)
      × ((establish_chain_or_refund a p).1.proxy ≡ none)
  unfolding establish_chain_or_refund
  establish_chain_or_refund-IsPrivate = ground arith
