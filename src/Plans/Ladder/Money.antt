-- ===== src/Plans/Ladder/Money.antt =====
-- What the ladder of `PLAN_SMART_CONNECT` (src/main/ipc-handlers.ts) spends, on every path.
use katacomb_vpn.Prelude.{
  ℕ, suc, ◌+◌, ◌≡◌, ◌≤◌, ◌<◌, ◌⊎◌, inl, inr, refl, String, Option, none, some, List, [], ◌∷◌, ◌++◌,
  arith, subst, Result, ok, err,
}
use katacomb_vpn.Plans.Ranking.{Candidate}
use katacomb_vpn.Plans.Ladder.{
  Answers, Effect, plan_charged, bought, landed, refunded, refund_failed, Ladder, Ending, connected,
  thrown, summary, Turn, next, over, turn, climb, smart_connect, max_tx_attempts, TxError,
}

-- How often the plan's price was paid.
abbrev pub charges : List Effect → ℕ
charges [] = 0
charges (plan_charged _ ∷ log) = suc (charges log)
charges (bought _ _ ∷ log) = charges log
charges (landed _ _ ∷ log) = charges log
charges (refunded _ ∷ log) = charges log
charges (refund_failed _ ∷ log) = charges log

-- The sessions bought, known to the code or not, those refunded, those whose refund failed, and
-- those behind an error, latest first.
abbrev pub bought_ids : List Effect → List String
bought_ids [] = []
bought_ids (bought id _ ∷ log) = id ∷ bought_ids log
bought_ids (landed id _ ∷ log) = id ∷ bought_ids log
bought_ids (plan_charged _ ∷ log) = bought_ids log
bought_ids (refunded _ ∷ log) = bought_ids log
bought_ids (refund_failed _ ∷ log) = bought_ids log

abbrev refunded_ids : List Effect → List String
refunded_ids [] = []
refunded_ids (refunded id ∷ log) = id ∷ refunded_ids log
refunded_ids (plan_charged _ ∷ log) = refunded_ids log
refunded_ids (bought _ _ ∷ log) = refunded_ids log
refunded_ids (landed _ _ ∷ log) = refunded_ids log
refunded_ids (refund_failed _ ∷ log) = refunded_ids log

abbrev stranded_ids : List Effect → List String
stranded_ids [] = []
stranded_ids (refund_failed id ∷ log) = id ∷ stranded_ids log
stranded_ids (plan_charged _ ∷ log) = stranded_ids log
stranded_ids (bought _ _ ∷ log) = stranded_ids log
stranded_ids (landed _ _ ∷ log) = stranded_ids log
stranded_ids (refunded _ ∷ log) = stranded_ids log

abbrev landed_ids : List Effect → List String
landed_ids [] = []
landed_ids (landed id _ ∷ log) = id ∷ landed_ids log
landed_ids (plan_charged _ ∷ log) = landed_ids log
landed_ids (bought _ _ ∷ log) = landed_ids log
landed_ids (refunded _ ∷ log) = landed_ids log
landed_ids (refund_failed _ ∷ log) = landed_ids log

abbrev pub count : List String → ℕ
count [] = 0
count (_ ∷ ids) = suc (count ids)

-- The price that may still be paid: none once there is a subscription.
abbrev pub still_to_pay : Option String → ℕ
still_to_pay none = 1
still_to_pay (some _) = 0

abbrev budget : Ladder → ℕ
budget s = charges s.log + still_to_pay s.subscription_id

-- The answer names the subscription that was paid for.
abbrev HasSubscription : Result TxError (String × Option String) → Type 0
HasSubscription (err _) = Unit
HasSubscription (ok (_, none)) = ⊥
HasSubscription (ok (_, some _)) = Unit

-- Between two turns every session bought is refunded, and another may be bought.
record IsEven (s : Ladder) : Type 0 where
  pub even : bought_ids s.log ≡ refunded_ids s.log
  pub none_stranded : stranded_ids s.log ≡ []
  pub none_landed : landed_ids s.log ≡ []
  pub few : count (bought_ids s.log) < max_tx_attempts
  pub counted : s.tx_attempts ≡ count (bought_ids s.log)

module _ {Config : Type 0} where
  abbrev after : Turn Config → Ladder
  after (next s) = s
  after (over e s) = s

  Turn-cases :
      (t : Turn Config)
      → ((s : Ladder) × (t ≡ next s)) ⊎ ((e : Ending Config) × (s : Ladder) × (t ≡ over e s))
  Turn-cases (next s) = inl (s, refl)
  Turn-cases (over e s) = inr (e, s, refl)

  -- A turn behind which another comes keeps to the budget, the last one spends no more than it.
  abbrev Spends : ℕ → Turn Config → Type 0
  Spends n (next s) = budget s ≤ n
  Spends n (over e s) = charges s.log ≤ n

  turn-Spends :
      (a : Answers Config) (c : Candidate) (s : Ladder)
      → HasSubscription (a.subscribe c)
      → Spends (budget s) (turn a c s)
  unfolding turn
  turn-Spends a c s h = ground arith

  charges-climb :
      (w : ℕ → Answers Config) (n : ℕ) (cs : List Candidate) (s : Ladder)
      → ((k : ℕ) (c : Candidate) → HasSubscription ((w k).subscribe c))
      → charges (climb w n cs s).1.log ≤ budget s
  unfolding climb
  charges-climb w n [] s h = omega arith
  charges-climb w n (c ∷ cs) s h =
      let spent = turn-Spends (w n) c s (h n c) in
      elim (Turn-cases (turn (w n) c s)) [
        | inl (s', e) ↦
            let later = charges-climb w (n + 1) cs s' h in
            let within : budget s' ≤ budget s = subst (Spends (budget s)) e spent in
            rw (e, climb) (omega (arith, later, within))
        | inr (x, s', e) ↦ rw (e, climb) (subst (Spends (budget s)) e spent)
      ]

  -- The plan's price is paid at most once, and not at all with a subscription at hand, however many
  -- candidates are tried, also where a transaction that ended in an error lands later, as long as the
  -- chain names each subscription that it sells in an answer.
  pub smart_connect-charges_once :
      (w : ℕ → Answers Config) (ranked : List Candidate) (subscription : Option String)
      → ((k : ℕ) (c : Candidate) → HasSubscription ((w k).subscribe c))
      → charges (smart_connect w ranked subscription).1.log ≤ still_to_pay subscription
  smart_connect-charges_once w ranked subscription h = omega (
    arith,
    charges-climb w 0 ranked
        (record { subscription_id = subscription; tx_attempts = 0; attempts = []; log = [] }) h,
  )

  -- What an ending leaves on the chain.
  abbrev pub Leaves : Ending Config → List Effect → Type 0
  Leaves (connected c) log =
      (bought_ids log ≡ c.session_id ∷ refunded_ids log)
      × (stranded_ids log ≡ [])
      × (landed_ids log ≡ [])
  Leaves summary log =
      (bought_ids log ≡ refunded_ids log) × (stranded_ids log ≡ []) × (landed_ids log ≡ [])
  Leaves (thrown _) log =
      (bought_ids log ≡ landed_ids log ++ (stranded_ids log ++ refunded_ids log))
      × (count (landed_ids log) + count (stranded_ids log) ≤ 1)

  abbrev Holds : Turn Config → Type 0
  Holds (next s) = IsEven s
  Holds (over e s) = Leaves e s.log × (count (bought_ids s.log) ≤ max_tx_attempts)

  turn-Holds : (a : Answers Config) (c : Candidate) (s : Ladder) → IsEven s → Holds (turn a c s)
  unfolding turn
  turn-Holds a c s h = ground arith

  climb-Leaves :
      (w : ℕ → Answers Config) (n : ℕ) (cs : List Candidate) (s : Ladder)
      → IsEven s
      → Leaves (climb w n cs s).0 (climb w n cs s).1.log
        × (count (bought_ids (climb w n cs s).1.log) ≤ max_tx_attempts)
  unfolding climb
  climb-Leaves w n [] s h = ground arith
  climb-Leaves w n (c ∷ cs) s h =
      let held = turn-Holds (w n) c s h in
      elim (Turn-cases (turn (w n) c s)) [
        | inl (s', e) ↦ rw (e, climb) (climb-Leaves w (n + 1) cs s' (subst Holds e held))
        | inr (x, s', e) ↦ rw (e, climb) (subst Holds e held)
      ]

  -- At most three sessions are bought, those included that come of a transaction that ended in an
  -- error. With a tunnel, the session of the tunnel is the only one not refunded; with none, all are,
  -- but for one at most whose refund failed or that landed behind an error, and after that one nothing
  -- more is bought.
  pub smart_connect-Leaves :
      (w : ℕ → Answers Config) (ranked : List Candidate) (subscription : Option String)
      → Leaves (smart_connect w ranked subscription).0 (smart_connect w ranked subscription).1.log
        × (count (bought_ids (smart_connect w ranked subscription).1.log) ≤ max_tx_attempts)
  smart_connect-Leaves w ranked subscription = climb-Leaves w 0 ranked _ (record {
    even = refl;
    none_stranded = refl;
    none_landed = refl;
    few = omega arith;
    counted = refl;
  })
