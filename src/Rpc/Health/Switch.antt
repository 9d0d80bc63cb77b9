-- ===== src/Rpc/Health/Switch.antt =====
-- Where `pickAutoRpc` of src/shared/rpc-health.ts switches to.
use native.Mathlib.Omega.{arith}
use text.Mathlib.Text.{◌==◌ as str_eq}
use text.Mathlib.TextEquality.{eq_iff}
use katacomb_vpn.Prelude.{
  ℕ, ◌+◌, ◌≤◌, String, ◌≡◌, refl, ap, subst, ◌≢◌, ◌∙◌, inl, inr, true, false, Option, none, some,
  List, [], ◌∷◌, filter, find, Mem, mem-of-filter,
}
use katacomb_vpn.Rpc.Health.{
  RpcCandidate, fastest, expected_chain_id, heights, max_of, auto_height_tolerance_blocks,
  near_tallest, is_expected_chain, qualifies_for_auto, is_other, keep_or_switch, pick_among,
  pick_auto_rpc,
}
use katacomb_vpn.Rpc.Health.Choice.{fastest-IsBetter}

le-max_of-heights :
    (cs : List RpcCandidate) (d : RpcCandidate) (h : ℕ)
    → Mem d cs
    → d.probe.height ≡ some h
    → h ≤ max_of (heights cs)
le-max_of-heights [] d h m e = absurd m
le-max_of-heights (c ∷ cs) d h (inl same) e =
    let e' : c.probe.height ≡ some h = subst (λ z. z.probe.height ≡ some h) same e in
    rw e' (omega arith)
le-max_of-heights (c ∷ cs) d h (inr m) e = ground (arith, le-max_of-heights cs d h m e)

-- What an automatic switch asks of its target: it answered, reported the right chain, is not
-- reported as failing, and its height is within the tolerance of every height reported.
pub record IsQualified (cs : List RpcCandidate) (c : RpcCandidate) : Type 0 where
  pub answered : c.probe.reachable ≡ true
  pub right_chain : c.probe.chain_id ≡ some expected_chain_id
  pub not_reported : c.aggregator_healthy ≢ some false
  pub height : ℕ
  pub reported : c.probe.height ≡ some height
  pub in_consensus :
      (d : RpcCandidate) (h : ℕ)
      → Mem d cs
      → d.probe.height ≡ some h
      → h ≤ height + auto_height_tolerance_blocks

near_tallest-some :
    (tallest : ℕ) (o : Option ℕ)
    → near_tallest tallest o ≡ true
    → (h : ℕ) × (o ≡ some h) × (tallest ≤ h + auto_height_tolerance_blocks)
near_tallest-some tallest none e = cc
near_tallest-some tallest (some h) e = (h, refl, ground arith)

is_expected_chain-some :
    (o : Option String) → is_expected_chain o ≡ true → o ≡ some expected_chain_id
is_expected_chain-some none e = cc
is_expected_chain-some (some id) e = ap some ((eq_iff id expected_chain_id).0 e)

qualifies→IsQualified :
    (cs : List RpcCandidate) (c : RpcCandidate)
    → qualifies_for_auto c (max_of (heights cs)) ≡ true
    → IsQualified cs c
unfolding qualifies_for_auto
qualifies→IsQualified cs c e =
    let (h, reported, near) =
      near_tallest-some (max_of (heights cs)) c.probe.height (ground arith) in
    record {
      answered = ground arith;
      right_chain = is_expected_chain-some c.probe.chain_id (ground arith);
      not_reported = ground arith;
      height = h;
      reported = reported;
      in_consensus = λ d k m eq. omega (arith, le-max_of-heights cs d k m eq);
    }

-- A switch means that the best of the other qualified candidates was chosen over the current one.
pub record IsSwitch (cs : List RpcCandidate) (current target : String) : Type 0 where
  pub best : RpcCandidate
  pub chosen : fastest (filter (is_other current (max_of (heights cs))) cs) ≡ some best
  pub at_target : best.endpoint ≡ target
  pub decided :
      keep_or_switch (max_of (heights cs)) (find (λ c. str_eq c.endpoint current) cs) best
      ≡ some target

keep_or_switch-target :
    (tallest : ℕ) (o : Option RpcCandidate) (best : RpcCandidate) (target : String)
    → keep_or_switch tallest o best ≡ some target
    → best.endpoint ≡ target
keep_or_switch-target tallest none best target e = cc
keep_or_switch-target tallest (some c) best target e = ground arith

ne : {A : Type 0} {a : A} → ¬ (none ≡ some a)
ne e = cc

pick_among-IsSwitch :
    (cs : List RpcCandidate) (current target : String)
    → pick_among cs current (max_of (heights cs)) ≡ some target
    → IsSwitch cs current target
pick_among-IsSwitch cs current target e =
    go (fastest (filter (is_other current (max_of (heights cs))) cs)) refl
  where
    go :
        (o : Option RpcCandidate)
        → fastest (filter (is_other current (max_of (heights cs))) cs) ≡ o
        → IsSwitch cs current target
    go none eq = absurd (ne (rw (eq, pick_among) at e))
    go (some best) eq =
        let decided = rw (eq, pick_among) at e in
        record {
          best = best;
          chosen = eq;
          at_target = keep_or_switch-target _ _ best target decided;
          decided = decided;
        }

is_other→ne :
    (current : String) (tallest : ℕ) (c : RpcCandidate)
    → is_other current tallest c ≡ true
    → c.endpoint ≢ current
is_other→ne current tallest c h same = ground (arith, eq_iff c.endpoint current)

pub is_other→qualifies :
    (current : String) (tallest : ℕ) (c : RpcCandidate)
    → is_other current tallest c ≡ true
    → qualifies_for_auto c tallest ≡ true
is_other→qualifies current tallest c h = ground arith

is_other_of :
    (current : String) (tallest : ℕ) (c : RpcCandidate)
    → c.endpoint ≢ current
    → qualifies_for_auto c tallest ≡ true
    → is_other current tallest c ≡ true
is_other_of current tallest c h q = ground (arith, eq_iff c.endpoint current)

pub pick_auto_rpc-IsSwitch :
    (cs : List RpcCandidate) (current target : String)
    → pick_auto_rpc cs current ≡ some target
    → IsSwitch cs current target
unfolding pick_auto_rpc
pick_auto_rpc-IsSwitch cs current target e = go (heights cs) refl
  where
    go : (hs : List ℕ) → heights cs ≡ hs → IsSwitch cs current target
    go [] eq = absurd (ne (rw (eq, pick_auto_rpc) at e))
    go (h ∷ hs) eq = pick_among-IsSwitch cs current target (rw eq (rw (eq, pick_auto_rpc) at e))

-- An automatic switch goes to a candidate other than the current endpoint, and that candidate is
-- qualified.
pick_auto_rpc-IsQualified :
    (cs : List RpcCandidate) (current target : String)
    → pick_auto_rpc cs current ≡ some target
    → (c : RpcCandidate) × Mem c cs × (c.endpoint ≡ target) × (target ≢ current) × IsQualified cs c
pick_auto_rpc-IsQualified cs current target e =
    let s = pick_auto_rpc-IsSwitch cs current target e in
    let tallest = max_of (heights cs) in
    let (m, _) = fastest-IsBetter (filter (is_other current tallest) cs) s.chosen in
    let (mem, other) = mem-of-filter (is_other current tallest) {x = s.best} cs m in
    (
      s.best,
      mem,
      s.at_target,
      λ same. is_other→ne current tallest s.best other (s.at_target ∙ same),
      qualifies→IsQualified cs s.best (is_other→qualifies current tallest s.best other),
    )
