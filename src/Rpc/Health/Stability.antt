-- ===== src/Rpc/Health/Stability.antt =====
-- When `pickAutoRpc` of src/shared/rpc-health.ts switches, and that a switch is not undone; where
-- it switches to is in Switch.
use native.Mathlib.Omega.{arith}
use text.Mathlib.Text.{◌==◌ as str_eq}
use text.Mathlib.TextEquality.{eq_iff}
use katacomb_vpn.Prelude.{
  ℕ, ◌+◌, ◌≤◌, ◌<◌, String, ◌≡◌, refl, ap, subst, ◌∙◌, inl, inr, Bool, true, false, Option, none,
  some, List, [], ◌∷◌, filter, find, Mem, mem-filter, mem-of-filter, mem-of-find, find-none,
  Option-cases,
}
use katacomb_vpn.Rpc.Health.{
  RpcCandidate, is_healthy, expected_chain_id, heights, max_of, auto_height_tolerance_blocks,
  auto_keep_margin_ms, qualifies_for_auto, is_other, clearly_faster, beats, keep_or_switch,
  pick_auto_rpc,
}
use katacomb_vpn.Rpc.Health.Choice.{IsBetter, fastest-IsBetter}
use katacomb_vpn.Rpc.Health.Switch.{
  IsQualified, IsSwitch, is_other→qualifies, pick_auto_rpc-IsSwitch,
}

abbrev pub HasDistinctEndpoints : List RpcCandidate → Type 0
HasDistinctEndpoints cs =
    (a b : RpcCandidate) → Mem a cs → Mem b cs → a.endpoint ≡ b.endpoint → a ≡ b

find-current :
    (cs : List RpcCandidate) (c : RpcCandidate)
    → HasDistinctEndpoints cs
    → Mem c cs
    → find (λ d. str_eq d.endpoint c.endpoint) cs ≡ some c
find-current cs c distinct m = elim (Option-cases (find (λ d. str_eq d.endpoint c.endpoint) cs)) [
  | inl e ↦ absurd (differs (find-none (λ d. str_eq d.endpoint c.endpoint) {x = c} cs e m))
  | inr (d, e) ↦
      let (k, same) = mem-of-find (λ z. str_eq z.endpoint c.endpoint) {x = d} cs e in
      e ∙ ap some (distinct d c k m ((eq_iff d.endpoint c.endpoint).0 same))
]
  where
    differs : ¬ (str_eq c.endpoint c.endpoint ≡ false)
    differs h = ground (arith, eq_iff c.endpoint c.endpoint)

-- A switch away from a qualified current endpoint is decided by `beats`.
switch-beats :
    (cs : List RpcCandidate) (current target : String) (s : IsSwitch cs current target)
    (c : RpcCandidate)
    → HasDistinctEndpoints cs
    → Mem c cs
    → c.endpoint ≡ current
    → qualifies_for_auto c (max_of (heights cs)) ≡ true
    → beats s.best c ≡ true
switch-beats cs current target s c distinct m at_c q = decide (rw (found) at s.decided)
  where
    found : find (λ d. str_eq d.endpoint current) cs ≡ some c
    found =
        subst (λ z. find (λ d. str_eq d.endpoint z) cs ≡ some c) at_c (find-current cs c distinct m)

    decide :
        keep_or_switch (max_of (heights cs)) (some c) s.best ≡ some target → beats s.best c ≡ true
    decide e = ground arith

max_of-heights-le :
    (cs : List RpcCandidate) (n : ℕ)
    → ((d : RpcCandidate) (h : ℕ) → Mem d cs → d.probe.height ≡ some h → h ≤ n)
    → max_of (heights cs) ≤ n
max_of-heights-le [] n bound = omega arith
max_of-heights-le (c ∷ cs) n bound = elim (Option-cases c.probe.height) [
  | inl e ↦ rw e (max_of-heights-le cs n (λ d h m. bound d h (inr m)))
  | inr (h, e) ↦
      rw e
        (omega (arith, bound c h (inl refl) e, max_of-heights-le cs n (λ d k m. bound d k (inr m))))
]

IsQualified→qualifies :
    (cs : List RpcCandidate) (c : RpcCandidate)
    → IsQualified cs c
    → qualifies_for_auto c (max_of (heights cs)) ≡ true
unfolding qualifies_for_auto
IsQualified→qualifies cs c q =
    rw (q.answered, q.right_chain, q.reported)
      (ground (
        arith,
        q.not_reported,
        eq_iff expected_chain_id expected_chain_id,
        max_of-heights-le cs (q.height + auto_height_tolerance_blocks) q.in_consensus,
      ))

-- One latency is known to be more than the margin below the other.
abbrev IsClearlyFaster : Option ℕ → Option ℕ → Type 0
IsClearlyFaster b c = (n m : ℕ) × (b ≡ some n) × (c ≡ some m) × (n + auto_keep_margin_ms < m)

clearly_faster→IsClearlyFaster : (b c : Option ℕ) → clearly_faster b c ≡ true → IsClearlyFaster b c
clearly_faster→IsClearlyFaster (some n) (some m) h = (n, m, refl, refl, ground arith)
clearly_faster→IsClearlyFaster (some n) none h = cc
clearly_faster→IsClearlyFaster none _ h = cc

-- A qualified current endpoint is left only for a healthy one, and if it is healthy itself only for
-- one that is faster by more than the margin.
pick_auto_rpc_justified :
    (cs : List RpcCandidate) (current target : String) (c : RpcCandidate)
    → HasDistinctEndpoints cs
    → Mem c cs
    → c.endpoint ≡ current
    → IsQualified cs c
    → pick_auto_rpc cs current ≡ some target
    → (b : RpcCandidate) × (b.endpoint ≡ target)
      × (is_healthy b ≡ true)
      × (is_healthy c ≡ true → IsClearlyFaster b.probe.latency_ms c.probe.latency_ms)
pick_auto_rpc_justified cs current target c distinct m at_c q e =
    let s = pick_auto_rpc-IsSwitch cs current target e in
    let b = switch-beats cs current target s c distinct m at_c (IsQualified→qualifies cs c q) in
    (s.best, s.at_target, ground arith, λ h. clearly_faster→IsClearlyFaster _ _ (ground arith))

-- Of two candidates that beat one another, both would be healthy and clearly faster than the other.
beats_asym : (a b : RpcCandidate) → beats a b ≡ true → ¬ (beats b a ≡ true)
beats_asym a b h k = ground arith

IsBetter→not-beats : (a b : RpcCandidate) → IsBetter a b → ¬ (beats b a ≡ true)
IsBetter→not-beats a b h k = ground arith

IsSwitch-asym :
    (cs : List RpcCandidate) (current target again : String)
    → HasDistinctEndpoints cs
    → IsSwitch cs current target
    → ¬ IsSwitch cs target again
IsSwitch-asym cs current target again distinct s t = go (str_eq t.best.endpoint current) refl
  where
    tallest : ℕ
    tallest = max_of (heights cs)

    others : List RpcCandidate
    others = filter (is_other current tallest) cs

    first : Mem s.best others × ((d : RpcCandidate) → Mem d others → IsBetter s.best d)
    first = fastest-IsBetter others s.chosen

    in_list : Mem s.best cs × (is_other current tallest s.best ≡ true)
    in_list = mem-of-filter (is_other current tallest) {x = s.best} cs first.0

    second : Mem t.best cs × (is_other target tallest t.best ≡ true)
    second =
        mem-of-filter (is_other target tallest) {x = t.best} cs
          (fastest-IsBetter (filter (is_other target tallest) cs) t.chosen).0

    back : beats t.best s.best ≡ true
    back =
        switch-beats cs target again t s.best distinct in_list.0 s.at_target
          (is_other→qualifies current tallest s.best in_list.1)

    qualified : qualifies_for_auto t.best tallest ≡ true
    qualified = is_other→qualifies target tallest t.best second.1

    go : (b : Bool) → str_eq t.best.endpoint current ≡ b → ⊥
    go true e =
        beats_asym s.best t.best
          (switch-beats cs current target s t.best distinct second.0
            ((eq_iff t.best.endpoint current).0 e) qualified)
          back
    go false e =
        IsBetter→not-beats s.best t.best
          (first.1 t.best
            (mem-filter (is_other current tallest) cs second.0 (ground (arith, e, qualified))))
          back

-- Once the app has switched, the same readings do not make it switch again: it does not flap.
pub pick_auto_rpc_stable :
    (cs : List RpcCandidate) (current target : String)
    → HasDistinctEndpoints cs
    → pick_auto_rpc cs current ≡ some target
    → pick_auto_rpc cs target ≡ none
pick_auto_rpc_stable cs current target distinct e = elim (Option-cases (pick_auto_rpc cs target)) [
  | inl stays ↦ stays
  | inr (again, e') ↦ absurd (
      IsSwitch-asym cs current target again distinct (pick_auto_rpc-IsSwitch cs current target e)
        (pick_auto_rpc-IsSwitch cs target again e'))
]
