-- ===== src/Rpc/Health/Choice.antt =====
-- Which endpoint the two pickers of src/shared/rpc-health.ts return.
use mathlib.Core.Logic.{◌↔◌}
use text.Mathlib.TextEquality.{eq_iff}
use katacomb_vpn.Prelude.{
  ◌≤◌, String, ◌≡◌, refl, sym, subst, ◌∙◌, ◌≢◌, ◌⊎◌, inl, inr, true, false, Option, none, some,
  List, [], ◌∷◌, arith, filter, All, Mem, All-mem, All-of-mem, mem-filter, mem-of-filter,
}
use katacomb_vpn.Prelude.Sort.{sort, head?, IsSorted, mem-of-sort, mem-sort, sort-IsSorted}
use katacomb_vpn.Rpc.Health.{
  RpcCandidate, is_healthy, latency_key, by_latency, tier, fastest, is_usable, is_wrong_chain,
  classify_rpc, pick_best_rpc, expected_chain_id,
}

by_latency_total : (a b : RpcCandidate) → by_latency a b ≡ false → by_latency b a ≡ true
by_latency_total a b h = ground arith

by_latency_trans :
    (a b c : RpcCandidate) → by_latency a b ≡ true → by_latency b c ≡ true → by_latency a c ≡ true
by_latency_trans a b c h k = ground arith

by_latency→le : (a b : RpcCandidate) → by_latency a b ≡ true → latency_key a ≤ latency_key b
by_latency→le a b h = ground arith

-- The head of a list in order is a least one.
head-least :
    (l : List RpcCandidate) {c : RpcCandidate}
    → IsSorted by_latency l
    → head? l ≡ some c
    → Mem c l × ((d : RpcCandidate) → Mem d l → latency_key c ≤ latency_key d)
head-least [] s e = cc
head-least (x ∷ xs) {c} (h, s) e = (inl (cc), λ d m. go d m)
  where
    same : x ≡ c
    same = cc

    go : (d : RpcCandidate) → Mem d (x ∷ xs) → latency_key c ≤ latency_key d
    go d (inl eq) = rw (eq, same) (omega arith)
    go d (inr m) =
        subst (λ z. latency_key z ≤ latency_key d) same (by_latency→le x d (All-mem _ xs h m))

sorted : (cs : List RpcCandidate) → IsSorted by_latency (sort by_latency cs)
sorted = sort-IsSorted by_latency by_latency_total by_latency_trans

-- At least as good a replacement: healthy if the other is, and as fast if both or neither are.
abbrev pub IsBetter : RpcCandidate → RpcCandidate → Type 0
IsBetter c d =
    (is_healthy d ≡ true → is_healthy c ≡ true)
    × (is_healthy c ≡ is_healthy d → latency_key c ≤ latency_key d)

-- The head of the sorted list, for any list.
fastest_of :
    (cs : List RpcCandidate) {c : RpcCandidate}
    → head? (sort by_latency cs) ≡ some c
    → Mem c cs × ((d : RpcCandidate) → Mem d cs → latency_key c ≤ latency_key d)
fastest_of cs {c} e =
    let (m, least) = head-least (sort by_latency cs) (sorted cs) e in
    (mem-of-sort by_latency c cs m, λ d k. least d (mem-sort by_latency d cs k))

fastest-cases :
    (cs hs : List RpcCandidate) {c : RpcCandidate}
    → filter is_healthy cs ≡ hs
    → fastest cs ≡ some c
    → Mem c cs × ((d : RpcCandidate) → Mem d cs → IsBetter c d)
fastest-cases cs [] {c} eq e =
    let (m, least) = fastest_of cs (rw (eq, tier) at e) in
    (m, λ d k. (λ h. absurd (rw eq at (mem-filter is_healthy cs k h)), λ _. least d k))
fastest-cases cs (h ∷ hs) {c} eq e =
    let (m, least) = fastest_of (h ∷ hs) (rw (eq, tier) at e) in
    let (mem, healthy) = mem-of-filter is_healthy {x = c} cs (rw eq m) in
    (
      mem,
      λ d k. (
        λ _. healthy,
        λ same. least d (rw eq at (mem-filter is_healthy cs k (sym same ∙ healthy))),
      ),
    )

pub fastest-IsBetter :
    (cs : List RpcCandidate) {c : RpcCandidate}
    → fastest cs ≡ some c
    → Mem c cs × ((d : RpcCandidate) → Mem d cs → IsBetter c d)
fastest-IsBetter cs e = fastest-cases cs _ refl e

head?-none : (l : List RpcCandidate) (d : RpcCandidate) → head? l ≡ none → ¬ Mem d l
head?-none [] d e m = m
head?-none (x ∷ xs) d e m = cc

fastest-none_cases :
    (cs hs : List RpcCandidate) (d : RpcCandidate)
    → filter is_healthy cs ≡ hs
    → fastest cs ≡ none
    → ¬ Mem d cs
fastest-none_cases cs [] d eq e m =
    head?-none (sort by_latency cs) d (rw (eq, tier) at e) (mem-sort by_latency d cs m)
fastest-none_cases cs (h ∷ hs) d eq e m =
    head?-none (sort by_latency (h ∷ hs)) h (rw (eq, tier) at e)
      (mem-sort by_latency h (h ∷ hs) (inl refl))

fastest-none : (cs : List RpcCandidate) (d : RpcCandidate) → fastest cs ≡ none → ¬ Mem d cs
fastest-none cs d e = fastest-none_cases cs _ d refl e

fastest-nil : (cs : List RpcCandidate) → ((d : RpcCandidate) → ¬ Mem d cs) → fastest cs ≡ none
fastest-nil [] h = refl
fastest-nil (c ∷ cs) h = absurd (h c (inl refl))

-- What a replacement must satisfy, in words of the data: another endpoint, not reported as failing
-- by the aggregator, that answered and is not on another chain.
pub record IsUsable (current : String) (c : RpcCandidate) : Type 0 where
  pub other : c.endpoint ≢ current
  pub not_reported : c.aggregator_healthy ≢ some false
  pub answered : c.probe.reachable ≡ true
  pub right_chain : (c.probe.chain_id ≡ none) ⊎ (c.probe.chain_id ≡ some expected_chain_id)

is_wrong_chain-false :
    (o : Option String) → is_wrong_chain o ≡ false → (o ≡ none) ⊎ (o ≡ some expected_chain_id)
is_wrong_chain-false none h = inl refl
is_wrong_chain-false (some id) h = inr (ground (arith, eq_iff id expected_chain_id))

is_usable→IsUsable :
    (current : String) (c : RpcCandidate) → is_usable current c ≡ true → IsUsable current c
unfolding classify_rpc
is_usable→IsUsable current c h = record {
  other = ground (arith, eq_iff c.endpoint current);
  not_reported = ground arith;
  answered = ground arith;
  right_chain = is_wrong_chain-false c.probe.chain_id (ground arith);
}

IsUsable→is_usable :
    (current : String) (c : RpcCandidate) → IsUsable current c → is_usable current c ≡ true
unfolding classify_rpc
IsUsable→is_usable current c u =
    ground (arith, eq_iff c.endpoint current, eq_iff expected_chain_id expected_chain_id)

-- The endpoint offered by `pickBestRpc` is a candidate, is usable, and is at least as good as every
-- usable candidate: healthy if any of those is, and the fastest of its tier.
pick_best_rpc_sound :
    (cs : List RpcCandidate) (current : String) (c : RpcCandidate)
    → pick_best_rpc cs current ≡ some c
    → Mem c cs
      × IsUsable current c
      × ((d : RpcCandidate) → Mem d cs → IsUsable current d → IsBetter c d)
unfolding pick_best_rpc
pick_best_rpc_sound cs current c e =
    let (m, best) = fastest-IsBetter (filter (is_usable current) cs) e in
    let (mem, usable) = mem-of-filter (is_usable current) {x = c} cs m in
    (
      mem,
      is_usable→IsUsable current c usable,
      λ d k u. best d (mem-filter (is_usable current) cs k (IsUsable→is_usable current d u)),
    )

-- `pickBestRpc` offers nothing exactly when no candidate is usable.
pick_best_rpc-none_iff :
    (cs : List RpcCandidate) (current : String)
    → (pick_best_rpc cs current ≡ none) ↔ All (λ d. ¬ IsUsable current d) cs
unfolding pick_best_rpc
pick_best_rpc-none_iff cs current = (
  λ e. All-of-mem _ cs (λ d k u.
      fastest-none (filter (is_usable current) cs) d e
        (mem-filter (is_usable current) cs k (IsUsable→is_usable current d u))),
  λ a. fastest-nil (filter (is_usable current) cs) (λ d k.
      let (mem, usable) = mem-of-filter (is_usable current) {x = d} cs k in
      All-mem _ cs a mem (is_usable→IsUsable current d usable)),
)
