-- ===== src/Plans/Ranking/Order.antt =====
-- The order in which `rankPlanCandidates` of src/main/plans/plan-connect.ts offers the candidates.

use katacomb_vpn.Prelude.{
  String, ℕ, ◌/◌, ◌≤◌, ◌<◌, ◌≡◌, refl, subst, ◌↔◌, ◌⊎◌, Bool, true, false, none, some, List, [],
  ◌∷◌, arith, ◌==◌, if◌then◌else◌, All, Mem, All-mem, All-of-mem,
}
use katacomb_vpn.Prelude.Sort.{sort, IsSorted, sort-IsSorted, mem-sort, mem-of-sort}
use katacomb_vpn.Plans.Ranking.{
  Candidate, Options, exclusion_reason, eligible, goes_before, latency_bucket, protocol_rank,
  rank_plan_candidates,
}

mem-of-eligible :
    (c : Candidate) (cs : List Candidate) (o : Options)
    → Mem c (eligible cs o)
    → Mem c cs × (exclusion_reason c o ≡ none)
unfolding eligible
mem-of-eligible c [] o m = absurd m
mem-of-eligible c (x ∷ cs) o m = ground (arith, mem-of-eligible c cs o)

mem-eligible :
    (c : Candidate) (cs : List Candidate) (o : Options)
    → Mem c cs
    → exclusion_reason c o ≡ none
    → Mem c (eligible cs o)
unfolding eligible
mem-eligible c [] o m e = absurd m
mem-eligible c (x ∷ cs) o m e = ground (arith, mem-eligible c cs o)

-- What the order goes by: the latency in steps of 25 ms, without one the largest number, and the
-- protocol's place in the order of preference.
abbrev pub cost : Candidate → ℕ
cost c = elim c.latency_ms [ none ↦ 9007199254740991 | some ms ↦ ms / 25 ]

abbrev pub place : ℕ → ℕ
place t =
    if t == 1
    then 0
    else if t == 5
    then 1
    else if t == 4
    then 2
    else if t == 2
    then 3
    else if t == 6
    then 4
    else if t == 3
    then 5
    else 6

latency_bucket-cost : (c : Candidate) → latency_bucket c ≡ cost c
unfolding latency_bucket
latency_bucket-cost c = refl

protocol_rank-place : (t : ℕ) → protocol_rank t ≡ place t
unfolding protocol_rank
protocol_rank-place t = ground arith

-- A listed node of a known protocol that can be run, is active and healthy and answered, and that
-- has a proxy mode or signs its replies where that is asked for.
abbrev pub IsOffered : Options → Candidate → Type 0
IsOffered o c =
    (c.listed ≡ true)
    × ((1 ≤ c.node_type) × (c.node_type ≤ 6))
    × (c.runtime_ok ≡ true)
    × (c.is_active ≡ true)
    × (c.is_healthy ≡ true)
    × (c.probe_failed ≡ false)
    × ((o.require_proxy_capable ≡ false)
        ⊎ ((c.node_type ≡ 2) ⊎ ((c.node_type ≡ 4) ⊎ (c.node_type ≡ 6))))
    × ((o.require_signed ≡ false) ⊎ (c.signs_replies ≡ true))

exclusion_reason→IsOffered :
    (o : Options) (c : Candidate) → exclusion_reason c o ≡ none → IsOffered o c
unfolding exclusion_reason
exclusion_reason→IsOffered o c h = ground arith

IsOffered→exclusion_reason :
    (o : Options) (c : Candidate) → IsOffered o c → exclusion_reason c o ≡ none
unfolding exclusion_reason
IsOffered→exclusion_reason o c h = ground arith

module _ (not_after : String → String → Bool) where
  abbrev pub StandsBefore : Candidate → Candidate → Type 0
  StandsBefore a b =
      (cost a < cost b)
      ⊎ ((cost a ≡ cost b)
          × ((place a.node_type < place b.node_type)
              ⊎ ((place a.node_type ≡ place b.node_type) × (not_after a.address b.address ≡ true))))

  abbrev pub IsRanked : List Candidate → Type 0
  IsRanked [] = Unit
  IsRanked (x ∷ xs) = All (λ y. StandsBefore x y) xs × IsRanked xs

module _ (not_after : String → String → Bool)
    (total : (x y : String) → not_after x y ≡ false → not_after y x ≡ true)
    (trans : (x y z : String)
      → not_after x y ≡ true
      → not_after y z ≡ true
      → not_after x z ≡ true) where
  goes_before_total :
      (a b : Candidate) → goes_before not_after a b ≡ false → goes_before not_after b a ≡ true
  unfolding goes_before
  goes_before_total a b h = ground (arith, total a.address b.address)

  goes_before_trans :
      (a b c : Candidate)
      → goes_before not_after a b ≡ true
      → goes_before not_after b c ≡ true
      → goes_before not_after a c ≡ true
  unfolding goes_before
  goes_before_trans a b c h k = ground (arith, trans a.address b.address c.address)

  goes_before→StandsBefore :
      (a b : Candidate) → goes_before not_after a b ≡ true → StandsBefore not_after a b
  unfolding goes_before
  goes_before→StandsBefore a b h =
      let pa = protocol_rank-place a.node_type in
      let pb = protocol_rank-place b.node_type in
      let ca = latency_bucket-cost a in
      let cb = latency_bucket-cost b in
      subst (λ n. before n (cost b) (place a.node_type) (place b.node_type)) ca
        (subst (λ n. before (latency_bucket a) n (place a.node_type) (place b.node_type)) cb
          (subst (λ n. before (latency_bucket a) (latency_bucket b) n (place b.node_type)) pa
            (subst (λ n. before (latency_bucket a) (latency_bucket b) (protocol_rank a.node_type) n)
              pb (ground arith))))
    where
      before : ℕ → ℕ → ℕ → ℕ → Type 0
      before x y u v =
          (x < y) ⊎ ((x ≡ y) × ((u < v) ⊎ ((u ≡ v) × (not_after a.address b.address ≡ true))))

  IsSorted→IsRanked :
      (cs : List Candidate) → IsSorted (goes_before not_after) cs → IsRanked not_after cs
  IsSorted→IsRanked [] h = tt
  IsSorted→IsRanked (x ∷ xs) (h, s) = (
    All-of-mem _ xs (λ y m. goes_before→StandsBefore x y (All-mem _ xs h m)),
    IsSorted→IsRanked xs s,
  )

  -- The candidates offered are exactly those that are listed, of a known protocol that can be run,
  -- active, healthy and not found silent, and fit what is asked for; they stand in order: by latency
  -- in steps of 25 ms, those without one last, then by the protocol's preference, and then by
  -- address. The order of the addresses is any that is total and transitive.
  pub rank_plan_candidates-IsRanked :
      (cs : List Candidate) (o : Options)
      → IsRanked not_after (rank_plan_candidates not_after cs o).0
        × ((c : Candidate)
            → Mem c (rank_plan_candidates not_after cs o).0 ↔ (Mem c cs × IsOffered o c))
  unfolding rank_plan_candidates
  rank_plan_candidates-IsRanked cs o = (
    IsSorted→IsRanked (sort (goes_before not_after) (eligible cs o))
        (sort-IsSorted (goes_before not_after) goes_before_total goes_before_trans (eligible cs o)),
    λ c. (
      (λ m.
          let (inside, free) =
            mem-of-eligible c cs o (mem-of-sort (goes_before not_after) c (eligible cs o) m) in
          (inside, exclusion_reason→IsOffered o c free)),
      λ (m, e).
          mem-sort (goes_before not_after) c (eligible cs o)
            (mem-eligible c cs o m (IsOffered→exclusion_reason o c e)),
    ),
  )
