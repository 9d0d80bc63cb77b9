-- ===== src/Hops/Diversity.antt =====
-- src/renderer/utils/chain-diversity.ts: what links the two hops of a chain. Texts are compared by
-- `same`; the texts of the node list are given trimmed, `none` for an empty one, and a host by its
-- labels, the last first, and its octets if it is an IPv4 literal.
use katacomb_vpn.Prelude.{
  ℕ, zero, suc, ◌+◌, ◌≡◌, ◌≤◌, ◌<◌, ◌↔◌, inl, inr, refl, sym, ap, Bool, true, false, ◌&&◌, ◌||◌,
  Option, none, some, List, [], ◌∷◌, ◌++◌, arith, ltb, leb, ◌==◌, if◌then◌else◌, length, any,
  is_some, Bool-cases,
}

pub record Octets : Type 0 where
  pub first : ℕ
  pub second : ℕ
  pub third : ℕ
  pub fourth : ℕ

pub record Host (Text : Type 0) : Type 0 where
  pub labels : List Text
  pub octets : Option Octets

pub record Hop (Text : Type 0) : Type 0 where
  pub asn : Option Text
  pub host : Option (Host Text)
  pub country : Option Text

pub data Issue (Text : Type 0) : Type 0 where
  same_asn : Text → Issue Text
  same_subnet : ℕ × ℕ × ℕ → Issue Text
  same_domain : List Text → Issue Text
  same_country : Text → Issue Text

abbrev is_byte : ℕ → Bool
is_byte n = leb n 255

-- The first three octets, which name the network of 256 addresses.
abbrev pub slash24 : Option Octets → Option (ℕ × ℕ × ℕ)
slash24 none = none
slash24 (some o) =
    if is_byte o.first && (is_byte o.second && (is_byte o.third && is_byte o.fourth))
    then some (o.first, o.second, o.third)
    else none

module _ {Text : Type 0} where
  unfoldable ipv4_slash24 : Option (Host Text) → Option (ℕ × ℕ × ℕ)
  ipv4_slash24 none = none
  ipv4_slash24 (some h) = slash24 h.octets

  -- `slice` of the labels that are shared.
  abbrev first_labels : ℕ → List Text → List Text
  first_labels zero xs = []
  first_labels (suc n) [] = []
  first_labels (suc n) (x ∷ xs) = x ∷ first_labels n xs

  module _ (same : Text → Text → Bool) where
    -- The loop that counts the labels shared from the end.
    abbrev count_shared : List Text → List Text → ℕ
    count_shared (x ∷ xs) (y ∷ ys) = if same x y then suc (count_shared xs ys) else 0
    count_shared _ _ = 0

    abbrev domain_of : List Text → List Text → Option (List Text)
    domain_of xs ys =
        let n = count_shared xs ys in
        if ltb n 2 || (leb (length xs) n || leb (length ys) n)
        then none
        else some (first_labels n xs)

    -- Equal hosts have equal labels, so their labels are all shared and nothing is reported.
    unfoldable pub shared_domain : Option (Host Text) → Option (Host Text) → Option (List Text)
    shared_domain (some a) (some b) =
        if is_some (slash24 a.octets) || is_some (slash24 b.octets)
        then none
        else domain_of a.labels b.labels
    shared_domain _ _ = none

    abbrev both_same : Option Text → Option Text → Option Text
    both_same (some x) (some y) = if same x y then some x else none
    both_same _ _ = none

    abbrev both_subnets : Option (ℕ × ℕ × ℕ) → Option (ℕ × ℕ × ℕ) → Option (ℕ × ℕ × ℕ)
    both_subnets (some (a, b, c)) (some (x, y, z)) =
        if (a == x) && ((b == y) && (c == z)) then some (a, b, c) else none
    both_subnets _ _ = none

    abbrev report_if : {A : Type 0} → (A → Issue Text) → Option A → List (Issue Text)
    report_if f none = []
    report_if f (some x) = f x ∷ []

    unfoldable chain_diversity_issues : Hop Text → Hop Text → List (Issue Text)
    chain_diversity_issues entry exit =
        report_if same_asn (both_same entry.asn exit.asn)
        ++ (report_if same_subnet (both_subnets (ipv4_slash24 entry.host) (ipv4_slash24 exit.host))
            ++ (report_if same_domain (shared_domain entry.host exit.host)
                ++ report_if same_country (both_same entry.country exit.country)))

    abbrev is_operator : Issue Text → Bool
    is_operator (same_country _) = false
    is_operator _ = true

    abbrev has_operator_overlap : List (Issue Text) → Bool
    has_operator_overlap issues = any is_operator issues

    module _ (same_iff : (x y : Text) → (same x y ≡ true) ↔ (x ≡ y)) where
      -- What two lists share from their start, and where they part.
      count_shared-Parts :
          (xs ys : List Text)
          → (rest other : List Text) × (xs ≡ first_labels (count_shared xs ys) xs ++ rest)
            × (ys ≡ first_labels (count_shared xs ys) xs ++ other)
            × (length (first_labels (count_shared xs ys) xs) ≡ count_shared xs ys)
            × (length xs ≡ count_shared xs ys + length rest)
            × (length ys ≡ count_shared xs ys + length other)
      count_shared-Parts [] ys = ([], ys, refl, refl, refl, refl, omega arith)
      count_shared-Parts (x ∷ xs) [] = (x ∷ xs, [], refl, refl, refl, omega arith, refl)
      count_shared-Parts (x ∷ xs) (y ∷ ys) = elim (Bool-cases (same x y)) [
        | inl e ↦
            let (rest, other, p, q, n, k, l) = count_shared-Parts xs ys in
            let eq : x ≡ y = (same_iff x y).0 e in
            (
              rest,
              other,
              rw e (ap (λ r. x ∷ r) p),
              rw e (cc),
              rw e (omega (arith, n)),
              rw e (omega (arith, k)),
              rw e (omega (arith, l)),
            )
        | inr e ↦ rw e (x ∷ xs, y ∷ ys, refl, refl, refl, omega arith, omega arith)
      ]

      domain_of-Shared :
          (xs ys d : List Text)
          → domain_of xs ys ≡ some d
          → (rest other : List Text) × (xs ≡ d ++ rest)
            × (ys ≡ d ++ other)
            × (0 < length rest)
            × (0 < length other)
            × (2 ≤ length d)
      domain_of-Shared xs ys d e =
          let (rest, other, p, q, n, k, l) = count_shared-Parts xs ys in
          let (same_d, a, b, c) = passed (count_shared xs ys) e in
          (
            rest,
            other,
            rw (sym same_d) p,
            rw (sym same_d) q,
            omega (arith, k, b),
            omega (arith, l, c),
            rw (sym same_d) (omega (arith, n, a)),
          )
        where
          passed :
              (n : ℕ)
              → (if ltb n 2 || (leb (length xs) n || leb (length ys) n)
                  then none
                  else some (first_labels n xs))
                ≡ some d
              → (first_labels n xs ≡ d) × (2 ≤ n) × (n < length xs) × (n < length ys)
          passed n e = ground arith

      -- A shared domain that is reported is one: both hosts are names, not addresses, that end in its
      -- labels, two at least, and each has a label of its own before them.
      pub shared_domain_sound :
          (a b : Option (Host Text)) (d : List Text)
          → shared_domain a b ≡ some d
          → (h k : Host Text) × (a ≡ some h)
            × (b ≡ some k)
            × (slash24 h.octets ≡ none)
            × (slash24 k.octets ≡ none)
            × ((rest other : List Text) × (h.labels ≡ d ++ rest)
                × (k.labels ≡ d ++ other)
                × (0 < length rest)
                × (0 < length other)
                × (2 ≤ length d))
      unfolding shared_domain
      shared_domain_sound none b d e = cc
      shared_domain_sound (some h) none d e = cc
      shared_domain_sound (some h) (some k) d e = (
        h,
        k,
        refl,
        refl,
        ground arith,
        ground arith,
        domain_of-Shared h.labels k.labels d (ground arith),
      )

      count_shared_comm :
          (xs ys : List Text)
          → (count_shared xs ys ≡ count_shared ys xs)
            × (first_labels (count_shared xs ys) xs ≡ first_labels (count_shared ys xs) ys)
      count_shared_comm [] [] = (refl, refl)
      count_shared_comm [] (y ∷ ys) = (refl, refl)
      count_shared_comm (x ∷ xs) [] = (refl, refl)
      count_shared_comm (x ∷ xs) (y ∷ ys) =
          ground (arith, count_shared_comm xs ys, same_iff x y, same_iff y x)

      domain_of_comm : (xs ys : List Text) → domain_of xs ys ≡ domain_of ys xs
      domain_of_comm xs ys = ground (arith, count_shared_comm xs ys)

      shared_domain_comm : (a b : Option (Host Text)) → shared_domain a b ≡ shared_domain b a
      unfolding shared_domain
      shared_domain_comm none none = refl
      shared_domain_comm none (some k) = refl
      shared_domain_comm (some h) none = refl
      shared_domain_comm (some h) (some k) = ground (arith, domain_of_comm h.labels k.labels)

      both_same_comm : (a b : Option Text) → both_same a b ≡ both_same b a
      both_same_comm none none = refl
      both_same_comm none (some y) = refl
      both_same_comm (some x) none = refl
      both_same_comm (some x) (some y) = ground (arith, same_iff x y, same_iff y x)

      both_subnets_comm : (a b : Option (ℕ × ℕ × ℕ)) → both_subnets a b ≡ both_subnets b a
      both_subnets_comm none none = refl
      both_subnets_comm none (some y) = refl
      both_subnets_comm (some x) none = refl
      both_subnets_comm (some (a, b, c)) (some (x, y, z)) = ground arith

      -- Which node is the entry makes no difference to what is reported.
      chain_diversity_issues_comm :
          (a b : Hop Text) → chain_diversity_issues a b ≡ chain_diversity_issues b a
      unfolding chain_diversity_issues
      chain_diversity_issues_comm a b =
          rw
            (
              both_same_comm a.asn b.asn,
              both_subnets_comm (ipv4_slash24 a.host) (ipv4_slash24 b.host),
              shared_domain_comm a.host b.host,
              both_same_comm a.country b.country,
            )
            refl
