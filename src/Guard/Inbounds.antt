-- ===== src/Guard/Inbounds.antt =====
-- The encryption policy of V2Ray inbounds (src/main/config-guard.ts).
use katacomb_vpn.Prelude.{
  String, ℕ, ◌<◌, ◌≡◌, refl, sym, subst, ◌↔◌, inl, inr, Bool, true, false, not, ◌&&◌, List, [], ◌∷◌,
  arith, ltb, ◌==◌, if◌then◌else◌, Bool-cases, length, filter, any, all, Mem, mem-filter,
  mem-of-filter,
}

-- `V2RayMetadata`: the numbers of the two enumerations of the chain's SDK.
pub record V2RayMetadata : Type 0 where
  pub proxy_protocol : ℕ
  pub transport_security : ℕ

pub data V2RayInboundClass : Type 0 where
  acceptable cleartext : V2RayInboundClass

abbrev proxy_vless : ℕ
proxy_vless = 1

abbrev proxy_vmess : ℕ
proxy_vmess = 2

abbrev security_none : ℕ
security_none = 1

abbrev security_tls : ℕ
security_tls = 2

-- `classifyV2RayInbound`.
unfoldable pub classify_v2ray_inbound : V2RayMetadata → V2RayInboundClass
classify_v2ray_inbound m =
    if m.proxy_protocol == proxy_vmess
    then acceptable
    else if m.transport_security == security_tls
    then acceptable
    else if (m.proxy_protocol == proxy_vless) && (m.transport_security == security_none)
    then cleartext
    else acceptable

abbrev is_acceptable_class : V2RayInboundClass → Bool
is_acceptable_class acceptable = true
is_acceptable_class cleartext = false

abbrev is_acceptable : V2RayMetadata → Bool
is_acceptable m = is_acceptable_class (classify_v2ray_inbound m)

-- `filterV2RayMetadata`.
unfoldable pub filter_v2ray_metadata : List V2RayMetadata → List V2RayMetadata
filter_v2ray_metadata metadata =
    let kept = filter is_acceptable metadata in if ltb 0 (length kept) then kept else []

-- `isAllCleartext`.
unfoldable pub is_all_cleartext : List V2RayMetadata → Bool
is_all_cleartext metadata = ltb 0 (length metadata) && all (λ m. not (is_acceptable m)) metadata

-- `v2raySecurityBadge`.
unfoldable pub v2ray_security_badge : List V2RayMetadata → String
v2ray_security_badge metadata =
    let has_vmess = any (λ m. m.proxy_protocol == proxy_vmess) metadata in
    let has_tls = any (λ m. m.transport_security == security_tls) metadata in
    if length metadata == 0
    then "unknown"
    else if is_all_cleartext metadata
    then "VLess ⚠"
    else if has_vmess
    then if has_tls then "VMess+TLS" else "VMess"
    else if has_tls
    then "VLess+TLS"
    else "VLess"

-- VLess, which has no cipher of its own, over a transport without one.
unfoldable pub IsClear : V2RayMetadata → Type 0
IsClear m = (m.proxy_protocol ≡ 1) × (m.transport_security ≡ 1)

is_acceptable-false_iff : (m : V2RayMetadata) → (is_acceptable m ≡ false) ↔ IsClear m
unfolding IsClear classify_v2ray_inbound
is_acceptable-false_iff m = ground arith

filter-none_iff :
    (xs : List V2RayMetadata)
    → (length (filter is_acceptable xs) ≡ 0) ↔ (all (λ m. not (is_acceptable m)) xs ≡ true)
filter-none_iff [] = ground arith
filter-none_iff (x ∷ xs) = ground (arith, filter-none_iff xs)

kept_of : (xs : List V2RayMetadata) → (if ltb 0 (length xs) then xs else []) ≡ xs
kept_of [] = refl
kept_of (x ∷ xs) = ground arith

filter_v2ray_metadata-filter :
    (xs : List V2RayMetadata) → filter_v2ray_metadata xs ≡ filter is_acceptable xs
unfolding filter_v2ray_metadata
filter_v2ray_metadata-filter xs = kept_of (filter is_acceptable xs)

is_acceptable-true : (m : V2RayMetadata) → is_acceptable m ≡ true → ¬ IsClear m
is_acceptable-true m e c = ground (arith, is_acceptable-false_iff m)

is_acceptable-of : (m : V2RayMetadata) → ¬ IsClear m → is_acceptable m ≡ true
is_acceptable-of m n = elim (Bool-cases (is_acceptable m)) [
  | inl e ↦ e
  | inr e ↦ absurd (n ((is_acceptable-false_iff m).0 e))
]

kept_iff :
    (xs : List V2RayMetadata) (m : V2RayMetadata)
    → Mem m (filter is_acceptable xs) ↔ (Mem m xs × (¬ IsClear m))
kept_iff xs m = (
  (λ k. let (h, e) = mem-of-filter is_acceptable xs k in (h, is_acceptable-true m e)),
  (λ (h, n). mem-filter is_acceptable xs h (is_acceptable-of m n)),
)

none_kept_iff :
    (xs : List V2RayMetadata)
    → 0 < length xs
    → (length (filter is_acceptable xs) ≡ 0) ↔ (is_all_cleartext xs ≡ true)
unfolding is_all_cleartext
none_kept_iff [] h = absurd (omega arith)
none_kept_iff (x ∷ xs) h = ground (arith, filter-none_iff (x ∷ xs))

-- An offered inbound is kept exactly when it is not VLess without transport security, nothing else
-- is kept, and of an offer that is not empty nothing is kept exactly when all of it is in clear.
pub filter_v2ray_metadata_iff :
    (metadata : List V2RayMetadata)
    → ((m : V2RayMetadata)
        → Mem m (filter_v2ray_metadata metadata) ↔ (Mem m metadata × (¬ IsClear m)))
      × ((0 < length metadata)
          → (length (filter_v2ray_metadata metadata) ≡ 0) ↔ (is_all_cleartext metadata ≡ true))
filter_v2ray_metadata_iff metadata =
    subst
      (λ kept.
        ((m : V2RayMetadata) → Mem m kept ↔ (Mem m metadata × (¬ IsClear m)))
        × ((0 < length metadata) → (length kept ≡ 0) ↔ (is_all_cleartext metadata ≡ true)))
      (sym (filter_v2ray_metadata-filter metadata))
      ((λ m. kept_iff metadata m), none_kept_iff metadata)
