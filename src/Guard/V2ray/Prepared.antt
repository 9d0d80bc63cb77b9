-- ===== src/Guard/V2ray/Prepared.antt =====
-- What `connectV2RayFromConfig` runs: the guard of src/main/config-guard.ts stands before
-- `withV2RayDoH`, and the configuration behind it passes too.
use katacomb_vpn.Prelude.{
  [], ℕ, ◌≡◌, refl, ap, ◌∙◌, subst, true, false, Option, none, some, List, ◌∷◌, ◌++◌, arith,
  if_both, ok, all,
}
use katacomb_vpn.Guard.Text.{Text, codes, is_empty, same_text}
use katacomb_vpn.Guard.Json.{
  Json, null, boolean, text, array, object, number, Fields, of_list, to_list-of_list, lookup, put,
  get, as_array, elements, lookup-put_self, lookup-put_other, spread,
}
use katacomb_vpn.Guard.V2ray.{
  V2RayError, has_elements, logs_to_no_path, listens_on_loopback, unsafe_fields,
  assert_safe_v2ray_config, diagnostic_log, pin_outbounds, pin_fields,
}
use katacomb_vpn.Guard.V2ray.Doh.{
  DohEndpoint, doh_endpoint, with_resolver, with_endpoint, with_chosen_doh, if_safe, prepared,
  routing_of, dns_out, dns_block,
}

-- The guard asks for outbounds, and is content with more of them.
unsafe_fields-none :
    (outbounds log inbounds : Option Json)
    → unsafe_fields outbounds log inbounds ≡ none
    → (has_elements (as_array outbounds) ≡ true)
      × (logs_to_no_path log ≡ true)
      × (all listens_on_loopback (elements (as_array inbounds)) ≡ true)
unfolding unsafe_fields
unsafe_fields-none outbounds log inbounds e = ground arith

unsafe_fields-of :
    (outbounds log inbounds : Option Json)
    → has_elements (as_array outbounds) ≡ true
    → logs_to_no_path log ≡ true
    → all listens_on_loopback (elements (as_array inbounds)) ≡ true
    → unsafe_fields outbounds log inbounds ≡ none
unfolding unsafe_fields
unsafe_fields-of outbounds log inbounds o l i = rw (o) (rw (l) (rw (i) refl))

has_elements-append : (js : List Json) (j : Json) → has_elements (some (js ++ (j ∷ []))) ≡ true
has_elements-append [] j = refl
has_elements-append (k ∷ js) j = refl

-- The fields of a configuration with a resolver.
module _ (e : DohEndpoint) (cfg : Fields) where
  with_resolver-lookup :
      (k : Text)
      → same_text k (codes "routing") ≡ false
      → same_text k (codes "outbounds") ≡ false
      → same_text k (codes "dns") ≡ false
      → get k (with_resolver e cfg) ≡ lookup k cfg
  with_resolver-lookup k r o d =
      lookup-put_other (codes "routing") k _ _ r
      ∙ lookup-put_other (codes "outbounds") k _ _ o
      ∙ lookup-put_other (codes "dns") k (dns_block e) cfg d

  with_resolver-outbounds :
      get (codes "outbounds") (with_resolver e cfg)
      ≡ some
          (array (of_list (elements (as_array (lookup (codes "outbounds") cfg)) ++ (dns_out ∷ []))))
  with_resolver-outbounds =
      lookup-put_other (codes "routing") (codes "outbounds") _ _ refl
      ∙ lookup-put_self (codes "outbounds") _ (put (codes "dns") (dns_block e) cfg)

  with_resolver-IsSafe :
      assert_safe_v2ray_config (object cfg) ≡ none
      → assert_safe_v2ray_config (with_resolver e cfg) ≡ none
  with_resolver-IsSafe h =
      let (_, l, i) =
        unsafe_fields-none (lookup (codes "outbounds") cfg) (lookup (codes "log") cfg)
          (lookup (codes "inbounds") cfg) h in
      let outs = elements (as_array (lookup (codes "outbounds") cfg)) in
      unsafe_fields-of (get (codes "outbounds") (with_resolver e cfg))
        (get (codes "log") (with_resolver e cfg)) (get (codes "inbounds") (with_resolver e cfg))
        (ap (λ o. has_elements (as_array o)) with_resolver-outbounds
          ∙ ap (λ js. has_elements (some js)) (to_list-of_list (outs ++ (dns_out ∷ [])))
          ∙ has_elements-append outs dns_out)
        (ap logs_to_no_path (with_resolver-lookup (codes "log") refl refl refl) ∙ l)
        (ap (λ o. all listens_on_loopback (elements (as_array o)))
            (with_resolver-lookup (codes "inbounds") refl refl refl)
          ∙ i)

-- What is said of a configuration that is run: it passes the guard, and its log is the diagnostic one.
abbrev pub IsRunnable : Json → Type 0
IsRunnable j = (assert_safe_v2ray_config j ≡ none) × (get (codes "log") j ≡ some diagnostic_log)

with_endpoint-IsRunnable :
    (o : Option DohEndpoint) (cfg : Fields)
    → IsRunnable (object cfg)
    → IsRunnable (with_endpoint o cfg)
with_endpoint-IsRunnable none cfg h = h
with_endpoint-IsRunnable (some e) cfg (safe, log) =
    (with_resolver-IsSafe e cfg safe, with_resolver-lookup e cfg (codes "log") refl refl refl ∙ log)

with_chosen_doh-IsRunnable :
    (j : Json) (doh : Option Text) → IsRunnable j → IsRunnable (with_chosen_doh j doh)
with_chosen_doh-IsRunnable null doh h = h
with_chosen_doh-IsRunnable (boolean b) doh h = h
with_chosen_doh-IsRunnable (number n) doh h = h
with_chosen_doh-IsRunnable (text t) doh h = h
with_chosen_doh-IsRunnable (array is) doh h = h
with_chosen_doh-IsRunnable (object cfg) none h = h
with_chosen_doh-IsRunnable (object cfg) (some ip) h =
    if_both IsRunnable (is_empty ip) h (with_endpoint-IsRunnable (doh_endpoint ip) cfg h)

pin_outbounds-log :
    (resolve : Text → Option Text) (cfg : Fields) (o : Option (List Json))
    → get (codes "log") (pin_outbounds resolve cfg o) ≡ lookup (codes "log") cfg
pin_outbounds-log resolve cfg none = refl
pin_outbounds-log resolve cfg (some obs) =
    lookup-put_other (codes "outbounds") (codes "log") _ cfg refl

if_safe-IsRunnable :
    (cfg : Json) (doh : Option Text) (thrown : Option V2RayError) {final : Json}
    → assert_safe_v2ray_config cfg ≡ thrown
    → get (codes "log") cfg ≡ some diagnostic_log
    → if_safe cfg doh thrown ≡ ok final
    → IsRunnable final
if_safe-IsRunnable cfg doh (some e) a l h = absurd (cc h)
if_safe-IsRunnable cfg doh none {final} a l h =
    subst IsRunnable (cc h) (with_chosen_doh-IsRunnable cfg doh (a, l))

-- A configuration that `connectV2RayFromConfig` runs passes the guard also behind the injection of a
-- resolver, which comes after the test, and logs to no file.
pub prepared-IsRunnable :
    (index_key : ℕ → Text) (resolve : Text → Option Text) (parsed : Json) (doh : Option Text)
    {final : Json}
    → prepared index_key resolve parsed doh ≡ ok final
    → IsRunnable final
prepared-IsRunnable index_key resolve parsed doh h =
    let logged = put (codes "log") diagnostic_log (spread index_key parsed) in
    let cfg = pin_fields resolve logged in
    if_safe-IsRunnable cfg doh (assert_safe_v2ray_config cfg) refl
      (pin_outbounds-log resolve logged (as_array (lookup (codes "outbounds") logged))
        ∙ lookup-put_self (codes "log") diagnostic_log (spread index_key parsed))
      h

-- The rules of a configuration, in the order in which the core reads them.
abbrev pub rules_of : Json → List Json
rules_of j = elements (as_array (lookup (codes "rules") (routing_of (get (codes "routing") j))))
