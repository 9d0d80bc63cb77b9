-- ===== src/Guard/V2ray/Doh.antt =====
-- `withV2RayDoH` of src/main/config-guard.ts. A resolver that the table does not name leaves the
-- configuration as it is.
use katacomb_vpn.Prelude.{
  [], ℕ, Bool, false, Option, none, some, List, ◌∷◌, ◌++◌, map, if◌then◌else◌, Result, ok, err,
  filter, any,
}
use katacomb_vpn.Guard.Text.{Text, codes, is_empty, same_text, one_of}
use katacomb_vpn.Guard.Json.{
  Json, text, array, object, number, Fields, no_field, field, of_list, lookup, put, get, as_array,
  as_text, elements,
}
use katacomb_vpn.Guard.V2ray.{
  V2RayError, with_v2ray_diagnostic_log, pin_v2ray_node_addresses, assert_safe_v2ray_config,
}

pub record DohEndpoint : Type 0 where
  pub url : Text
  pub host : Text
  pub ips : List Text

abbrev cloudflare : DohEndpoint
cloudflare = record {
  url = codes "https://cloudflare-dns.com/dns-query";
  host = codes "cloudflare-dns.com";
  ips = codes "1.1.1.1" ∷ codes "1.0.0.1" ∷ [];
}

abbrev google : DohEndpoint
google = record {
  url = codes "https://dns.google/dns-query";
  host = codes "dns.google";
  ips = codes "8.8.8.8" ∷ codes "8.8.4.4" ∷ [];
}

abbrev pub quad9 : DohEndpoint
quad9 = record {
  url = codes "https://dns.quad9.net/dns-query";
  host = codes "dns.quad9.net";
  ips = codes "9.9.9.9" ∷ codes "149.112.112.112" ∷ [];
}

abbrev nextdns : DohEndpoint
nextdns = record {
  url = codes "https://dns.nextdns.io/dns-query";
  host = codes "dns.nextdns.io";
  ips = codes "45.90.28.0" ∷ codes "45.90.30.0" ∷ [];
}

-- `DOH_ENDPOINTS`.
unfoldable pub doh_endpoint : Text → Option DohEndpoint
doh_endpoint ip =
    if one_of ip (codes "1.1.1.1" ∷ codes "1.0.0.1" ∷ [])
    then some cloudflare
    else if same_text ip (codes "8.8.8.8")
    then some google
    else if same_text ip (codes "9.9.9.9")
    then some quad9
    else if same_text ip (codes "45.90.28.0")
    then some nextdns
    else none

abbrev pub texts : List Text → Json
texts ts = array (of_list (map text ts))

-- `tagOf`.
abbrev pub tag_of : Json → Option Text
tag_of j = as_text (get (codes "tag") j)

abbrev is_text_of : Text → Option Text → Bool
is_text_of t none = false
is_text_of t (some u) = same_text u t

abbrev pub is_socks : Json → Bool
is_socks inbound = is_text_of (codes "socks") (as_text (get (codes "protocol") inbound))

abbrev pub onto_tags : Option Text → List Text → List Text
onto_tags none ts = ts
onto_tags (some t) ts = t ∷ ts

abbrev pub tags_of : List Json → List Text
tags_of [] = []
tags_of (j ∷ js) = onto_tags (tag_of j) (tags_of js)

-- `inboundTags` and `interceptTags`.
abbrev pub inbound_tags : Fields → List Text
inbound_tags cfg = tags_of (filter is_socks (elements (as_array (lookup (codes "inbounds") cfg))))

abbrev pub or_proxy : List Text → List Text
or_proxy [] = codes "proxy" ∷ []
or_proxy (t ∷ ts) = t ∷ ts

abbrev pub intercept_tags : Fields → List Text
intercept_tags cfg = or_proxy (inbound_tags cfg)

abbrev is_intercepted : List Text → Option Text → Bool
is_intercepted tags none = false
is_intercepted tags (some t) = one_of t tags

-- The balancer of a rule for one of the tags.
abbrev balancer_of : List Text → Json → Option Text
balancer_of tags rule =
    if any (λ t. is_intercepted tags (as_text (some t)))
      (elements (as_array (get (codes "inboundTag") rule)))
    then as_text (get (codes "balancerTag") rule)
    else none

-- `proxyRule`.
abbrev proxy_balancer : List Text → List Json → Option Text
proxy_balancer tags [] = none
proxy_balancer tags (r ∷ rs) =
    let later = proxy_balancer tags rs in
    elim (balancer_of tags r) [ none ↦ later | some t ↦ some t ]

-- The tag of the first element, if it is one that counts as true.
abbrev filled_tag : Option Text → Option Text
filled_tag none = none
filled_tag (some t) = if is_empty t then none else some t

abbrev first_tag : Option (List Json) → Option Text
first_tag (some (j ∷ js)) = filled_tag (tag_of j)
first_tag _ = none

abbrev to_outbound : Option Text → List (Text × Text)
to_outbound none = []
to_outbound (some t) = (codes "outboundTag", t) ∷ []

abbrev to_balancer_or : Option Text → List (Text × Text) → List (Text × Text)
to_balancer_or none later = later
to_balancer_or (some t) later = (codes "balancerTag", t) ∷ []

-- `egress`: the field of the rule for the requests of the resolver, if there is one.
abbrev pub egress :
    List Text → List Json → Option (List Json) → Option (List Json) → List (Text × Text)
egress tags rules balancers outbounds =
    to_balancer_or (proxy_balancer tags rules)
      (to_balancer_or (first_tag balancers) (to_outbound (first_tag outbounds)))

-- The rule that takes the questions of the system to the resolver.
abbrev pub intercept_rule : List Text → Json
intercept_rule tags = object (
    field (codes "type") (text (codes "field")) (
      field (codes "inboundTag") (texts tags) (
        field (codes "port") (number 53)
          (field (codes "outboundTag") (text (codes "dns-out")) no_field))))

abbrev pub egress_rules : List (Text × Text) → List Json
egress_rules [] = []
egress_rules ((k, t) ∷ _) =
    object (
      field (codes "type") (text (codes "field"))
        (field (codes "inboundTag") (texts (codes "dns-module" ∷ [])) (field k (text t) no_field)))
    ∷ []

abbrev pub dns_block : DohEndpoint → Json
dns_block e = object (
    field (codes "hosts") (object (field e.host (texts e.ips) no_field)) (
      field (codes "servers") (texts (e.url ∷ [])) (
        field (codes "queryStrategy") (text (codes "UseIPv4"))
          (field (codes "tag") (text (codes "dns-module")) no_field))))

abbrev pub dns_out : Json
dns_out = object (
    field (codes "protocol") (text (codes "dns"))
      (field (codes "tag") (text (codes "dns-out")) no_field))

-- `routing`, where it is an object.
abbrev pub routing_of : Option Json → Fields
routing_of (some (object fs)) = fs
routing_of _ = no_field

abbrev pub old_rules : Fields → List Json
old_rules cfg =
    elements (as_array (lookup (codes "rules") (routing_of (lookup (codes "routing") cfg))))

abbrev pub new_rules : Fields → List Json
new_rules cfg =
    let routing = routing_of (lookup (codes "routing") cfg) in
    let tags = intercept_tags cfg in
    intercept_rule tags
    ∷ (egress_rules (
          egress tags (old_rules cfg) (as_array (lookup (codes "balancers") routing))
            (as_array (lookup (codes "outbounds") cfg)))
        ++ old_rules cfg)

abbrev pub with_resolver : DohEndpoint → Fields → Json
with_resolver e cfg = object (
    put (codes "routing")
      (object (
        put (codes "rules") (array (of_list (new_rules cfg)))
          (routing_of (lookup (codes "routing") cfg))))
      (put (codes "outbounds")
        (array (of_list (elements (as_array (lookup (codes "outbounds") cfg)) ++ (dns_out ∷ []))))
        (put (codes "dns") (dns_block e) cfg)))

abbrev pub with_endpoint : Option DohEndpoint → Fields → Json
with_endpoint none cfg = object cfg
with_endpoint (some e) cfg = with_resolver e cfg

-- `withV2RayDoH`, of an object.
abbrev pub with_v2ray_doh : Fields → Text → Json
with_v2ray_doh cfg resolver_ip = with_endpoint (doh_endpoint resolver_ip) cfg

-- What `connectV2RayFromConfig` runs, or the error that it throws before.
abbrev pub with_chosen_doh : Json → Option Text → Json
with_chosen_doh (object cfg) (some ip) = if is_empty ip then object cfg else with_v2ray_doh cfg ip
with_chosen_doh j _ = j

abbrev pub if_safe : Json → Option Text → Option V2RayError → Result V2RayError Json
if_safe cfg doh (some e) = err e
if_safe cfg doh none = ok (with_chosen_doh cfg doh)

abbrev pub prepared :
    (ℕ → Text) → (Text → Option Text) → Json → Option Text → Result V2RayError Json
prepared index_key resolve parsed doh =
    let cfg =
      pin_v2ray_node_addresses index_key resolve (with_v2ray_diagnostic_log index_key parsed) in
    if_safe cfg doh (assert_safe_v2ray_config cfg)
