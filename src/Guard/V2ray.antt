-- ===== src/Guard/V2ray.antt =====
-- The V2Ray configuration on its way to the core: `withV2RayDiagnosticLog`, `pinV2RayNodeAddresses`,
-- `assertSafeV2RayConfig` and `withV2RayDoH` of src/main/config-guard.ts, in the order of
-- `connectV2RayFromConfig` (src/main/vpn/vpn-manager.ts). How an index is spelled as a key is a
-- parameter, and so is the resolver of names.
pub mod Doh
pub mod Prepared
mod Tests
use katacomb_vpn.Prelude.{
  [], ℕ, ◌-◌, ◌/◌, ◌≡◌, Bool, true, false, not, ◌&&◌, ◌||◌, Option, none, some, List, ◌∷◌, map,
  if◌then◌else◌, tests, all,
}
use katacomb_vpn.Guard.Text.{Text, codes, is_empty, same_text, one_of}
use katacomb_vpn.Guard.Bypass.{is_ipv4}
use katacomb_vpn.Guard.Json.{
  Json, text, array, object, Fields, no_field, field, of_list, lookup, put, get, as_array, as_text,
  elements, spread,
}

pub data V2RayError : Type 0 where
  no_object missing_outbounds log_path not_loopback : V2RayError

abbrev v2ray_loopback : List Text
v2ray_loopback = codes "127.0.0.1" ∷ codes "localhost" ∷ codes "::1" ∷ []

-- A log field that is no path of a file.
abbrev is_no_path : Option Text → Bool
is_no_path none = true
is_no_path (some v) = is_empty v || same_text v (codes "none")

abbrev pub logs_to_no_path : Option Json → Bool
logs_to_no_path none = true
logs_to_no_path (some log) =
    is_no_path (as_text (get (codes "access") log))
    && is_no_path (as_text (get (codes "error") log))

abbrev is_loopback : Option Text → Bool
is_loopback none = true
is_loopback (some listen) = one_of listen v2ray_loopback

abbrev pub listens_on_loopback : Json → Bool
listens_on_loopback inbound = is_loopback (as_text (get (codes "listen") inbound))

abbrev pub has_elements : Option (List Json) → Bool
has_elements none = false
has_elements (some []) = false
has_elements (some (_ ∷ _)) = true

-- The tests on the fields of a configuration: what is thrown, if anything is.
unfoldable pub unsafe_fields : Option Json → Option Json → Option Json → Option V2RayError
unsafe_fields outbounds log inbounds =
    if not (has_elements (as_array outbounds))
    then some missing_outbounds
    else if not (logs_to_no_path log)
    then some log_path
    else if not (all listens_on_loopback (elements (as_array inbounds)))
    then some not_loopback
    else none

-- `assertSafeV2RayConfig`.
abbrev pub assert_safe_v2ray_config : Json → Option V2RayError
assert_safe_v2ray_config (object fs) =
    unsafe_fields (lookup (codes "outbounds") fs) (lookup (codes "log") fs)
      (lookup (codes "inbounds") fs)
assert_safe_v2ray_config _ = some no_object

-- The log of `withV2RayDiagnosticLog`.
abbrev pub diagnostic_log : Json
diagnostic_log = object (
    field (codes "access") (text (codes "none")) (
      field (codes "error") (text []) (field (codes "loglevel") (text (codes "warning")) no_field)))

module _ (resolve : Text → Option Text) where
  abbrev pin_address : Fields → Option Text → Json
  pin_address v none = object v
  pin_address v (some ip) =
      if is_empty ip then object v else object (put (codes "address") (text ip) v)

  abbrev pin_named : Fields → Option Text → Json
  pin_named v none = object v
  pin_named v (some address) = if is_ipv4 address then object v else pin_address v (resolve address)

  -- One entry of `vnext`.
  abbrev pin_server : Json → Json
  pin_server (object v) = pin_named v (as_text (lookup (codes "address") v))
  pin_server j = j

  abbrev pin_settings : Fields → Fields → Option (List Json) → Json
  pin_settings ob settings none = object ob
  pin_settings ob settings (some servers) = object (
      put (codes "settings")
        (object (put (codes "vnext") (array (of_list (map pin_server servers))) settings)) ob)

  abbrev pin_with_settings : Fields → Option Json → Json
  pin_with_settings ob (some (object settings)) =
      pin_settings ob settings (as_array (lookup (codes "vnext") settings))
  pin_with_settings ob _ = object ob

  abbrev pin_outbound : Json → Json
  pin_outbound (object ob) = pin_with_settings ob (lookup (codes "settings") ob)
  pin_outbound j = j

  abbrev pub pin_outbounds : Fields → Option (List Json) → Json
  pin_outbounds cfg none = object cfg
  pin_outbounds cfg (some obs) =
      object (put (codes "outbounds") (array (of_list (map pin_outbound obs))) cfg)

  abbrev pub pin_fields : Fields → Json
  pin_fields cfg = pin_outbounds cfg (as_array (lookup (codes "outbounds") cfg))

module _ (index_key : ℕ → Text) where
  -- `withV2RayDiagnosticLog`.
  abbrev pub with_v2ray_diagnostic_log : Json → Json
  with_v2ray_diagnostic_log config =
      object (put (codes "log") diagnostic_log (spread index_key config))

  -- `pinV2RayNodeAddresses`.
  abbrev pub pin_v2ray_node_addresses : (Text → Option Text) → Json → Json
  pin_v2ray_node_addresses resolve (object fs) = pin_fields resolve fs
  pin_v2ray_node_addresses resolve (array is) = pin_fields resolve (spread index_key (array is))
  pin_v2ray_node_addresses resolve j = j
