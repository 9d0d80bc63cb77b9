-- ===== src/Guard/V2ray/Tests.antt =====
-- Runs of the preparation of a V2Ray configuration.
use katacomb_vpn.Prelude.{[], ℕ, ◌+◌, ◌≡◌, refl, Option, none, some, ◌∷◌, ok}
use katacomb_vpn.Guard.Text.{Text, codes}
use katacomb_vpn.Guard.Bypass.{is_ipv4}
use katacomb_vpn.Guard.Json.{
  Json, text, array, object, Fields, no_field, field, of_list, lookup, put,
}
use katacomb_vpn.Guard.V2ray.{log_path, unsafe_fields, assert_safe_v2ray_config, diagnostic_log}
use katacomb_vpn.Guard.V2ray.Doh.{prepared}
use katacomb_vpn.Guard.V2ray.Prepared.{IsRunnable, prepared-IsRunnable}

abbrev key_of_index : ℕ → Text
key_of_index n = (48 + n) ∷ []

abbrev names : Text → Option Text
names host = some (codes "1.2.3.4")

abbrev socks_inbound : Json
socks_inbound = object (
    field (codes "protocol") (text (codes "socks"))
      (field (codes "tag") (text (codes "proxy")) no_field))

abbrev server : Json
server = object (field (codes "address") (text (codes "a.b")) no_field)

abbrev outbound : Json
outbound = object (
    field (codes "settings")
      (object (field (codes "vnext") (array (of_list (server ∷ []))) no_field)) no_field)

abbrev sdk_config : Fields
sdk_config = field (codes "inbounds") (array (of_list (socks_inbound ∷ []))) (
    field (codes "outbounds") (array (of_list (outbound ∷ []))) (
      field (codes "log") (object (field (codes "error") (text (codes "/etc/x")) no_field))
        no_field))

path_refused : assert_safe_v2ray_config (object sdk_config) ≡ some log_path
unfolding lookup unsafe_fields
path_refused = refl

pinned_server :
    prepared key_of_index names (object sdk_config) none
    ≡ ok (
        object (
          field (codes "inbounds") (array (of_list (socks_inbound ∷ []))) (
            field
              (codes "outbounds")
              (array (
                of_list (
                  object (
                    field
                      (codes "settings")
                      (object (
                        field
                          (codes "vnext")
                          (array (
                            of_list (
                              object (field (codes "address") (text (codes "1.2.3.4")) no_field)
                              ∷ [])))
                          no_field))
                      no_field)
                  ∷ [])))
              (field (codes "log") diagnostic_log no_field))))
unfolding lookup put unsafe_fields is_ipv4
pinned_server = refl

prepared-IsRunnable_example : IsRunnable (
    object (
      field (codes "inbounds") (array (of_list (socks_inbound ∷ []))) (
        field
          (codes "outbounds")
          (array (
            of_list (
              object (
                field
                  (codes "settings")
                  (object (
                    field
                      (codes "vnext")
                      (array (
                        of_list (
                          object (field (codes "address") (text (codes "1.2.3.4")) no_field) ∷ [])))
                      no_field))
                  no_field)
              ∷ [])))
          (field (codes "log") diagnostic_log no_field))))
prepared-IsRunnable_example =
    prepared-IsRunnable key_of_index names (object sdk_config) none pinned_server
