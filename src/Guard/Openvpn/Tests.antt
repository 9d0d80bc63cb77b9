-- ===== src/Guard/Openvpn/Tests.antt =====
-- Runs of `assertSafeOpenVpnConfig` at concrete texts.
use katacomb_vpn.Prelude.{◌≡◌, refl, none, List, [], ◌∷◌, ◌++◌, ok, err}
use katacomb_vpn.Guard.Text.{join_with, Text, codes}
use katacomb_vpn.Guard.Openvpn.Values.{ovpn_validator}
use katacomb_vpn.Guard.Openvpn.{
  OvpnScan, directive_repeated, directive_not_allowed, read_inside, read_opening, read_value,
  finish, assert_safe_openvpn_config,
}

abbrev blocks : List Text
blocks =
    codes "<ca>"
    ∷ codes "QUJD"
    ∷ codes "</ca>"
    ∷ codes "<cert>"
    ∷ codes "</cert>"
    ∷ codes "<key>"
    ∷ codes "</key>"
    ∷ codes "<tls-crypt>"
    ∷ codes "</tls-crypt>"
    ∷ []

abbrev statements_of_client : List Text
statements_of_client =
    codes "client" ∷ codes "dev sntl-ovpn" ∷ codes "proto udp" ∷ codes "remote a.b 1194" ∷ []

abbrev client : Text
client = join_with 10 (statements_of_client ++ blocks)

abbrev last_of_client : OvpnScan
last_of_client = record {
  open_block = none;
  seen_blocks = codes "tls-crypt" ∷ codes "key" ∷ codes "cert" ∷ codes "ca" ∷ [];
  seen_directives = codes "remote" ∷ codes "proto" ∷ codes "dev" ∷ codes "client" ∷ [];
}

client_accepted : assert_safe_openvpn_config client ≡ ok last_of_client
unfolding read_inside read_opening read_value finish ovpn_validator
client_accepted = refl

second_remote_refused :
    assert_safe_openvpn_config (join_with 10 (statements_of_client ++ (codes "Remote c.d 1" ∷ [])))
    ≡ err directive_repeated
unfolding read_inside read_opening read_value finish ovpn_validator
second_remote_refused = refl

plugin_refused : assert_safe_openvpn_config (codes "plugin /tmp/x.so") ≡ err directive_not_allowed
unfolding read_inside read_opening read_value finish ovpn_validator
plugin_refused = refl
