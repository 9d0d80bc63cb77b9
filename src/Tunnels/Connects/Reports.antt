-- ===== src/Tunnels/Connects/Reports.antt =====
-- What the status reports behind a bring-up of src/main/vpn/vpn-manager.ts that succeeds.
use katacomb_vpn.Prelude.{ℕ, ◌≡◌, Bool, true, ◌||◌, none, some, List, ◌∷◌, arith, ◌==◌, any}
use katacomb_vpn.Connect.Protocol.{Protocol}
use katacomb_vpn.Tunnels.Machine.{Machine, is_child_protocol}
use katacomb_vpn.Tunnels.Machine.Status.{
  get_connection_status, status_of_child, is_child_proxy_carrying_traffic,
}
use katacomb_vpn.Tunnels.Connects.{Answers, bring_up_tun, connect_child_from_config, spawn_v2ray}

running_now : (c : ℕ) (others : List ℕ) → any (λ d. d == c) (c ∷ others) ≡ true
running_now c others = ground arith

-- A child that was spawned counts as connected at once in proxy mode, and otherwise only while the
-- interface of tun2socks is up, as it is behind a `bringUpTun` that throws nothing.
pub connect_child_from_config-get_connection_status :
    (p : Protocol) (proxy_only : Bool) (a b : Answers) (m : Machine)
    → is_child_protocol p ≡ true
    → (connect_child_from_config p proxy_only a m).0 ≡ none
    → (bring_up_tun b (connect_child_from_config p proxy_only a m).1).0 ≡ none
    → ((get_connection_status (connect_child_from_config p proxy_only a m).1).0.connected
        ≡ (proxy_only || m.tun_up))
      × ((get_connection_status (bring_up_tun b (connect_child_from_config p proxy_only a m).1).1).0
          ≡ record {
            connected = true;
            protocol = some p;
            proxy_mode = proxy_only;
            has_socks_addr = proxy_only;
          })
unfolding connect_child_from_config bring_up_tun get_connection_status status_of_child
    is_child_proxy_carrying_traffic spawn_v2ray
connect_child_from_config-get_connection_status p proxy_only a b m c e f =
    ground (arith, running_now a.pid m.running)
