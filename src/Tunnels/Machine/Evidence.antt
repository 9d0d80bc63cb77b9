-- ===== src/Tunnels/Machine/Evidence.antt =====
-- What `getConnectionStatus` of src/main/vpn/vpn-manager.ts reports, and on which evidence.
use katacomb_vpn.Prelude.{
  ℕ, ◌≡◌, refl, sym, subst, ◌↔◌, ◌⊎◌, inl, inr, true, false, none, some, arith, Bool-cases,
}
use katacomb_vpn.Tunnels.Machine.{Machine, is_child_proxy, forget_child}
use katacomb_vpn.Tunnels.Machine.Status.{
  Status, is_running, get_connection_status, status_of_interfaces, status_of_child,
  is_child_proxy_carrying_traffic, is_vpn_active, get_active_proxy_port,
}

interfaces-evidence :
    (m : Machine)
    → ((status_of_interfaces m).0.connected ≡ true → is_vpn_active m ≡ true)
      × ((status_of_interfaces m).0.proxy_mode ≡ false)
      × ((status_of_interfaces m).0.has_socks_addr ≡ false)
unfolding status_of_interfaces is_vpn_active
interfaces-evidence m = ground arith

interfaces-port :
    (port : ℕ) (m : Machine)
    → is_child_proxy m.active_protocol ≡ false
    → get_active_proxy_port port m ≡ none
unfolding get_active_proxy_port
interfaces-port port m n = ground arith

stopped-port :
    (port : ℕ) (m : Machine)
    → is_running m m.active_child ≡ false
    → get_active_proxy_port port m ≡ none
unfolding get_active_proxy_port
stopped-port port m n = ground arith

forget_child-is_vpn_active : (m : Machine) → is_vpn_active (forget_child m) ≡ is_vpn_active m
unfolding is_vpn_active
forget_child-is_vpn_active m = refl

child_status-port :
    (port : ℕ) (m : Machine)
    → is_child_proxy m.active_protocol ≡ true
    → is_running m m.active_child ≡ true
    → (get_active_proxy_port port m ≡ some port) ↔ ((status_of_child m).proxy_mode ≡ true)
unfolding get_active_proxy_port status_of_child is_child_proxy_carrying_traffic
child_status-port port m c r = ground arith

child_status-connected :
    (m : Machine)
    → ((status_of_child m).connected ≡ false)
      ⊎ ((is_vpn_active m ≡ true) ⊎ ((status_of_child m).proxy_mode ≡ true))
unfolding is_vpn_active status_of_child is_child_proxy_carrying_traffic
child_status-connected m = ground arith

interfaces_status-connected :
    (m : Machine) → ((status_of_interfaces m).0.connected ≡ false) ⊎ (is_vpn_active m ≡ true)
unfolding is_vpn_active status_of_interfaces
interfaces_status-connected m = ground arith

status_when_live :
    (m : Machine)
    → is_child_proxy m.active_protocol ≡ true
    → is_running m m.active_child ≡ true
    → get_connection_status m ≡ (status_of_child m, m)
unfolding get_connection_status
status_when_live m c r = ground arith

status_when_stopped :
    (m : Machine)
    → is_child_proxy m.active_protocol ≡ true
    → is_running m m.active_child ≡ false
    → get_connection_status m ≡ status_of_interfaces (forget_child m)
unfolding get_connection_status
status_when_stopped m c r = ground arith

status_without_child :
    (m : Machine)
    → is_child_proxy m.active_protocol ≡ false
    → get_connection_status m ≡ status_of_interfaces m
unfolding get_connection_status
status_without_child m c = ground arith

no_port_iff :
    (port : ℕ) (m : Machine) (s : Status)
    → get_active_proxy_port port m ≡ none
    → s.proxy_mode ≡ false
    → (get_active_proxy_port port m ≡ some port) ↔ (s.proxy_mode ≡ true)
no_port_iff port m s n f = ground arith

-- What the theorem below says of an answer.
abbrev Says : ℕ → Machine → Status × Machine → Type 0
Says port m (s, next) =
    ((s.connected ≡ false) ⊎ ((is_vpn_active m ≡ true) ⊎ (s.proxy_mode ≡ true)))
    × ((get_active_proxy_port port m ≡ some port) ↔ (s.proxy_mode ≡ true))

weaken : {A B C : Type 0} → A ⊎ B → A ⊎ (B ⊎ C)
weaken (inl a) = inl a
weaken (inr b) = inr (inl b)

-- A connection is reported only where an interface of ours is up or a child in proxy mode runs, and
-- `getActiveProxyPort` names the port of the proxy exactly where the status reports proxy mode.
get_connection_status-get_active_proxy_port :
    (port : ℕ) (m : Machine)
    → (((get_connection_status m).0.connected ≡ false)
        ⊎ ((is_vpn_active m ≡ true) ⊎ ((get_connection_status m).0.proxy_mode ≡ true)))
      × ((get_active_proxy_port port m ≡ some port)
          ↔ ((get_connection_status m).0.proxy_mode ≡ true))
get_connection_status-get_active_proxy_port port m =
    elim (Bool-cases (is_child_proxy m.active_protocol)) [
      | inr n ↦ subst (Says port m) (sym (status_without_child m n)) (
        weaken (interfaces_status-connected m),
        no_port_iff port m (status_of_interfaces m).0 (interfaces-port port m n)
            (interfaces-evidence m).1,
      )
      | inl c ↦ elim (Bool-cases (is_running m m.active_child)) [
        | inl r ↦
            subst (Says port m) (sym (status_when_live m c r))
              (child_status-connected m, child_status-port port m c r)
        | inr r ↦
            let f = forget_child m in
            subst (Says port m) (sym (status_when_stopped m c r)) (
              weaken (
                  subst (λ b. ((status_of_interfaces f).0.connected ≡ false) ⊎ (b ≡ true))
                    (forget_child-is_vpn_active m) (interfaces_status-connected f)),
              no_port_iff port m (status_of_interfaces f).0 (stopped-port port m r)
                  (interfaces-evidence f).1,
            )
      ]
    ]
