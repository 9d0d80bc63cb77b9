-- ===== src/Guard/Dns/Tests.antt =====
-- Runs of the DNS lines' rewriting.
use katacomb_vpn.Prelude.{[], ◌≡◌, refl, ◌⊎◌, true, ◌∷◌, any}
use katacomb_vpn.Guard.Text.{Text, codes, split_at, join_with}
use katacomb_vpn.Guard.Dns.{
  is_dns, is_interface_header, is_header, is_blank_line, dns_line, replace_dns_lines,
}
use katacomb_vpn.Guard.Dns.Section.{StandsInInterface}
use katacomb_vpn.Guard.Dns.Replaced.{HoldsOnly, replace_dns_lines-HoldsOnly}

abbrev two_resolvers : Text
two_resolvers =
    join_with 10
      (codes "[Interface]" ∷ codes "dns=10.8.0.1" ∷ codes " DNS = 1.1.1.1" ∷ codes "MTU = 1" ∷ [])

abbrev two_sections : Text
two_sections = join_with 10 (codes " [interface]" ∷ codes "MTU = 1" ∷ [] ∷ codes "[Peer]" ∷ [])

inserted_before_blank :
    replace_dns_lines two_sections (codes "9.9.9.9")
    ≡ join_with 10
        (codes " [interface]" ∷ codes "MTU = 1" ∷ codes "DNS = 9.9.9.9" ∷ [] ∷ codes "[Peer]" ∷ [])
unfolding is_dns is_interface_header is_header is_blank_line
inserted_before_blank = refl

replace_dns_lines-HoldsOnly_example :
    HoldsOnly
      (dns_line (codes "9.9.9.9"))
      (split_at 10 two_sections)
      (split_at 10 (replace_dns_lines two_sections (codes "9.9.9.9")))
    × ((any is_dns (split_at 10 two_sections) ≡ true)
        ⊎ StandsInInterface
            (dns_line (codes "9.9.9.9"))
            (split_at 10 (replace_dns_lines two_sections (codes "9.9.9.9"))))
unfolding is_dns is_interface_header
replace_dns_lines-HoldsOnly_example =
    replace_dns_lines-HoldsOnly two_sections (codes "9.9.9.9") refl refl

resolvers_replaced :
    replace_dns_lines two_resolvers (codes "9.9.9.9")
    ≡ join_with 10 (codes "[Interface]" ∷ codes "DNS = 9.9.9.9" ∷ codes "MTU = 1" ∷ [])
unfolding is_dns
resolvers_replaced = refl
