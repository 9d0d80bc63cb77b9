-- ===== src/Guard/Bypass/Pane.antt =====
-- src/shared/split-tunnel.ts: the copy of the rule for bypass routes that the settings page has, and
-- its reading of the page's text.
use katacomb_vpn.Prelude.{
  ℕ, Bool, false, not, ◌&&◌, Option, none, some, List, map, ltb, leb, ◌==◌, length, filter, all,
}
use katacomb_vpn.Guard.Text.{
  Text, is_empty, trim, split_at, cut_first, is_number, value_of, between,
}
use katacomb_vpn.Guard.Bypass.{are_octets}

abbrev pub max_split_tunnel_routes : ℕ
max_split_tunnel_routes = 64

-- The tests on the two parts of a range.
unfoldable pub pane_allows_range : Text → Text → Bool
pane_allows_range address prefix =
    let octets = split_at 46 address in
    are_octets octets
    && is_number 2 prefix
    && all (λ o. leb (value_of o) 255) octets
    && between 1 32 (value_of prefix)
    && not (all (λ o. value_of o == 0) octets)

abbrev pub pane_allows_cut : Option (Text × Text) → Bool
pane_allows_cut none = false
pane_allows_cut (some (address, prefix)) = pane_allows_range address prefix

-- `isAllowedBypassCidr` of the page.
abbrev pub pane_allows_cidr : Text → Bool
pane_allows_cidr cidr = pane_allows_cut (cut_first 47 (trim cidr))

-- `parseSplitTunnelRoutes`.
pub record SplitTunnelParse : Type 0 where
  pub routes : List Text
  pub invalid : List Text
  pub too_many : Bool

abbrev pub parse_split_tunnel_routes : Text → SplitTunnelParse
parse_split_tunnel_routes text =
    let lines = filter (λ l. not (is_empty l)) (map trim (split_at 10 text)) in
    record {
      routes = filter pane_allows_cidr lines;
      invalid = filter (λ l. not (pane_allows_cidr l)) lines;
      too_many = ltb max_split_tunnel_routes (length lines);
    }
