-- ===== src/Guard/Endpoint.antt =====
-- The endpoint of a WireGuard text: `extractWireguardEndpointHost` and `pinWireguardEndpoint` of
-- src/main/config-guard.ts. The resolver of names is a parameter, as it is in the code.
mod Addresses
pub mod Lines
pub mod Pinning
mod Tests
use katacomb_vpn.Prelude.{
  ℕ, zero, suc, ◌+◌, ◌-◌, ◌*◌, ◌/◌, ◌%◌, ◌≤◌, ◌<◌, ◌≡◌, refl, sym, ap, ◌∙◌, subst, ◌≢◌, ◌↔◌, ◌⊎◌,
  inl, inr, Bool, true, false, not, ◌&&◌, ◌||◌, Option, none, some, List, [], ◌∷◌, ◌++◌, map, arith,
  ltb, leb, ◌==◌, if◌then◌else◌, ltb→lt, lt→ltb, leb→le, le→leb, ==_iff, tests, Bool-cases,
  Option-cases, is_none, is_some, if_both, unless_thrown, unless_thrown-ok, Result, ok, err,
  Result-cases, length, length-filter, filter, find, any, all, All, Mem, All-mem, All-of-mem,
  mem-filter, mem-of-filter,
}
use katacomb_vpn.Guard.Text.{
  onto_cut, trim_start, trim_end, before_trimmed, onto_first, join_with, Text, codes, is_empty,
  same_text, one_of, is_space, trim, to_lower, split_at, cut_first, cut_last, starts_with,
  strip_prefix, drop_optional, span, is_digit, is_letter, is_hex, is_number, value_of, between,
  same_text→≡, one_of→Mem, one_of-append,
}
use katacomb_vpn.Guard.Bypass.{is_ipv4}

abbrev pub is_endpoint_key : Text → Bool
is_endpoint_key before = same_text (to_lower (trim before)) (codes "endpoint")

abbrev pub some_unless_empty : Text → Option Text
some_unless_empty t = if is_empty t then none else some t

-- The host between the brackets of an address of version 6.
abbrev pub bracketed_host : Text → Option Text
bracketed_host [] = none
bracketed_host (_ ∷ t) = elim (cut_first 93 t) [ none ↦ none | some (host, rest) ↦ some host ]

abbrev pub host_before_port : Text → Option (Text × Text) → Option Text
host_before_port value none = some_unless_empty value
host_before_port value (some (host, port)) = if is_empty host then some value else some host

-- The host of the value of an endpoint.
unfoldable pub host_of_value : Text → Option Text
host_of_value value =
    if starts_with 91 value
    then bracketed_host value
    else host_before_port value (cut_last 58 value)

-- What one line contributes: nothing, or the answer.
abbrev pub host_of_cut : Option (Text × Text) → Option (Option Text)
host_of_cut none = none
host_of_cut (some (before, after)) =
    if is_endpoint_key before then some (host_of_value (trim after)) else none

abbrev pub host_of_line : Text → Option (Option Text)
host_of_line line = host_of_cut (cut_first 61 line)

abbrev pub extract_from : List Text → Option Text
extract_from [] = none
extract_from (raw ∷ rest) =
    let later = extract_from rest in
    elim (host_of_line (trim raw)) [ none ↦ later | some answer ↦ answer ]

-- `extractWireguardEndpointHost`.
abbrev pub extract_wireguard_endpoint_host : Text → Option Text
extract_wireguard_endpoint_host config = extract_from (split_at 10 config)

module _ (resolve : Text → Option Text) where
  abbrev pub pin_resolved : Text → Text → Text → Option Text → Text
  pin_resolved raw before port none = raw
  pin_resolved raw before port (some ip) =
      if not (is_ipv4 ip) then raw else before ++ (61 ∷ 32 ∷ (ip ++ (58 ∷ port)))

  abbrev pub pin_host : Text → Text → Option (Text × Text) → Text
  pin_host raw before none = raw
  pin_host raw before (some (host, port)) =
      if is_empty host
      then raw
      else if is_ipv4 host
      then raw
      else pin_resolved raw before port (resolve host)

  abbrev pin_value : Text → Text → Text → Text
  pin_value raw before value =
      if starts_with 91 value then raw else pin_host raw before (cut_last 58 value)

  abbrev pub pin_cut : Text → Option (Text × Text) → Text
  pin_cut raw none = raw
  pin_cut raw (some (before, after)) =
      if not (is_endpoint_key before) then raw else pin_value raw before (trim after)

  -- The function that is mapped over the lines.
  abbrev pub pin_line : Text → Text
  pin_line raw = pin_cut raw (cut_first 61 raw)

  -- `pinWireguardEndpoint`.
  abbrev pub pin_wireguard_endpoint : Text → Text
  pin_wireguard_endpoint config = join_with 10 (map pin_line (split_at 10 config))
