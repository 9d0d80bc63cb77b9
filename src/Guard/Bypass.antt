-- ===== src/Guard/Bypass.antt =====
-- Addresses and bypass routes: `isAllowedBypassCidr`, `sanitizeBypassRoutes`, `isIPv4` and their kin
-- in src/main/config-guard.ts; Pane has the copy of the rule that the settings page uses, in
-- src/shared/split-tunnel.ts.
pub mod Pane
pub mod Routes
use katacomb_vpn.Prelude.{
  ℕ, zero, suc, ◌+◌, ◌-◌, ◌*◌, ◌/◌, ◌%◌, ◌≤◌, ◌<◌, ◌≡◌, refl, sym, ap, ◌∙◌, subst, ◌≢◌, ◌↔◌, ◌⊎◌,
  inl, inr, Bool, true, false, not, ◌&&◌, ◌||◌, Option, none, some, List, [], ◌∷◌, ◌++◌, map, arith,
  ltb, leb, ◌==◌, if◌then◌else◌, ltb→lt, lt→ltb, leb→le, le→leb, ==_iff, tests, Bool-cases,
  Option-cases, is_none, is_some, unless_thrown, unless_thrown-ok, Result, ok, err, Result-cases,
  length, filter, find, any, all, All, Mem, All-mem, All-of-mem, mem-filter, mem-of-filter,
}
use katacomb_vpn.Guard.Text.{
  onto_cut, trim_start, trim_end, before_trimmed, onto_first, join_with, Text, codes, is_empty,
  same_text, one_of, is_space, trim, to_lower, split_at, cut_first, cut_last, starts_with,
  strip_prefix, drop_optional, span, is_digit, is_letter, is_hex, is_number, value_of, between,
  same_text→≡, one_of→Mem, one_of-append,
}

abbrev pub max_bypass_routes : ℕ
max_bypass_routes = 64

-- `^(\d{1,3})\.(\d{1,3})\.(\d{1,3})\.(\d{1,3})$`.
abbrev pub are_octets : List Text → Bool
are_octets octets = (length octets == 4) && all (is_number 3) octets

-- `octets.some((o) => o > 255)`, negated.
abbrev are_bytes : List Text → Bool
are_bytes octets = all (λ o. leb (value_of o) 255) octets

-- `octets.every((o) => o === 0)`.
abbrev are_zero : List Text → Bool
are_zero octets = all (λ o. value_of o == 0) octets

-- The tests on the two parts of a range.
unfoldable pub is_allowed_range : Text → Text → Bool
is_allowed_range address prefix =
    let octets = split_at 46 address in
    are_octets octets
    && is_number 2 prefix
    && are_bytes octets
    && between 1 32 (value_of prefix)
    && not (are_zero octets)

abbrev pub is_allowed_cut : Option (Text × Text) → Bool
is_allowed_cut none = false
is_allowed_cut (some (address, prefix)) = is_allowed_range address prefix

-- `isAllowedBypassCidr`.
abbrev pub is_allowed_bypass_cidr : Text → Bool
is_allowed_bypass_cidr cidr = is_allowed_cut (cut_first 47 (trim cidr))

abbrev pub take {ℓ} : {A : Type ℓ} → ℕ → List A → List A
take zero xs = []
take (suc n) [] = []
take (suc n) (x ∷ xs) = x ∷ take n xs

-- `sanitizeBypassRoutes` of an array; an entry that is no text is `none`.
abbrev pub text_or_empty : Option Text → Text
text_or_empty none = []
text_or_empty (some t) = trim t

abbrev pub sanitize_bypass_routes : List (Option Text) → List Text
sanitize_bypass_routes routes =
    take max_bypass_routes (filter is_allowed_bypass_cidr (map text_or_empty routes))

-- `isIPv4`.
unfoldable pub is_ipv4 : Text → Bool
is_ipv4 s = let octets = split_at 46 s in are_octets octets && are_bytes octets

-- `isValidInterfaceName`.
abbrev is_interface_code : ℕ → Bool
is_interface_code c = is_letter c || is_digit c || (c == 95) || (c == 45)

abbrev is_valid_interface_name : Text → Bool
is_valid_interface_name s = not (is_empty s) && leb (length s) 15 && all is_interface_code s

-- `isValidSocksAddr`.
abbrev pub is_valid_socks_addr : Text → Bool
is_valid_socks_addr s = elim (cut_first 58 s) [
  | none ↦ false
  | some (host, port) ↦
      not (is_empty port) && all is_digit port && is_ipv4 host && between 1 65535 (value_of port)
]
