-- ===== src/Guard/Openvpn.antt =====
-- The guard of OpenVPN texts, `assertSafeOpenVpnConfig` of src/main/config-guard.ts: directives with
-- a value each, and inline blocks between tags.
pub mod Values
pub mod Safety
pub mod Accepted
mod Tests
use katacomb_vpn.Prelude.{
  ℕ, zero, suc, ◌+◌, ◌-◌, ◌*◌, ◌/◌, ◌%◌, ◌≤◌, ◌<◌, ◌≡◌, refl, sym, ap, ◌∙◌, subst, ◌↔◌, ◌⊎◌, inl,
  inr, Bool, true, false, not, ◌&&◌, ◌||◌, Option, none, some, List, [], ◌∷◌, ◌++◌, map, arith, ltb,
  leb, ◌==◌, if◌then◌else◌, ltb→lt, lt→ltb, leb→le, le→leb, ==_iff, tests, Bool-cases, Option-cases,
  is_none, is_some, unless_thrown, unless_thrown-ok, Result, ok, err, Result-cases, length, filter,
  find, any, all, All, Mem, All-mem, All-of-mem, mem-filter, mem-of-filter,
}
use katacomb_vpn.Guard.Text.{
  onto_cut, Text, codes, is_empty, same_text, one_of, is_space, trim, to_lower, split_at, cut_first,
  cut_last, starts_with, strip_prefix, drop_optional, span, is_digit, is_letter, is_hex, is_number,
  value_of, between, same_text→≡, one_of→Mem, one_of-append,
}
use katacomb_vpn.Guard.Wireguard.{is_comment}
use katacomb_vpn.Guard.Openvpn.Values.{ovpn_validator, ovpn_pem_line, is_tag_code, cut_blank}

pub data OvpnError : Type 0 where
  non_pem_line block_not_allowed block_repeated stray_tag directive_not_allowed : OvpnError
  directive_repeated malformed_directive unterminated missing_block missing_directive : OvpnError

-- The variables of the loop.
pub record OvpnScan : Type 0 where
  pub open_block : Option Text
  pub seen_blocks : List Text
  pub seen_directives : List Text

abbrev pub ovpn_inline_tags : List Text
ovpn_inline_tags = codes "ca" ∷ codes "cert" ∷ codes "key" ∷ codes "tls-crypt" ∷ []

abbrev pub ovpn_required : List Text
ovpn_required = codes "client" ∷ codes "dev" ∷ codes "proto" ∷ codes "remote" ∷ []

-- `</tag>`.
abbrev pub closing_tag : Text → Text
closing_tag tag = codes "</" ++ (tag ++ (62 ∷ []))

abbrev as_tag : Text × Text → Option Text
as_tag (tag, rest) =
    if is_empty rest && not (is_empty tag) && all is_tag_code tag then some tag else none

abbrev opening_body : Option Text → Option Text
opening_body none = none
opening_body (some t) = elim (cut_first 62 t) [ none ↦ none | some cut ↦ as_tag cut ]

-- `opening`: `^<([A-Za-z0-9-]+)>$`.
abbrev pub opening_match : Text → Option Text
opening_match line = opening_body (strip_prefix (codes "<") line)

-- A line inside of a block.
unfoldable pub read_inside : Text → OvpnScan → Text → Result OvpnError OvpnScan
read_inside tag st line =
    if same_text line (closing_tag tag)
    then ok (record st { open_block = none })
    else if is_empty line
    then ok st
    else if not (ovpn_pem_line line)
    then err non_pem_line
    else ok st

-- A line that opens a block.
unfoldable pub read_opening : OvpnScan → Text → Result OvpnError OvpnScan
read_opening st tag =
    if not (one_of tag ovpn_inline_tags)
    then err block_not_allowed
    else if one_of tag st.seen_blocks
    then err block_repeated
    else ok (record st { open_block = some tag; seen_blocks = tag ∷ st.seen_blocks })

-- A directive with its value, under the validator that the map has for it.
unfoldable pub read_value :
    OvpnScan → Text → Text → Option (Text → Bool) → Result OvpnError OvpnScan
read_value st directive value none = err directive_not_allowed
read_value st directive value (some valid) =
    if one_of directive st.seen_directives
    then err directive_repeated
    else if not (valid value)
    then err malformed_directive
    else ok (record st { seen_directives = directive ∷ st.seen_directives })

-- The name of a directive and its value: `split`, `directive`, `value`.
abbrev pub directive_of : Text → Option (Text × Text) → Text × Text
directive_of line none = (to_lower line, [])
directive_of line (some (name, value)) = (to_lower name, trim value)

abbrev pub read_named : OvpnScan → Text × Text → Result OvpnError OvpnScan
read_named st (directive, value) = read_value st directive value (ovpn_validator directive)

abbrev pub read_directive : OvpnScan → Text → Result OvpnError OvpnScan
read_directive st line = read_named st (directive_of line (cut_blank line))

abbrev pub read_tag_or_directive : OvpnScan → Text → Option Text → Result OvpnError OvpnScan
read_tag_or_directive st line (some tag) = read_opening st (to_lower tag)
read_tag_or_directive st line none =
    if starts_with 60 line then err stray_tag else read_directive st line

-- A line outside of a block.
abbrev read_outside : OvpnScan → Text → Result OvpnError OvpnScan
read_outside st line =
    if is_empty line || is_comment line
    then ok st
    else read_tag_or_directive st line (opening_match line)

abbrev pub read_in : Option Text → OvpnScan → Text → Result OvpnError OvpnScan
read_in (some tag) st line = read_inside tag st line
read_in none st line = read_outside st line

-- The body of the loop, on a trimmed line.
abbrev pub read_line : OvpnScan → Text → Result OvpnError OvpnScan
read_line st line = read_in st.open_block st line

abbrev pub read_lines : OvpnScan → List Text → Result OvpnError OvpnScan
read_lines st [] = ok st
read_lines st (raw ∷ rest) = unless_thrown (read_line st (trim raw)) (λ next. read_lines next rest)

abbrev is_closed : OvpnScan → Bool
is_closed st = is_none st.open_block

-- The tests behind the loop.
unfoldable pub finish : OvpnScan → Result OvpnError OvpnScan
finish st =
    if not (is_closed st)
    then err unterminated
    else if not (all (λ tag. one_of tag st.seen_blocks) ovpn_inline_tags)
    then err missing_block
    else if not (all (λ d. one_of d st.seen_directives) ovpn_required)
    then err missing_directive
    else ok st

abbrev pub before_first : OvpnScan
before_first = record { open_block = none; seen_blocks = []; seen_directives = [] }

-- `assertSafeOpenVpnConfig`.
abbrev pub assert_safe_openvpn_config : Text → Result OvpnError OvpnScan
assert_safe_openvpn_config config =
    unless_thrown (read_lines before_first (split_at 10 config)) finish
