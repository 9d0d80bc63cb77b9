-- ===== src/Guard/Wireguard.antt =====
-- The guards of WireGuard and AmneziaWG texts (src/main/config-guard.ts). The two functions of the
-- code differ in their keys and in the test of a value, which are parameters of the walk here.
pub mod Safety
use katacomb_vpn.Prelude.{
  unless_thrown, ℕ, zero, suc, ◌+◌, ◌-◌, ◌*◌, ◌/◌, ◌%◌, ◌≤◌, ◌<◌, ◌≡◌, refl, sym, ap, ◌∙◌, subst,
  ◌↔◌, ◌⊎◌, inl, inr, Bool, true, false, not, ◌&&◌, ◌||◌, Option, none, some, List, [], ◌∷◌, ◌++◌,
  map, arith, ltb, leb, ◌==◌, if◌then◌else◌, ltb→lt, lt→ltb, leb→le, le→leb, ==_iff, tests,
  Bool-cases, Option-cases, is_none, is_some, Result, ok, err, Result-cases, length, filter, find,
  any, all, All, Mem, All-mem, All-of-mem, mem-filter, mem-of-filter,
}
use katacomb_vpn.Guard.Text.{
  Text, codes, is_empty, same_text, one_of, is_space, trim, to_lower, split_at, cut_first, cut_last,
  starts_with, strip_prefix, drop_optional, span, is_digit, is_letter, is_hex, is_number, value_of,
  between, same_text→≡, one_of→Mem, one_of-append,
}

pub data Section : Type 0 where
  interface peer : Section

pub data GuardError : Type 0 where
  section_not_allowed malformed_line key_outside key_not_allowed malformed_value : GuardError

abbrev pub wg_interface_keys : List Text
wg_interface_keys =
    codes "privatekey" ∷ codes "address" ∷ codes "dns" ∷ codes "mtu" ∷ codes "listenport" ∷ []

abbrev pub wg_peer_keys : List Text
wg_peer_keys =
    codes "publickey"
    ∷ codes "presharedkey"
    ∷ codes "allowedips"
    ∷ codes "endpoint"
    ∷ codes "persistentkeepalive"
    ∷ []

-- `[A-Za-z0-9.:_-]`.
abbrev pub is_host_code : ℕ → Bool
is_host_code c = is_letter c || is_digit c || (c == 46) || (c == 58) || (c == 95) || (c == 45)

-- `(\/\d{1,3})?` up to the end.
abbrev is_prefix_length : Text → Bool
is_prefix_length [] = true
is_prefix_length (c ∷ t) = (c == 47) && is_number 3 t

-- `WG_HOST_OR_CIDR`.
abbrev pub wg_host_or_cidr : Text → Bool
wg_host_or_cidr t =
    let (host, rest) = span is_host_code (drop_optional 91 t) in
    not (is_empty host) && is_prefix_length (drop_optional 93 rest)

-- `\]?` up to the end.
abbrev is_closing : Text → Bool
is_closing t = is_empty (drop_optional 93 t)

-- `WG_ENDPOINT`: the digits hold no colon, so the port stands behind the last one.
abbrev wg_endpoint : Text → Bool
wg_endpoint t = elim (cut_last 58 t) [
  | none ↦ false
  | some (front, port) ↦
      let (host, rest) = span is_host_code (drop_optional 91 front) in
      not (is_empty host) && is_closing rest && is_number 5 port
]

abbrev is_base64_code : ℕ → Bool
is_base64_code c = is_letter c || is_digit c || (c == 43) || (c == 47)

-- `WG_KEY`.
abbrev pub wg_key : Text → Bool
wg_key t =
    let (run, padding) = span is_base64_code t in
    not (is_empty run) && leb (length padding) 2 && all (λ c. c == 61) padding

-- `WG_UINT`.
abbrev wg_uint : Text → Bool
wg_uint t = is_number 7 t

abbrev is_list_item : Text → Bool
is_list_item t = is_empty t || wg_host_or_cidr t

-- `assertWgListValue`, true where it does not throw.
abbrev assert_wg_list_value : Text → Bool
assert_wg_list_value v = all (λ raw. is_list_item (trim raw)) (split_at 44 v)

-- `assertSafeWireguardValue`, true where it does not throw.
unfoldable pub assert_safe_wireguard_value : Text → Text → Bool
assert_safe_wireguard_value key value =
    if one_of key (codes "mtu" ∷ codes "listenport" ∷ codes "persistentkeepalive" ∷ [])
    then wg_uint (trim value)
    else if one_of key (codes "privatekey" ∷ codes "publickey" ∷ codes "presharedkey" ∷ [])
    then wg_key (trim value)
    else if one_of key (codes "endpoint" ∷ [])
    then wg_endpoint (trim value)
    else if one_of key (codes "address" ∷ codes "allowedips" ∷ codes "dns" ∷ [])
    then assert_wg_list_value value
    else true

abbrev pub awg_uint16_keys : List Text
awg_uint16_keys =
    codes "jc"
    ∷ codes "jmin"
    ∷ codes "jmax"
    ∷ codes "s1"
    ∷ codes "s2"
    ∷ codes "s3"
    ∷ codes "s4"
    ∷ []

abbrev pub awg_uint32_keys : List Text
awg_uint32_keys = codes "h1" ∷ codes "h2" ∷ codes "h3" ∷ codes "h4" ∷ []

abbrev pub awg_i_keys : List Text
awg_i_keys = codes "i1" ∷ codes "i2" ∷ codes "i3" ∷ codes "i4" ∷ codes "i5" ∷ []

abbrev pub awg_other_keys : List Text
awg_other_keys =
    codes "headerprotectionkey" ∷ codes "randomtrailers" ∷ codes "contentpaddingaddition" ∷ []

abbrev awg_interface_keys : List Text
awg_interface_keys =
    wg_interface_keys ++ (awg_uint16_keys ++ (awg_uint32_keys ++ (awg_i_keys ++ awg_other_keys)))

-- A word, and behind it what passes a test.
abbrev is_after : Text → (Text → Bool) → Text → Bool
is_after word p t = elim (strip_prefix word t) [ none ↦ false | some rest ↦ p rest ]

abbrev is_hex_run : Text → Bool
is_hex_run t = not (is_empty t) && all is_hex t

-- One tag of `AWG_I_TAGS` without its closing angle bracket.
abbrev is_i_tag : Text → Bool
is_i_tag t =
    is_after (codes "<b 0x") is_hex_run t
    || is_after (codes "<r ") (is_number 5) t
    || is_after (codes "<rd ") (is_number 5) t
    || is_after (codes "<rc ") (is_number 5) t
    || same_text t (codes "<t")

abbrev are_i_tags : List Text → Bool
are_i_tags [] = false
are_i_tags (last ∷ []) = is_empty last
are_i_tags (tag ∷ next ∷ rest) = is_i_tag tag && are_i_tags (next ∷ rest)

-- `AWG_I_TAGS`: no tag holds the bracket that closes it.
abbrev awg_i_tags : Text → Bool
awg_i_tags t = not (is_empty t) && are_i_tags (split_at 62 t)

-- The bytes of a key that `wg_key` accepts: `Buffer.from(v, 'base64').length`.
abbrev decoded_length : Text → ℕ
decoded_length t = length (filter is_base64_code t) * 3 / 4

-- `^\d{1,5}(-\d{1,5})?$`.
abbrev is_range : Text → Bool
is_range t = elim (cut_first 45 t) [
  | none ↦ is_number 5 t
  | some (low, high) ↦ is_number 5 low && is_number 5 high
]

-- `assertSafeAmneziaWgValue`, true where it does not throw.
unfoldable pub assert_safe_amnezia_wg_value : Text → Text → Bool
assert_safe_amnezia_wg_value key value =
    let v = trim value in
    if one_of key awg_uint16_keys
    then is_number 5 v && leb (value_of v) 65535
    else if one_of key awg_uint32_keys
    then is_number 10 v && leb (value_of v) 4294967295
    else if one_of key awg_i_keys
    then leb (length v) 4096 && awg_i_tags v
    else if same_text key (codes "headerprotectionkey")
    then wg_key v && (decoded_length v == 32)
    else if same_text key (codes "randomtrailers")
    then one_of v (codes "on" ∷ codes "off" ∷ [])
    else if same_text key (codes "contentpaddingaddition")
    then is_range v
    else assert_safe_wireguard_value key value

-- What `.` does not match.
abbrev is_line_end : ℕ → Bool
is_line_end c = (c == 10) || (c == 13) || (c == 8232) || (c == 8233)

-- `(.+)\]$` behind the opening bracket.
abbrev bracketed : Text → Option Text
bracketed t = elim (cut_last 93 t) [
  | none ↦ none
  | some (name, rest) ↦
      if is_empty rest && not (is_empty name) && not (any is_line_end name) then some name else none
]

-- `sectionMatch`.
abbrev pub section_match : Text → Option Text
section_match [] = none
section_match (c ∷ t) = if c == 91 then bracketed t else none

abbrev pub is_comment : Text → Bool
is_comment t = starts_with 35 t || starts_with 59 t

abbrev pub section_named : Text → Result GuardError (Option Section)
section_named name =
    if same_text name (codes "interface")
    then ok (some interface)
    else if same_text name (codes "peer")
    then ok (some peer)
    else err section_not_allowed

module _ (allowed : Section → Text → Bool) (safe_value : Text → Text → Bool) where
  -- The tests of a line `key = value`.
  unfoldable pub check_key : Option Section → Text → Text → Result GuardError (Option Section)
  check_key none key value = err key_outside
  check_key (some section) key value =
      if not (allowed section key)
      then err key_not_allowed
      else if safe_value key value
      then ok (some section)
      else err malformed_value

  abbrev pub check_cut : Option Section → Option (Text × Text) → Result GuardError (Option Section)
  check_cut section none = err malformed_line
  check_cut section (some (key, value)) = check_key section (to_lower (trim key)) (trim value)

  abbrev check_assignment : Option Section → Text → Result GuardError (Option Section)
  check_assignment section line = check_cut section (cut_first 61 line)

  abbrev pub check_opened : Option Section → Text → Option Text → Result GuardError (Option Section)
  check_opened section line (some name) = section_named (to_lower (trim name))
  check_opened section line none = check_assignment section line

  -- The body of the loop, on a trimmed line.
  abbrev pub check_line : Option Section → Text → Result GuardError (Option Section)
  check_line section line =
      if is_empty line || is_comment line
      then ok section
      else check_opened section line (section_match line)

  abbrev pub check_lines : Option Section → List Text → Result GuardError (Option Section)
  check_lines section [] = ok section
  check_lines section (raw ∷ rest) =
      unless_thrown (check_line section (trim raw)) (λ next. check_lines next rest)

abbrev pub wg_allowed : Section → Text → Bool
wg_allowed interface key = one_of key wg_interface_keys
wg_allowed peer key = one_of key wg_peer_keys

abbrev pub awg_allowed : Section → Text → Bool
awg_allowed interface key = one_of key awg_interface_keys
awg_allowed peer key = one_of key wg_peer_keys

-- `assertSafeWireguardConfig`.
abbrev pub assert_safe_wireguard_config : Text → Result GuardError (Option Section)
assert_safe_wireguard_config config =
    check_lines wg_allowed assert_safe_wireguard_value none (split_at 10 config)

-- `assertSafeAmneziaWgConfig`.
abbrev pub assert_safe_amnezia_wg_config : Text → Result GuardError (Option Section)
assert_safe_amnezia_wg_config config =
    check_lines awg_allowed assert_safe_amnezia_wg_value none (split_at 10 config)
