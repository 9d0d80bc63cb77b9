-- ===== src/Guard/Openvpn/Values.antt =====
-- The values that `assertSafeOpenVpnConfig` of src/main/config-guard.ts allows: `OVPN_DIRECTIVES`
-- and `OVPN_PEM_LINE`, regular expressions as functions.
use katacomb_vpn.Prelude.{
  ℕ, Bool, false, not, ◌&&◌, ◌||◌, Option, none, some, List, [], ◌∷◌, leb, ◌==◌, if◌then◌else◌,
  length, all,
}
use katacomb_vpn.Guard.Text.{
  onto_cut, Text, codes, is_empty, same_text, one_of, strip_prefix, drop_optional, span, is_digit,
  is_letter, is_number,
}
use katacomb_vpn.Guard.Wireguard.{is_host_code, wg_key}

-- `[ \t]`.
abbrev is_blank : ℕ → Bool
is_blank c = (c == 32) || (c == 9)

-- What stands before and behind the first blank: `search` and the two `slice`.
abbrev pub cut_blank : Text → Option (Text × Text)
cut_blank [] = none
cut_blank (c ∷ t) = let rest = cut_blank t in if is_blank c then some ([], t) else onto_cut c rest

-- `[A-Za-z0-9-]`.
abbrev pub is_tag_code : ℕ → Bool
is_tag_code c = is_letter c || is_digit c || (c == 45)

-- One to so many characters that pass a test.
abbrev is_run : (ℕ → Bool) → ℕ → Text → Bool
is_run p n t = not (is_empty t) && leb (length t) n && all p t

-- `^\[?[A-Za-z0-9.:_-]+\]?[ \t]+\d{1,5}$`.
abbrev is_remote : Text → Bool
is_remote t =
    let (host, rest) = span is_host_code (drop_optional 91 t) in
    let (blanks, port) = span is_blank (drop_optional 93 rest) in
    not (is_empty host) && not (is_empty blanks) && is_number 5 port

abbrev is_cipher_code : ℕ → Bool
is_cipher_code c = is_tag_code c || (c == 58)

abbrev is_flag_code : ℕ → Bool
is_flag_code c = is_tag_code c || is_blank c

-- `OVPN_DIRECTIVES`, its keys with their validators.
abbrev ovpn_directives : List (Text × (Text → Bool))
ovpn_directives =
    (codes "client", is_empty)
    ∷ (codes "dev", (λ v. same_text v (codes "sntl-ovpn")))
    ∷ (codes "dev-type", (λ v. same_text v (codes "tun")))
    ∷ (codes "proto", (λ v. one_of v (codes "tcp" ∷ codes "udp" ∷ [])))
    ∷ (codes "remote", is_remote)
    ∷ (codes "nobind", is_empty)
    ∷ (codes "auth-nocache", is_empty)
    ∷ (codes "auth", is_run is_tag_code 32)
    ∷ (codes "data-ciphers", is_run is_cipher_code 128)
    ∷ (codes "data-ciphers-fallback", is_run is_tag_code 64)
    ∷ (codes "tls-cipher", is_run is_cipher_code 128)
    ∷ (codes "tls-client", is_empty)
    ∷ (codes "tls-version-min", (λ v. one_of v (codes "1.2" ∷ codes "1.3" ∷ [])))
    ∷ (codes "remote-cert-tls", (λ v. same_text v (codes "server")))
    ∷ (codes "redirect-gateway", (λ v. leb (length v) 64 && all is_flag_code v))
    ∷ (codes "topology", (λ v. same_text v (codes "subnet")))
    ∷ (codes "explicit-exit-notify", (λ v. one_of v (codes "1" ∷ codes "2" ∷ codes "3" ∷ [])))
    ∷ (codes "persist-key", is_empty)
    ∷ (codes "persist-tun", is_empty)
    ∷ []

abbrev validator_in : List (Text × (Text → Bool)) → Text → Option (Text → Bool)
validator_in [] directive = none
validator_in ((name, valid) ∷ rest) directive =
    let later = validator_in rest directive in
    if same_text directive name then some valid else later

-- `OVPN_DIRECTIVES.get`.
unfoldable pub ovpn_validator : Text → Option (Text → Bool)
ovpn_validator directive = validator_in ovpn_directives directive

abbrev is_label_code : ℕ → Bool
is_label_code c = is_letter c || is_digit c || (c == 32)

-- ` [A-Za-z0-9 ]{1,48}-----` up to the end.
abbrev is_armor_label : Text → Bool
is_armor_label t =
    let (label, rest) = span is_label_code t in
    not (is_empty label) && leb (length label) 48 && same_text rest (codes "-----")

-- A word, and behind it what passes a test.
abbrev is_armor : Text → Text → Bool
is_armor word t = elim (strip_prefix word t) [ none ↦ false | some rest ↦ is_armor_label rest ]

-- `OVPN_PEM_LINE`.
abbrev pub ovpn_pem_line : Text → Bool
ovpn_pem_line t = is_armor (codes "-----BEGIN ") t || is_armor (codes "-----END ") t || wg_key t
