-- ===== src/Guard/Dns.antt =====
-- The DNS lines of a WireGuard text: `stripDnsLines` and `replaceDnsLines` of
-- src/main/vpn/connect-decisions.ts.
mod Lines
mod Section
pub mod Replaced
mod Tests
use katacomb_vpn.Prelude.{
  [], ◌+◌, ◌-◌, ◌*◌, ◌/◌, ◌≡◌, Bool, false, not, ◌&&◌, List, ◌∷◌, ◌++◌, if◌then◌else◌, filter, any,
  all,
}
use katacomb_vpn.Guard.Text.{
  trim_start, join_with, Text, codes, is_empty, same_text, trim, to_lower, split_at, starts_with,
}

abbrev is_assigned : Text → Bool
is_assigned rest = starts_with 61 (trim_start rest)

abbrev is_dns_key : Text → Bool
is_dns_key (a ∷ b ∷ c ∷ rest) =
    same_text (to_lower (a ∷ b ∷ c ∷ [])) (codes "dns") && is_assigned rest
is_dns_key _ = false

-- `/^\s*DNS\s*=/i`.
unfoldable pub is_dns : Text → Bool
is_dns line = is_dns_key (trim_start line)

abbrev pub is_other : Text → Bool
is_other line = not (is_dns line)

-- `stripDnsLines`.
abbrev pub strip_dns_lines : Text → Text
strip_dns_lines config = join_with 10 (filter is_other (split_at 10 config))

abbrev pub dns_line : Text → Text
dns_line resolver_ip = codes "DNS = " ++ resolver_ip

-- The first DNS line replaced and those behind it dropped.
abbrev pub replace_first : Text → List Text → List Text
replace_first ip [] = []
replace_first ip (l ∷ ls) =
    let rest = replace_first ip ls in
    if is_dns l then dns_line ip ∷ filter is_other ls else l ∷ rest

unfoldable pub is_interface_header : Text → Bool
is_interface_header line = same_text (to_lower (trim line)) (codes "[interface]")

-- `/^\s*\[/`.
unfoldable pub is_header : Text → Bool
is_header line = starts_with 91 (trim_start line)

unfoldable pub is_blank_line : Text → Bool
is_blank_line line = is_empty (trim line)

-- The lines of a section, and what follows it.
abbrev pub section_of : List Text → List Text × List Text
section_of [] = ([], [])
section_of (l ∷ ls) =
    let (inside, rest) = section_of ls in if is_header l then ([], l ∷ ls) else (l ∷ inside, rest)

-- A line behind the last one that is not blank.
abbrev pub insert_before_blanks : Text → List Text → List Text
insert_before_blanks new [] = new ∷ []
insert_before_blanks new (l ∷ ls) =
    let rest = insert_before_blanks new ls in
    if all is_blank_line (l ∷ ls) then new ∷ l ∷ ls else l ∷ rest

abbrev pub insert_in_section : Text → List Text × List Text → List Text
insert_in_section new (inside, rest) = insert_before_blanks new inside ++ rest

-- The new line in the first section of an interface, if there is one.
abbrev pub insert_line : Text → List Text → List Text
insert_line new [] = []
insert_line new (l ∷ ls) =
    let rest = insert_line new ls in
    if is_interface_header l then l ∷ insert_in_section new (section_of ls) else l ∷ rest

-- `replaceDnsLines`.
abbrev pub replaced_lines : Text → List Text → List Text
replaced_lines ip lines =
    if any is_dns lines then replace_first ip lines else insert_line (dns_line ip) lines

abbrev pub replace_dns_lines : Text → Text → Text
replace_dns_lines config resolver_ip =
    join_with 10 (replaced_lines resolver_ip (split_at 10 config))
