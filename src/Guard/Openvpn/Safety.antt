-- ===== src/Guard/Openvpn/Safety.antt =====
-- What `assertSafeOpenVpnConfig` of src/main/config-guard.ts lets through, measured by the
-- statements that its own reading finds in a text.
use katacomb_vpn.Prelude.{
  ◌≡◌, ◌∙◌, subst, inl, inr, Bool, true, false, ◌||◌, Option, none, some, List, [], ◌∷◌, arith,
  if◌then◌else◌, Bool-cases, Option-cases, ok, err,
}
use katacomb_vpn.Guard.Text.{Text, is_empty, same_text, one_of, trim, to_lower, starts_with}
use katacomb_vpn.Guard.Wireguard.{is_comment}
use katacomb_vpn.Guard.Openvpn.Values.{ovpn_validator, cut_blank}
use katacomb_vpn.Guard.Openvpn.{
  OvpnScan, OvpnError, closing_tag, opening_match, read_inside, read_opening, read_value,
  read_named, directive_of, read_directive, read_tag_or_directive, read_in,
}

-- The block that is open behind a line, whatever the line holds.
abbrev opened_by : Option Text → Option Text
opened_by none = none
opened_by (some tag) = some (to_lower tag)

abbrev pub block_after : Option Text → Text → Option Text
block_after (some tag) line = if same_text line (closing_tag tag) then none else some tag
block_after none line =
    if is_empty line || is_comment line then none else opened_by (opening_match line)

-- The directive of a line with its value.
abbrev unless_opening : Text → Option Text → Option (Text × Text)
unless_opening line (some tag) = none
unless_opening line none = some (directive_of line (cut_blank line))

abbrev pub statement_of : Option Text → Text → Option (Text × Text)
statement_of (some tag) line = none
statement_of none line =
    if is_empty line || is_comment line then none else unless_opening line (opening_match line)

abbrev pub onto_statements : Option (Text × Text) → List (Text × Text) → List (Text × Text)
onto_statements none rest = rest
onto_statements (some s) rest = s ∷ rest

-- The statements of a text, in their order: all that is not blank, a comment or part of a block.
abbrev pub statements : Option Text → List Text → List (Text × Text)
statements block [] = []
statements block (raw ∷ rest) =
    onto_statements (statement_of block (trim raw)) (statements (block_after block (trim raw)) rest)

-- A directive of the map whose validator accepts the value.
unfoldable pub IsAllowed : Text × Text → Type 0
IsAllowed (directive, value) =
    (valid : Text → Bool) × (ovpn_validator directive ≡ some valid) × (valid value ≡ true)

-- No directive occurs among those before it.
abbrev pub IsFresh : List Text → List (Text × Text) → Type 0
IsFresh seen [] = Unit
IsFresh seen ((directive, value) ∷ rest) =
    (one_of directive seen ≡ false) × IsFresh (directive ∷ seen) rest

-- What one line adds to what was seen.
abbrev pub Adds : List Text → Option (Text × Text) → List Text → Type 0
Adds seen none after = after ≡ seen
Adds seen (some (directive, value)) after =
    IsAllowed (directive, value) × (one_of directive seen ≡ false) × (after ≡ directive ∷ seen)

abbrev Steps : OvpnScan → Option (Text × Text) → Option Text → OvpnScan → Type 0
Steps st said block next =
    (next.open_block ≡ block) × Adds st.seen_directives said next.seen_directives

read_inside-Steps :
    (tag : Text) (st : OvpnScan) (line : Text) {next : OvpnScan}
    → st.open_block ≡ some tag
    → read_inside tag st line ≡ ok next
    → Steps st none (block_after (some tag) line) next
unfolding read_inside
read_inside-Steps tag st line o e = ground arith

read_opening-Steps :
    (st : OvpnScan) (tag : Text) {next : OvpnScan}
    → read_opening st tag ≡ ok next
    → Steps st none (some tag) next
unfolding read_opening
read_opening-Steps st tag e = ground arith

read_value-Steps :
    (st : OvpnScan) (directive value : Text) (valid : Text → Bool) {next : OvpnScan}
    → read_value st directive value (some valid) ≡ ok next
    → (valid value ≡ true)
      × (one_of directive st.seen_directives ≡ false)
      × (next.open_block ≡ st.open_block)
      × (next.seen_directives ≡ directive ∷ st.seen_directives)
unfolding read_value
read_value-Steps st directive value valid e = ground arith

read_value-none :
    (st : OvpnScan) (directive value : Text) {next : OvpnScan}
    → ¬ (read_value st directive value none ≡ ok next)
unfolding read_value
read_value-none st directive value e = cc

read_named-Steps :
    (st : OvpnScan) (s : Text × Text) {next : OvpnScan}
    → st.open_block ≡ none
    → read_named st s ≡ ok next
    → Steps st (some s) none next
unfolding IsAllowed
read_named-Steps st (directive, value) {next} o e = elim (Option-cases (ovpn_validator directive)) [
  | inl n ↦ absurd (
      read_value-none st directive value
        (subst (λ v. read_value st directive value v ≡ ok next) n e))
  | inr (valid, found) ↦
      let (v, f, b, s) =
        read_value-Steps st directive value valid
          (subst (λ w. read_value st directive value w ≡ ok next) found e) in
      (b ∙ o, ((valid, found, v), f, s))
]

read_tag_or_directive-Steps :
    (st : OvpnScan) (line : Text) (opening : Option Text) {next : OvpnScan}
    → st.open_block ≡ none
    → read_tag_or_directive st line opening ≡ ok next
    → Steps st (unless_opening line opening) (opened_by opening) next
read_tag_or_directive-Steps st line (some tag) o e = read_opening-Steps st (to_lower tag) e
read_tag_or_directive-Steps st line none {next} o e = elim (Bool-cases (starts_with 60 line)) [
  | inl t ↦ absurd (cc)
  | inr f ↦
      read_named-Steps st (directive_of line (cut_blank line)) o
        (subst (λ b. (if b then err OvpnError.stray_tag else read_directive st line) ≡ ok next) f e)
]

read_plain-Steps :
    (skipped : Bool) (st : OvpnScan) (line : Text) {next : OvpnScan}
    → st.open_block ≡ none
    → (if skipped then ok st else read_tag_or_directive st line (opening_match line)) ≡ ok next
    → Steps st
        (if skipped then none else unless_opening line (opening_match line))
        (if skipped then none else opened_by (opening_match line))
        next
read_plain-Steps true st line o e = ground arith
read_plain-Steps false st line o e = read_tag_or_directive-Steps st line (opening_match line) o e

pub read_in-Steps :
    (block : Option Text) (st : OvpnScan) (line : Text) {next : OvpnScan}
    → st.open_block ≡ block
    → read_in block st line ≡ ok next
    → Steps st (statement_of block line) (block_after block line) next
read_in-Steps (some tag) st line o e = read_inside-Steps tag st line o e
read_in-Steps none st line o e = read_plain-Steps (is_empty line || is_comment line) st line o e
