-- ===== src/Guard/Dns/Replaced.antt =====
-- Which DNS lines are left by src/main/vpn/connect-decisions.ts.
use katacomb_vpn.Prelude.{
  [], ◌≡◌, refl, sym, ap, ◌∙◌, subst, ◌≢◌, ◌⊎◌, inl, inr, true, false, ◌||◌, List, ◌∷◌, ◌++◌, arith,
  Bool-cases, filter, any, all,
}
use katacomb_vpn.Guard.Text.{join_with, Text, split_at}
use katacomb_vpn.Guard.Text.Trimming.{has}
use katacomb_vpn.Guard.Text.Pieces.{lacks, split_at-join_with, split_at-lacks}
use katacomb_vpn.Guard.Dns.{
  is_dns, is_other, strip_dns_lines, dns_line, replace_first, is_interface_header, section_of,
  insert_before_blanks, insert_in_section, insert_line, replaced_lines, replace_dns_lines,
}
use katacomb_vpn.Guard.Dns.Lines.{
  filter-append, section_of-append, both_empty, all-filter, all-replaced_lines,
}
use katacomb_vpn.Guard.Dns.Section.{StandsInInterface, insert_line-StandsInInterface}

dns_line-is_dns : (ip : Text) → is_dns (dns_line ip) ≡ true
unfolding is_dns
dns_line-is_dns ip = refl

none_of_others : (ls : List Text) → filter is_dns (filter is_other ls) ≡ []
none_of_others [] = refl
none_of_others (l ∷ ls) = ground (arith, none_of_others ls)

others_of_others : (ls : List Text) → filter is_other (filter is_other ls) ≡ filter is_other ls
others_of_others [] = refl
others_of_others (l ∷ ls) = ground (arith, others_of_others ls)

-- One DNS line is left, and all other lines as they were.
abbrev pub HoldsOnly : Text → List Text → List Text → Type 0
HoldsOnly new old ls = (filter is_dns ls ≡ new ∷ []) × (filter is_other ls ≡ filter is_other old)

replace_first-HoldsOnly :
    (ip : Text) (ls : List Text)
    → any is_dns ls ≡ true
    → HoldsOnly (dns_line ip) ls (replace_first ip ls)
replace_first-HoldsOnly ip [] h = cc
replace_first-HoldsOnly ip (l ∷ ls) h = elim (Bool-cases (is_dns l)) [
  | inl e ↦ ground (arith, dns_line-is_dns ip, none_of_others ls, others_of_others ls)
  | inr e ↦ ground (arith, replace_first-HoldsOnly ip ls)
]

no_dns : (ls : List Text) → any is_dns ls ≡ false → filter is_dns ls ≡ []
no_dns [] h = refl
no_dns (l ∷ ls) h = ground (arith, no_dns ls)

-- Where a line goes in between, the others stay.
module _ (new : Text) (n : is_dns new ≡ true) where
  insert_before_blanks-filter_dns :
      (ls : List Text)
      → filter is_dns ls ≡ []
      → filter is_dns (insert_before_blanks new ls) ≡ new ∷ []
  insert_before_blanks-filter_dns [] h = rw n refl
  insert_before_blanks-filter_dns (l ∷ ls) h = ground (arith, insert_before_blanks-filter_dns ls)

  insert_before_blanks-filter_other :
      (ls : List Text) → filter is_other (insert_before_blanks new ls) ≡ filter is_other ls
  insert_before_blanks-filter_other [] = rw n refl
  insert_before_blanks-filter_other (l ∷ ls) = ground (arith, insert_before_blanks-filter_other ls)

  insert_in_section-HoldsOnly :
      (ls : List Text)
      → any is_dns ls ≡ false
      → HoldsOnly new ls (insert_in_section new (section_of ls))
  insert_in_section-HoldsOnly ls h =
      let inside = (section_of ls).0 in
      let rest = (section_of ls).1 in
      let none_at_all =
        sym (filter-append is_dns inside rest)
        ∙ ap (λ x. filter is_dns x) (section_of-append ls)
        ∙ no_dns ls h in
      let (none_inside, none_behind) =
        both_empty (filter is_dns inside) (filter is_dns rest) none_at_all in
      (
        filter-append is_dns (insert_before_blanks new inside) rest
            ∙ rw (insert_before_blanks-filter_dns inside none_inside) (rw none_behind refl),
        filter-append is_other (insert_before_blanks new inside) rest
            ∙ ap (λ x. x ++ filter is_other rest) (insert_before_blanks-filter_other inside)
            ∙ sym (filter-append is_other inside rest)
            ∙ ap (λ x. filter is_other x) (section_of-append ls),
      )

  insert_line-HoldsOnly :
      (ls : List Text)
      → any is_dns ls ≡ false
      → any is_interface_header ls ≡ true
      → HoldsOnly new ls (insert_line new ls)
  insert_line-HoldsOnly [] h i = cc
  insert_line-HoldsOnly (l ∷ ls) h i =
      ground (arith, insert_in_section-HoldsOnly ls, insert_line-HoldsOnly ls)

replaced_lines-HoldsOnly :
    (ip : Text) (ls : List Text)
    → (any is_dns ls || any is_interface_header ls) ≡ true
    → HoldsOnly (dns_line ip) ls (replaced_lines ip ls)
replaced_lines-HoldsOnly ip ls h = elim (Bool-cases (any is_dns ls)) [
  | inl e ↦ rw e (replace_first-HoldsOnly ip ls e)
  | inr e ↦ rw e (
      insert_line-HoldsOnly (dns_line ip) (dns_line-is_dns ip) ls e
        (subst (λ b. (b || any is_interface_header ls) ≡ true) e h))
]

-- Lines that are joined are those that the text is split into.
lines_of :
    (ls : List Text) → ls ≢ [] → all (lacks 10) ls ≡ true → split_at 10 (join_with 10 ls) ≡ ls
lines_of [] n h = absurd (n refl)
lines_of (l ∷ ls) n h = split_at-join_with 10 l ls h

-- A line that is new stands in a section of an interface.
replaced_lines-StandsInInterface :
    (ip : Text) (ls : List Text)
    → (any is_dns ls || any is_interface_header ls) ≡ true
    → (any is_dns ls ≡ true) ⊎ StandsInInterface (dns_line ip) (replaced_lines ip ls)
replaced_lines-StandsInInterface ip ls h = elim (Bool-cases (any is_dns ls)) [
  | inl e ↦ inl e
  | inr e ↦ inr (
      rw e (
        insert_line-StandsInInterface (dns_line ip) ls
          (subst (λ b. (b || any is_interface_header ls) ≡ true) e h)))
]

-- A text with a DNS line or a section of an interface has, once a resolver was chosen for it, that
-- resolver's line as its only DNS line, and all its other lines as they were and in their order; a
-- text without a DNS line has it behind the header of an interface, with no other header between
-- them. The address of the resolver holds no line break.
pub replace_dns_lines-HoldsOnly :
    (config ip : Text)
    → has 10 ip ≡ false
    → (any is_dns (split_at 10 config) || any is_interface_header (split_at 10 config)) ≡ true
    → HoldsOnly (dns_line ip) (split_at 10 config) (split_at 10 (replace_dns_lines config ip))
      × ((any is_dns (split_at 10 config) ≡ true)
          ⊎ StandsInInterface (dns_line ip) (split_at 10 (replace_dns_lines config ip)))
replace_dns_lines-HoldsOnly config ip n h =
    let ls = split_at 10 config in
    let (new, old) = replaced_lines-HoldsOnly ip ls h in
    subst
      (λ x.
        HoldsOnly (dns_line ip) ls x × ((any is_dns ls ≡ true) ⊎ StandsInInterface (dns_line ip) x))
      (sym (
        lines_of (replaced_lines ip ls) (λ e. cc (sym new ∙ ap (λ x. filter is_dns x) e))
          (all-replaced_lines (lacks 10) ip ls (rw n refl) (split_at-lacks 10 config))))
      ((new, old), replaced_lines-StandsInInterface ip ls h)

-- What `stripDnsLines` leaves is split into lines that are no DNS lines.
strip-filter_dns :
    (ls : List Text)
    → all (lacks 10) ls ≡ true
    → filter is_dns ls ≡ []
    → filter is_dns (split_at 10 (join_with 10 ls)) ≡ []
unfolding is_dns
strip-filter_dns [] a h = refl
strip-filter_dns (l ∷ ls) a h = ap (λ x. filter is_dns x) (split_at-join_with 10 l ls a) ∙ h

strip_dns_lines-filter_dns :
    (config : Text) → filter is_dns (split_at 10 (strip_dns_lines config)) ≡ []
strip_dns_lines-filter_dns config =
    strip-filter_dns (filter is_other (split_at 10 config))
      (all-filter (lacks 10) is_other (split_at 10 config) (split_at-lacks 10 config))
      (none_of_others (split_at 10 config))
