-- ===== src/Guard/Dns/Lines.antt =====
-- Lists of lines in general, and what the rewriting of src/main/vpn/connect-decisions.ts keeps of
-- what all lines have.
use katacomb_vpn.Prelude.{
  [], ◌≡◌, refl, sym, ap, ◌∙◌, Bool, true, ◌&&◌, List, ◌∷◌, ◌++◌, arith, if_both, filter, any, all,
}
use katacomb_vpn.Guard.Text.{Text}
use katacomb_vpn.Guard.Text.Pieces.{and-left, and-right}
use katacomb_vpn.Guard.Dns.{
  is_dns, is_other, dns_line, replace_first, section_of, insert_before_blanks, insert_in_section,
  insert_line, replaced_lines,
}

-- A filter over two lists, one behind the other.
pub filter-append :
    (p : Text → Bool) (xs ys : List Text) → filter p (xs ++ ys) ≡ filter p xs ++ filter p ys
filter-append p [] ys = refl
filter-append p (x ∷ xs) ys = ground (arith, filter-append p xs ys)

pub section_of-append : (ls : List Text) → (section_of ls).0 ++ (section_of ls).1 ≡ ls
section_of-append [] = refl
section_of-append (l ∷ ls) = ground (arith, section_of-append ls)

pub both_empty : (xs ys : List Text) → xs ++ ys ≡ [] → (xs ≡ []) × (ys ≡ [])
both_empty [] ys e = (refl, e)
both_empty (x ∷ xs) ys e = cc

-- What all lines have is kept where the new line has it.
module _ (p : Text → Bool) where
  all-append : (xs ys : List Text) → all p (xs ++ ys) ≡ (all p xs && all p ys)
  all-append [] ys = refl
  all-append (x ∷ xs) ys = ground (arith, all-append xs ys)

  pub all-filter : (q : Text → Bool) (ls : List Text) → all p ls ≡ true → all p (filter q ls) ≡ true
  all-filter q [] h = refl
  all-filter q (l ∷ ls) h = ground (arith, all-filter q ls)

  all-replace_first :
      (ip : Text) (ls : List Text)
      → p (dns_line ip) ≡ true
      → all p ls ≡ true
      → all p (replace_first ip ls) ≡ true
  all-replace_first ip [] n h = refl
  all-replace_first ip (l ∷ ls) n h =
      ground (arith, all-filter is_other ls, all-replace_first ip ls)

  all-insert_before_blanks :
      (new : Text) (ls : List Text)
      → p new ≡ true
      → all p ls ≡ true
      → all p (insert_before_blanks new ls) ≡ true
  all-insert_before_blanks new [] n h = rw n refl
  all-insert_before_blanks new (l ∷ ls) n h = ground (arith, all-insert_before_blanks new ls)

  all-insert_in_section :
      (new : Text) (ls : List Text)
      → p new ≡ true
      → all p ls ≡ true
      → all p (insert_in_section new (section_of ls)) ≡ true
  all-insert_in_section new ls n h =
      let inside = (section_of ls).0 in
      let rest = (section_of ls).1 in
      let parts = sym (all-append inside rest) ∙ ap (λ x. all p x) (section_of-append ls) ∙ h in
      all-append (insert_before_blanks new inside) rest
      ∙ rw (all-insert_before_blanks new inside n (and-left (all p inside) (all p rest) parts))
          (and-right (all p inside) (all p rest) parts)

  all-insert_line :
      (new : Text) (ls : List Text)
      → p new ≡ true
      → all p ls ≡ true
      → all p (insert_line new ls) ≡ true
  all-insert_line new [] n h = refl
  all-insert_line new (l ∷ ls) n h =
      ground (arith, all-insert_in_section new ls, all-insert_line new ls)

pub all-replaced_lines :
    (p : Text → Bool) (ip : Text) (ls : List Text)
    → p (dns_line ip) ≡ true
    → all p ls ≡ true
    → all p (replaced_lines ip ls) ≡ true
all-replaced_lines p ip ls n h =
    if_both (λ x. all p x ≡ true) (any is_dns ls) (all-replace_first p ip ls n h)
      (all-insert_line p (dns_line ip) ls n h)
