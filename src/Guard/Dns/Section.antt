-- ===== src/Guard/Dns/Section.antt =====
-- Where src/main/vpn/connect-decisions.ts puts a DNS line that a text had none of.
use katacomb_vpn.Prelude.{
  [], ◌≡◌, refl, ap, ◌∙◌, subst, inl, inr, true, false, ◌||◌, List, ◌∷◌, ◌++◌, arith, Bool-cases,
  if_both, any, all,
}
use katacomb_vpn.Guard.Text.{Text}
use katacomb_vpn.Guard.Dns.{
  is_interface_header, is_header, is_blank_line, section_of, insert_before_blanks, insert_line,
}

-- A line behind a header of an interface, with no header between the two.
abbrev pub StandsInInterface : Text → List Text → Type 0
StandsInInterface new ls =
    (before : List Text) × (header : Text) × (inside : List Text) × (behind : List Text) × (ls
      ≡ before ++ (header ∷ (inside ++ (new ∷ behind))))
    × (is_interface_header header ≡ true)
    × (any is_header inside ≡ false)

section_of-has_no_header : (ls : List Text) → any is_header (section_of ls).0 ≡ false
section_of-has_no_header [] = refl
section_of-has_no_header (l ∷ ls) = ground (arith, section_of-has_no_header ls)

-- The new line parts the lines of its section in two.
abbrev Parts : Text → List Text → List Text → Type 0
Parts new ls ms = (a : List Text) × (b : List Text) × (ms ≡ a ++ (new ∷ b)) × (ls ≡ a ++ b)

insert_before_blanks-Parts :
    (new : Text) (ls : List Text) → Parts new ls (insert_before_blanks new ls)
insert_before_blanks-Parts new [] = ([], [], refl, refl)
insert_before_blanks-Parts new (l ∷ ls) =
    let (a, b, m, o) = insert_before_blanks-Parts new ls in
    if_both (λ x. Parts new (l ∷ ls) x) (all is_blank_line (l ∷ ls)) ([], l ∷ ls, refl, refl)
      (l ∷ a, b, ap (λ x. l ∷ x) m, ap (λ x. l ∷ x) o)

any-before : (a b : List Text) → any is_header (a ++ b) ≡ false → any is_header a ≡ false
any-before [] b h = refl
any-before (l ∷ a) b h = ground (arith, any-before a b)

append_append : (xs ys zs : List Text) → (xs ++ ys) ++ zs ≡ xs ++ (ys ++ zs)
append_append [] ys zs = refl
append_append (x ∷ xs) ys zs = ap (λ l. x ∷ l) (append_append xs ys zs)

pub insert_line-StandsInInterface :
    (new : Text) (ls : List Text)
    → any is_interface_header ls ≡ true
    → StandsInInterface new (insert_line new ls)
insert_line-StandsInInterface new [] h = absurd (cc h)
insert_line-StandsInInterface new (l ∷ ls) h = elim (Bool-cases (is_interface_header l)) [
  | inl e ↦
      let (a, b, m, o) = insert_before_blanks-Parts new (section_of ls).0 in
      rw e (
        [],
        l,
        a,
        b ++ (section_of ls).1,
        ap (λ x. l ∷ (x ++ (section_of ls).1)) m
            ∙ ap (λ x. l ∷ x) (append_append a (new ∷ b) (section_of ls).1),
        e,
        any-before a b (subst (λ x. any is_header x ≡ false) o (section_of-has_no_header ls)),
      )
  | inr e ↦
      let (before, header, inside, behind, s, i, n) =
        insert_line-StandsInInterface new ls
          (subst (λ b. (b || any is_interface_header ls) ≡ true) e h) in
      rw e (l ∷ before, header, inside, behind, ap (λ x. l ∷ x) s, i, n)
]
