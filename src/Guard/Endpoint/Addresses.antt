-- ===== src/Guard/Endpoint/Addresses.antt =====
-- Addresses of version 4 in the value of an endpoint (src/main/config-guard.ts).
use katacomb_vpn.Prelude.{
  ℕ, ◌≡◌, refl, ap, ◌∙◌, subst, inl, inr, Bool, true, false, none, some, List, [], ◌∷◌, ◌++◌, arith,
  ◌==◌, if◌then◌else◌, Bool-cases, all,
}
use katacomb_vpn.Guard.Text.{
  trim_end, onto_first, Text, is_empty, is_space, trim, split_at, cut_last, starts_with, is_digit,
  is_number,
}
use katacomb_vpn.Guard.Text.Trimming.{has, starts_well, trim_start_well}
use katacomb_vpn.Guard.Text.Pieces.{lacks, lacks_of_all, lacks_of_pieces}
use katacomb_vpn.Guard.Text.Cuts.{trim_end-append, cut_last-append}
use katacomb_vpn.Guard.Bypass.{is_ipv4}
use katacomb_vpn.Guard.Endpoint.{host_of_value}

-- An IPv4 literal begins with a digit and holds digits and dots.
digit_solid : (c : ℕ) → is_digit c ≡ true → (is_space c ≡ false) × ((c == 91) ≡ false)
digit_solid c h = ground arith

unfoldable begins_with_digit : Text → Bool
begins_with_digit [] = false
begins_with_digit (c ∷ t) = is_digit c

first_piece :
    (c : ℕ) (ps : List Text) → all (is_number 3) (onto_first c ps) ≡ true → is_digit c ≡ true
first_piece c [] h = ground arith
first_piece c (p ∷ ps) h = ground arith

octets_digit : (t : Text) → all (is_number 3) (split_at 46 t) ≡ true → begins_with_digit t ≡ true
unfolding begins_with_digit
octets_digit [] h = cc
octets_digit (c ∷ t) h = elim (Bool-cases (c == 46)) [
  | inl e ↦ absurd (
      cc (
        subst
          (λ b.
            all (is_number 3) (if b then [] ∷ split_at 46 t else onto_first c (split_at 46 t))
            ≡ true)
          e h))
  | inr e ↦ first_piece c (split_at 46 t) (
      subst
        (λ b.
          all (is_number 3) (if b then [] ∷ split_at 46 t else onto_first c (split_at 46 t)) ≡ true)
        e h)
]

ipv4_numbers : (t : Text) → is_ipv4 t ≡ true → all (is_number 3) (split_at 46 t) ≡ true
unfolding is_ipv4
ipv4_numbers t h = ground arith

number_lacks_newline : (ts : List Text) → all (is_number 3) ts ≡ true → all (lacks 10) ts ≡ true
number_lacks_newline [] h = refl
number_lacks_newline (t ∷ ts) h =
    rw (lacks_of_all 10 is_digit t refl (ground arith)) (number_lacks_newline ts (ground arith))

pub ipv4_lacks_newline : (t : Text) → is_ipv4 t ≡ true → has 10 t ≡ false
ipv4_lacks_newline t h =
    lacks_of_pieces 10 46 t refl (number_lacks_newline (split_at 46 t) (ipv4_numbers t h))

-- The value `ip:port` is read back, and trimming does nothing to it behind a blank.
solid_start :
    (t u : Text)
    → begins_with_digit t ≡ true
    → (starts_well (t ++ u) ≡ true) × (starts_with 91 (t ++ u) ≡ false) × (is_empty t ≡ false)
unfolding begins_with_digit
solid_start [] u h = cc
solid_start (c ∷ t) u h = let (s, b) = digit_solid c h in (rw (s) refl, b, refl)

pub host_of_address :
    (ip port : Text)
    → is_ipv4 ip ≡ true
    → cut_last 58 port ≡ none
    → host_of_value (ip ++ (58 ∷ port)) ≡ some ip
unfolding host_of_value
host_of_address ip port h n =
    let (_, b, e) = solid_start ip (58 ∷ port) (octets_digit ip (ipv4_numbers ip h)) in
    rw (b) (rw (cut_last-append 58 ip port n) (rw (e) refl))

pub trim_address :
    (ip port : Text)
    → is_ipv4 ip ≡ true
    → trim_end port ≡ port
    → trim (32 ∷ (ip ++ (58 ∷ port))) ≡ ip ++ (58 ∷ port)
trim_address ip port h e =
    let (w, _, _) = solid_start ip (58 ∷ port) (octets_digit ip (ipv4_numbers ip h)) in
    ap trim_end (trim_start_well (ip ++ (58 ∷ port)) w)
    ∙ trim_end-append 58 refl ip port
    ∙ ap (λ p. ip ++ (58 ∷ p)) e
