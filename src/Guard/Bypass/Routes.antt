-- ===== src/Guard/Bypass/Routes.antt =====
-- What bypass routes are let through, and that the settings page and the guard agree.
use katacomb_vpn.Prelude.{
  ℕ, zero, suc, ◌≤◌, ◌≡◌, refl, sym, ap, ◌∙◌, subst, inl, inr, Bool, true, false, not, ◌&&◌, Option,
  none, some, List, [], ◌∷◌, map, arith, leb, if◌then◌else◌, Bool-cases, length, length-filter,
  filter, all, All, Mem, All-of-mem, mem-of-filter,
}
use katacomb_vpn.Guard.Text.{Text, is_empty, trim, split_at, cut_first, is_digit, is_number}
use katacomb_vpn.Guard.Text.Trimming.{has, has-append, has-trim, trim_idem}
use katacomb_vpn.Guard.Text.Pieces.{
  and-left, and-right, lacks, lacks_of_all, lacks_of_pieces, cut_first-some,
}
use katacomb_vpn.Guard.Bypass.{
  is_allowed_range, is_allowed_cut, is_allowed_bypass_cidr, take, sanitize_bypass_routes,
  text_or_empty, max_bypass_routes,
}
use katacomb_vpn.Guard.Bypass.Pane.{
  pane_allows_range, pane_allows_cut, pane_allows_cidr, parse_split_tunnel_routes,
}

number_lacks : (n : ℕ) (t : Text) → is_number n t ≡ true → has 44 t ≡ false
number_lacks n t h =
    lacks_of_all 44 is_digit t refl
      (and-right (not (is_empty t) && leb (length t) n) (all is_digit t) (ground arith))

numbers_lack : (ts : List Text) → all (is_number 3) ts ≡ true → all (lacks 44) ts ≡ true
numbers_lack [] h = refl
numbers_lack (t ∷ ts) h =
    rw (number_lacks 3 t (and-left (is_number 3 t) (all (is_number 3) ts) h))
      (numbers_lack ts (and-right (is_number 3 t) (all (is_number 3) ts) h))

range_lacks : (a p : Text) → is_allowed_range a p ≡ true → (has 44 a ≡ false) × (has 44 p ≡ false)
unfolding is_allowed_range
range_lacks a p h = (
  lacks_of_pieces 44 46 a refl (numbers_lack (split_at 46 a) (ground arith)),
  number_lacks 2 p (ground arith),
)

cut_lacks :
    (t : Text) (cut : Option (Text × Text))
    → cut_first 47 t ≡ cut
    → is_allowed_cut cut ≡ true
    → has 44 t ≡ false
cut_lacks t none e h = cc
cut_lacks t (some (a, p)) e h =
    let (whole, _) = cut_first-some 47 t a p e in
    let (l, r) = range_lacks a p h in rw whole (rw (has-append 44 a (47 ∷ p)) (rw l (rw r refl)))

-- A range that is let through holds no comma.
is_allowed_bypass_cidr-lacks : (t : Text) → is_allowed_bypass_cidr t ≡ true → has 44 t ≡ false
is_allowed_bypass_cidr-lacks t h =
    sym (has-trim 44 t refl) ∙ cut_lacks (trim t) (cut_first 47 (trim t)) refl h

length-take : {A : Type 0} (n : ℕ) (xs : List A) → length (take n xs) ≤ n
length-take zero xs = omega arith
length-take (suc n) [] = omega arith
length-take (suc n) (x ∷ xs) = let ih = length-take n xs in omega arith

take_all : {A : Type 0} (n : ℕ) (xs : List A) → length xs ≤ n → take n xs ≡ xs
take_all zero [] h = refl
take_all zero (x ∷ xs) h = absurd (omega arith)
take_all (suc n) [] h = refl
take_all (suc n) (x ∷ xs) h = ap (λ t. x ∷ t) (take_all n xs (omega arith))

mem-take : {A : Type 0} (x : A) (n : ℕ) (xs : List A) → Mem x (take n xs) → Mem x xs
mem-take x zero xs m = absurd m
mem-take x (suc n) [] m = absurd m
mem-take x (suc n) (y ∷ ys) (inl e) = inl e
mem-take x (suc n) (y ∷ ys) (inr m) = inr (mem-take x n ys m)

-- What the code passes on to root: each an allowed range without a comma, and at most so many.
pub sanitize_bypass_routes-IsAllowed :
    (rs : List (Option Text))
    → All (λ r. (is_allowed_bypass_cidr r ≡ true) × (has 44 r ≡ false)) (sanitize_bypass_routes rs)
      × (length (sanitize_bypass_routes rs) ≤ max_bypass_routes)
sanitize_bypass_routes-IsAllowed rs =
    let texts = map text_or_empty rs in
    (
      All-of-mem (λ r. (is_allowed_bypass_cidr r ≡ true) × (has 44 r ≡ false))
          (sanitize_bypass_routes rs)
          (λ r m.
            let (_, h) =
              mem-of-filter is_allowed_bypass_cidr texts
                (mem-take r max_bypass_routes (filter is_allowed_bypass_cidr texts) m) in
            (h, is_allowed_bypass_cidr-lacks r h)),
      length-take max_bypass_routes (filter is_allowed_bypass_cidr texts),
    )

-- Trimming again changes nothing of what was trimmed.
abbrev AllTrimmed : List Text → Type 0
AllTrimmed ts = All (λ t. trim t ≡ t) ts

map_trim : (ts : List Text) → AllTrimmed ts → map text_or_empty (map some ts) ≡ ts
map_trim [] h = refl
map_trim (t ∷ ts) (e, h) = rw e (ap (λ us. t ∷ us) (map_trim ts h))

trimmed_map : (ts : List Text) → AllTrimmed (map trim ts)
trimmed_map [] = tt
trimmed_map (t ∷ ts) = (trim_idem t, trimmed_map ts)

trimmed_filter : (p : Text → Bool) (ts : List Text) → AllTrimmed ts → AllTrimmed (filter p ts)
trimmed_filter p [] h = tt
trimmed_filter p (t ∷ ts) (e, h) = elim (Bool-cases (p t)) [
  | inl y ↦
      subst (λ b. AllTrimmed (if b then t ∷ filter p ts else filter p ts)) (sym y)
        (e, trimmed_filter p ts h)
  | inr n ↦
      subst (λ b. AllTrimmed (if b then t ∷ filter p ts else filter p ts)) (sym n)
        (trimmed_filter p ts h)
]

filter_idem : (p : Text → Bool) (ts : List Text) → filter p (filter p ts) ≡ filter p ts
filter_idem p [] = refl
filter_idem p (t ∷ ts) = ground (arith, filter_idem p ts)

-- The two copies of the rule agree.
range_agrees : (a p : Text) → pane_allows_range a p ≡ is_allowed_range a p
unfolding pane_allows_range is_allowed_range
range_agrees a p = refl

cut_agrees : (cut : Option (Text × Text)) → pane_allows_cut cut ≡ is_allowed_cut cut
cut_agrees none = refl
cut_agrees (some (a, p)) = range_agrees a p

filter_agrees : (ts : List Text) → filter pane_allows_cidr ts ≡ filter is_allowed_bypass_cidr ts
filter_agrees [] = refl
filter_agrees (t ∷ ts) = rw (cut_agrees (cut_first 47 (trim t))) (rw (filter_agrees ts) refl)

-- The routes that the settings page takes from its text are kept by the main process as they are,
-- unless there are too many.
pub sanitize_bypass_routes-parse_split_tunnel_routes :
    (text : Text)
    → (parse_split_tunnel_routes text).too_many ≡ false
    → sanitize_bypass_routes (map some (parse_split_tunnel_routes text).routes)
      ≡ (parse_split_tunnel_routes text).routes
sanitize_bypass_routes-parse_split_tunnel_routes text h =
    let lines = filter (λ l. not (is_empty l)) (map trim (split_at 10 text)) in
    let routes = filter is_allowed_bypass_cidr lines in
    let trimmed = trimmed_filter is_allowed_bypass_cidr lines (
      trimmed_filter (λ l. not (is_empty l)) (map trim (split_at 10 text))
        (trimmed_map (split_at 10 text))) in
    let few : length lines ≤ max_bypass_routes = ground (arith) in
    let same = filter_agrees lines in
    let fewer = length-filter is_allowed_bypass_cidr lines in
    ap (λ rs. sanitize_bypass_routes (map some rs)) same
    ∙ ap (λ ts. take max_bypass_routes (filter is_allowed_bypass_cidr ts)) (map_trim routes trimmed)
    ∙ ap (take max_bypass_routes) (filter_idem is_allowed_bypass_cidr lines)
    ∙ take_all max_bypass_routes routes (omega arith)
    ∙ sym same
