-- ===== src/Guard/Text/Cuts.antt =====
-- Where a text is cut, before and behind trimming.
use katacomb_vpn.Prelude.{
  ℕ, ◌≡◌, refl, sym, ap, ◌∙◌, inl, inr, Bool, true, false, none, some, [], ◌∷◌, ◌++◌, arith, ◌==◌,
  if◌then◌else◌, ==_iff, Bool-cases, Option-cases,
}
use katacomb_vpn.Guard.Text.{
  trim_start, trim_end, before_trimmed, Text, is_space, trim, cut_first, cut_last,
}
use katacomb_vpn.Guard.Text.Trimming.{
  has, has-trim, lacks-trim_start, trim_end_idem, starts_well-before_trimmed, trim_start_well,
}
use katacomb_vpn.Guard.Text.Pieces.{cut_first-some, cut_first-append}

module _ (x : ℕ) (n : is_space x ≡ false) where
  -- Trimming a text around a character that is not white space.
  trim_start-append : (a b : Text) → trim_start (a ++ (x ∷ b)) ≡ trim_start a ++ (x ∷ b)
  trim_start-append [] b = rw (n) refl
  trim_start-append (d ∷ a) b = at_head (is_space d) d a b (trim_start-append a b)
    where
      at_head :
          (s : Bool) (e : ℕ) (u v : Text)
          → trim_start (u ++ (x ∷ v)) ≡ trim_start u ++ (x ∷ v)
          → (if s then trim_start (u ++ (x ∷ v)) else e ∷ (u ++ (x ∷ v)))
            ≡ (if s then trim_start u else e ∷ u) ++ (x ∷ v)
      at_head true e u v ih = ih
      at_head false e u v ih = refl

  before_trimmed-solid : (t : Text) → before_trimmed x t ≡ x ∷ t
  before_trimmed-solid [] = rw (n) refl
  before_trimmed-solid (d ∷ t) = refl

  before_trimmed-append :
      (d : ℕ) (a t : Text) → before_trimmed d (a ++ (x ∷ t)) ≡ d ∷ (a ++ (x ∷ t))
  before_trimmed-append d [] t = refl
  before_trimmed-append d (e ∷ a) t = refl

  pub trim_end-append : (a b : Text) → trim_end (a ++ (x ∷ b)) ≡ a ++ (x ∷ trim_end b)
  trim_end-append [] b = before_trimmed-solid (trim_end b)
  trim_end-append (d ∷ a) b =
      ap (before_trimmed d) (trim_end-append a b) ∙ before_trimmed-append d a (trim_end b)

  trim-append : (a b : Text) → trim (a ++ (x ∷ b)) ≡ trim_start a ++ (x ∷ trim_end b)
  trim-append a b = ap trim_end (trim_start-append a b) ∙ trim_end-append (trim_start a) b

  pub cut_first-trim-some :
      (t a b : Text)
      → cut_first x t ≡ some (a, b)
      → cut_first x (trim t) ≡ some (trim_start a, trim_end b)
  cut_first-trim-some t a b e =
      let (whole, l) = cut_first-some x t a b e in
      ap (cut_first x) (ap trim whole ∙ trim-append a b)
      ∙ cut_first-append x (trim_start a) (trim_end b) (lacks-trim_start x a l)

  cut_first-lacks : (t : Text) → cut_first x t ≡ none → has x t ≡ false
  cut_first-lacks [] e = refl
  cut_first-lacks (d ∷ t) e = elim (Bool-cases (d == x)) [
    | inl h ↦ ground arith
    | inr h ↦ elim (Option-cases (cut_first x t)) [
      | inl k ↦ rw h (cut_first-lacks t k)
      | inr ((a, b), k) ↦ ground arith
    ]
  ]

  lacks-cut_first : (t : Text) → has x t ≡ false → cut_first x t ≡ none
  lacks-cut_first [] h = refl
  lacks-cut_first (d ∷ t) h = ground (arith, lacks-cut_first t)

  pub cut_first-trim-none : (t : Text) → cut_first x t ≡ none → cut_first x (trim t) ≡ none
  cut_first-trim-none t e = lacks-cut_first (trim t) (has-trim x t n ∙ cut_first-lacks t e)

trim_start-skipped : (d : ℕ) (t : Text) → is_space d ≡ true → trim_start (d ∷ t) ≡ trim_start t
trim_start-skipped d t s = rw (s) refl

trim_start-kept : (d : ℕ) (t : Text) → is_space d ≡ false → trim_start (d ∷ t) ≡ d ∷ t
trim_start-kept d t s = rw (s) refl

trim_start-before_trimmed :
    (d : ℕ) (t : Text) → is_space d ≡ true → trim_start (before_trimmed d t) ≡ trim_start t
trim_start-before_trimmed d [] s = rw (s) refl
trim_start-before_trimmed d (e ∷ t) s = trim_start-skipped d (e ∷ t) s

trim_start-trim_end : (t : Text) → trim_start (trim_end t) ≡ trim_end (trim_start t)
trim_start-trim_end [] = refl
trim_start-trim_end (d ∷ t) = elim (Bool-cases (is_space d)) [
  | inl s ↦
      trim_start-before_trimmed d (trim_end t) s
      ∙ trim_start-trim_end t
      ∙ ap trim_end (sym (trim_start-skipped d t s))
  | inr s ↦
      trim_start_well (before_trimmed d (trim_end t)) (starts_well-before_trimmed d (trim_end t) s)
      ∙ ap trim_end (sym (trim_start-kept d t s))
]

pub trim-trim_end : (t : Text) → trim (trim_end t) ≡ trim t
trim-trim_end t = ap trim_end (trim_start-trim_end t) ∙ trim_end_idem (trim_start t)

module _ (sep : ℕ) where
  pub cut_last-append :
      (a b : Text) → cut_last sep b ≡ none → cut_last sep (a ++ (sep ∷ b)) ≡ some (a, b)
  cut_last-append [] b n = ground (arith, ==_iff sep sep)
  cut_last-append (d ∷ a) b n = rw (cut_last-append a b n) refl

  pub cut_last-some :
      (t a b : Text) → cut_last sep t ≡ some (a, b) → (t ≡ a ++ (sep ∷ b)) × (cut_last sep b ≡ none)
  cut_last-some [] a b e = cc
  cut_last-some (d ∷ t) a b e = elim (Option-cases (cut_last sep t)) [
    | inl n ↦ ground (arith, ==_iff d sep)
    | inr ((x, y), s) ↦ ground (arith, cut_last-some t x y s)
  ]

pub append-cancel : (a : Text) {b c : Text} → (a ++ b) ≡ (a ++ c) → b ≡ c
append-cancel [] e = e
append-cancel (x ∷ a) e = append-cancel a (cc e)
