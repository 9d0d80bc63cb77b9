-- ===== src/Guard/Text/Pieces.antt =====
-- Texts cut in pieces and joined again.
use katacomb_vpn.Prelude.{
  ℕ, ◌≡◌, refl, sym, ◌∙◌, subst, ◌≢◌, inl, inr, Bool, true, false, not, ◌&&◌, some, List, [], ◌∷◌,
  ◌++◌, arith, ◌==◌, if◌then◌else◌, ==_iff, Bool-cases, Option-cases, if_both, all,
}
use katacomb_vpn.Guard.Text.{onto_first, join_with, Text, split_at, cut_first}
use katacomb_vpn.Guard.Text.Trimming.{has}

pub and-left : (a b : Bool) → (a && b) ≡ true → a ≡ true
and-left true b h = refl
and-left false b h = cc

pub and-right : (a b : Bool) → (a && b) ≡ true → b ≡ true
and-right true b h = h
and-right false b h = cc

module _ (c : ℕ) where
  pub lacks_of_all : (p : ℕ → Bool) (t : Text) → p c ≡ false → all p t ≡ true → has c t ≡ false
  lacks_of_all p [] n h = refl
  lacks_of_all p (d ∷ t) n h = elim (Bool-cases (d == c)) [
    | inl e ↦
        absurd
          (cc (sym (subst (λ x. p x ≡ true) ((==_iff d c).0 e) (and-left (p d) (all p t) h)) ∙ n))
    | inr e ↦ rw e (lacks_of_all p t n (and-right (p d) (all p t) h))
  ]

  abbrev pub lacks : Text → Bool
  lacks t = not (has c t)

  lacks-onto_first :
      (d : ℕ) (ps : List Text)
      → all lacks (onto_first d ps) ≡ true
      → ((d == c) ≡ false) × (all lacks ps ≡ true)
  lacks-onto_first d [] h = ground arith
  lacks-onto_first d (p ∷ ps) h = ground arith

  -- A text lacks what its pieces and the separator lack.
  pub lacks_of_pieces :
      (sep : ℕ) (t : Text)
      → (sep == c) ≡ false
      → all lacks (split_at sep t) ≡ true
      → has c t ≡ false
  lacks_of_pieces sep [] n h = refl
  lacks_of_pieces sep (d ∷ t) n h = elim (Bool-cases (d == sep)) [
    | inl e ↦ ground (arith, lacks_of_pieces sep t)
    | inr e ↦
        let (a, b) = lacks-onto_first d (split_at sep t) (
          subst
            (λ x.
              all lacks (if x then [] ∷ split_at sep t else onto_first d (split_at sep t)) ≡ true)
            e h) in
        rw a (lacks_of_pieces sep t n b)
  ]

module _ (sep : ℕ) where
  split_at-piece : (p : Text) → has sep p ≡ false → split_at sep p ≡ p ∷ []
  split_at-piece [] n = refl
  split_at-piece (d ∷ p) n = ground (arith, split_at-piece p)

  split_at-append :
      (p t : Text) → has sep p ≡ false → split_at sep (p ++ (sep ∷ t)) ≡ p ∷ split_at sep t
  split_at-append [] t n = ground (arith, (==_iff sep sep))
  split_at-append (d ∷ p) t n = ground (arith, split_at-append p t)

  -- What was joined is split again.
  pub split_at-join_with :
      (p : Text) (ps : List Text)
      → all (lacks sep) (p ∷ ps) ≡ true
      → split_at sep (join_with sep (p ∷ ps)) ≡ p ∷ ps
  split_at-join_with p [] h = ground (arith, split_at-piece p)
  split_at-join_with p (q ∷ ps) h =
      ground (arith, split_at-append p (join_with sep (q ∷ ps)), split_at-join_with q ps)

  onto_first-join_with :
      (d : ℕ) (ps : List Text) → ps ≢ [] → join_with sep (onto_first d ps) ≡ d ∷ join_with sep ps
  onto_first-join_with d [] n = absurd (n refl)
  onto_first-join_with d (p ∷ []) n = refl
  onto_first-join_with d (p ∷ q ∷ ps) n = refl

  pub cut_first-some :
      (t a b : Text) → cut_first sep t ≡ some (a, b) → (t ≡ a ++ (sep ∷ b)) × (has sep a ≡ false)
  cut_first-some [] a b e = cc
  cut_first-some (d ∷ t) a b e = elim (Bool-cases (d == sep)) [
    | inl f ↦ ground (arith, (==_iff d sep))
    | inr f ↦ elim (Option-cases (cut_first sep t)) [
      | inl n ↦ ground arith
      | inr ((x, y), s) ↦ ground (arith, cut_first-some t x y s)
    ]
  ]

  pub cut_first-append :
      (a b : Text) → has sep a ≡ false → cut_first sep (a ++ (sep ∷ b)) ≡ some (a, b)
  cut_first-append [] b n = ground (arith, (==_iff sep sep))
  cut_first-append (d ∷ a) b n = ground (arith, cut_first-append a b)

onto_first-nonempty : (d : ℕ) (ps : List Text) → onto_first d ps ≢ []
onto_first-nonempty d [] e = cc
onto_first-nonempty d (p ∷ ps) e = cc

pub split_at-nonempty : (sep : ℕ) (t : Text) → split_at sep t ≢ []
split_at-nonempty sep [] = λ e. cc
split_at-nonempty sep (c ∷ t) =
    if_both (λ ps. ps ≢ []) (c == sep) (λ e. cc) (onto_first-nonempty c (split_at sep t))

onto_first-lacks :
    (sep c : ℕ) (ps : List Text)
    → (c == sep) ≡ false
    → all (lacks sep) ps ≡ true
    → all (lacks sep) (onto_first c ps) ≡ true
onto_first-lacks sep c [] n h = ground arith
onto_first-lacks sep c (p ∷ ps) n h = ground arith

-- No piece holds the separator.
pub split_at-lacks : (sep : ℕ) (t : Text) → all (lacks sep) (split_at sep t) ≡ true
split_at-lacks sep [] = refl
split_at-lacks sep (c ∷ t) = elim (Bool-cases (c == sep)) [
  | inl e ↦ rw (e) (split_at-lacks sep t)
  | inr e ↦ rw (e) (onto_first-lacks sep c (split_at sep t) e (split_at-lacks sep t))
]
