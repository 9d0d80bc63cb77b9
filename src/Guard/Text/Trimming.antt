-- ===== src/Guard/Text/Trimming.antt =====
-- Which characters `trim` of src/main/config-guard.ts takes away.
use katacomb_vpn.Prelude.{
  ℕ, ◌≡◌, refl, sym, ap, ◌∙◌, subst, inl, inr, Bool, true, false, not, ◌||◌, [], ◌∷◌, ◌++◌, arith,
  ◌==◌, if◌then◌else◌, ==_iff, Bool-cases, if_both, any,
}
use katacomb_vpn.Guard.Text.{trim_start, trim_end, before_trimmed, Text, is_space, trim}

-- Whether a character occurs.
abbrev pub has : ℕ → Text → Bool
has c t = any (λ d. d == c) t

module _ (c : ℕ) where
  pub has-append : (s t : Text) → has c (s ++ t) ≡ (has c s || has c t)
  has-append [] t = refl
  has-append (d ∷ s) t = ground (arith, has-append s t)

  other_than_space : (d : ℕ) → is_space d ≡ true → is_space c ≡ false → (d == c) ≡ false
  other_than_space d s n = elim (Bool-cases (d == c)) [
    | inl e ↦ absurd (cc (sym (subst (λ x. is_space x ≡ true) ((==_iff d c).0 e) s) ∙ n))
    | inr e ↦ e
  ]

  has-skipped :
      (b : Bool) (d : ℕ) (t : Text)
      → is_space d ≡ b
      → is_space c ≡ false
      → has c (trim_start t) ≡ has c t
      → has c (if b then trim_start t else d ∷ t) ≡ ((d == c) || has c t)
  has-skipped true d t s n ih = rw (other_than_space d s n) ih
  has-skipped false d t s n ih = refl

  has-trim_start : (t : Text) → is_space c ≡ false → has c (trim_start t) ≡ has c t
  has-trim_start [] n = refl
  has-trim_start (d ∷ t) n = has-skipped (is_space d) d t refl n (has-trim_start t n)

  has-last :
      (b : Bool) (d : ℕ)
      → is_space d ≡ b
      → is_space c ≡ false
      → has c (if b then [] else d ∷ []) ≡ ((d == c) || false)
  has-last true d s n = rw (other_than_space d s n) refl
  has-last false d s n = refl

  has-before_trimmed :
      (d : ℕ) (t : Text) → is_space c ≡ false → has c (before_trimmed d t) ≡ ((d == c) || has c t)
  has-before_trimmed d [] n = has-last (is_space d) d refl n
  has-before_trimmed d (e ∷ t) n = refl

  has-trim_end : (t : Text) → is_space c ≡ false → has c (trim_end t) ≡ has c t
  has-trim_end [] n = refl
  has-trim_end (d ∷ t) n =
      has-before_trimmed d (trim_end t) n ∙ ap (λ b. (d == c) || b) (has-trim_end t n)

  -- Trimming takes no character away but white space.
  pub has-trim : (t : Text) → is_space c ≡ false → has c (trim t) ≡ has c t
  has-trim t n = has-trim_end (trim_start t) n ∙ has-trim_start t n

-- A text that does not begin with white space.
abbrev pub starts_well : Text → Bool
starts_well [] = true
starts_well (c ∷ t) = not (is_space c)

starts_well-skipped :
    (b : Bool) (d : ℕ) (t : Text)
    → is_space d ≡ b
    → starts_well (trim_start t) ≡ true
    → starts_well (if b then trim_start t else d ∷ t) ≡ true
starts_well-skipped true d t e h = h
starts_well-skipped false d t e h = rw e refl

starts_well-trim_start : (t : Text) → starts_well (trim_start t) ≡ true
starts_well-trim_start [] = refl
starts_well-trim_start (d ∷ t) =
    starts_well-skipped (is_space d) d t refl (starts_well-trim_start t)

pub trim_start_well : (t : Text) → starts_well t ≡ true → trim_start t ≡ t
trim_start_well [] h = refl
trim_start_well (d ∷ t) h = kept (is_space d) d t h
  where
    kept :
        (b : Bool) (e : ℕ) (u : Text) → not b ≡ true → (if b then trim_start u else e ∷ u) ≡ e ∷ u
    kept true e u h = cc
    kept false e u h = refl

pub starts_well-before_trimmed :
    (d : ℕ) (t : Text) → is_space d ≡ false → starts_well (before_trimmed d t) ≡ true
starts_well-before_trimmed d [] n = rw (n) (rw (n) refl)
starts_well-before_trimmed d (e ∷ t) n = rw (n) refl

starts_well-trim_end : (t : Text) → starts_well t ≡ true → starts_well (trim_end t) ≡ true
starts_well-trim_end [] h = refl
starts_well-trim_end (d ∷ t) h = elim (Bool-cases (is_space d)) [
  | inl s ↦ absurd (cc (subst (λ b. not b ≡ true) s h))
  | inr n ↦ starts_well-before_trimmed d (trim_end t) n
]

last_kept :
    (b : Bool) (d : ℕ)
    → is_space d ≡ b
    → trim_end (if b then [] else d ∷ []) ≡ (if b then [] else d ∷ [])
last_kept true d s = refl
last_kept false d s = rw s refl

before_trimmed-kept :
    (d : ℕ) (t : Text) → trim_end t ≡ t → trim_end (before_trimmed d t) ≡ before_trimmed d t
before_trimmed-kept d [] h = last_kept (is_space d) d refl
before_trimmed-kept d (e ∷ t) h = ap (before_trimmed d) h

pub trim_end_idem : (t : Text) → trim_end (trim_end t) ≡ trim_end t
trim_end_idem [] = refl
trim_end_idem (d ∷ t) = before_trimmed-kept d (trim_end t) (trim_end_idem t)

pub trim_idem : (t : Text) → trim (trim t) ≡ trim t
trim_idem t =
    ap trim_end
      (trim_start_well (trim t) (starts_well-trim_end (trim_start t) (starts_well-trim_start t)))
    ∙ trim_end_idem (trim_start t)

-- What is trimmed away brings no character.
pub lacks-trim_start : (c : ℕ) (t : Text) → has c t ≡ false → has c (trim_start t) ≡ false
lacks-trim_start c [] h = h
lacks-trim_start c (d ∷ t) h =
    if_both (λ u. has c u ≡ false) (is_space d) (lacks-trim_start c t (tail_lacks (d == c) h)) h
  where
    tail_lacks : (b : Bool) {r : Bool} → (b || r) ≡ false → r ≡ false
    tail_lacks true e = cc
    tail_lacks false e = e

lacks-before_trimmed :
    (c d : ℕ) (t : Text) → has c (d ∷ t) ≡ false → has c (before_trimmed d t) ≡ false
lacks-before_trimmed c d [] h = if_both (λ u. has c u ≡ false) (is_space d) refl h
lacks-before_trimmed c d (e ∷ t) h = h

lacks-trim_end : (c : ℕ) (t : Text) → has c t ≡ false → has c (trim_end t) ≡ false
lacks-trim_end c [] h = h
lacks-trim_end c (d ∷ t) h =
    lacks-before_trimmed c d (trim_end t) (ground (arith, lacks-trim_end c t))

pub lacks-trim : (c : ℕ) (t : Text) → has c t ≡ false → has c (trim t) ≡ false
lacks-trim c t h = lacks-trim_end c (trim_start t) (lacks-trim_start c t h)

-- Trimming on one side first changes nothing.
pub trim-trim_start : (t : Text) → trim (trim_start t) ≡ trim t
trim-trim_start t = ap trim_end (trim_start_well (trim_start t) (starts_well-trim_start t))
