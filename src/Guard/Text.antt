-- ===== src/Guard/Text.antt =====
-- Texts as lists of character codes, with what src/main/config-guard.ts uses of the language's
-- operations on them.
pub mod Trimming
pub mod Pieces
pub mod Cuts
use Prim.Native.String.{String}
use Prim.Native.Char.{code}
use katacomb_vpn.Prelude.{
  ℕ, ◌+◌, ◌-◌, ◌*◌, ◌≡◌, refl, subst, inl, inr, Bool, true, false, not, ◌&&◌, ◌||◌, Option, none,
  some, List, [], ◌∷◌, ◌++◌, map, arith, leb, ◌==◌, if◌then◌else◌, Bool-cases, length, any, all,
  Mem,
}

abbrev pub Text : Type 0
Text = List ℕ

abbrev pub codes : String → Text
codes String.[] = []
codes (String.◌∷◌ c s) = code c ∷ codes s

abbrev pub is_empty : Text → Bool
is_empty [] = true
is_empty (_ ∷ _) = false

abbrev pub same_text : Text → Text → Bool
same_text [] [] = true
same_text [] (_ ∷ _) = false
same_text (_ ∷ _) [] = false
same_text (x ∷ xs) (y ∷ ys) = (x == y) && same_text xs ys

-- `Set.prototype.has`, and `===` with one of several words.
abbrev pub one_of : Text → List Text → Bool
one_of t ws = any (same_text t) ws

abbrev pub between : ℕ → ℕ → ℕ → Bool
between a b c = leb a c && leb c b

-- The white space and the line terminators, which `trim` takes off.
abbrev pub is_space : ℕ → Bool
is_space c =
    between 9 13 c
    || (c == 32)
    || (c == 160)
    || (c == 5760)
    || between 8192 8202 c
    || (c == 8232)
    || (c == 8233)
    || (c == 8239)
    || (c == 8287)
    || (c == 12288)
    || (c == 65279)

abbrev pub trim_start : Text → Text
trim_start [] = []
trim_start (c ∷ t) = if is_space c then trim_start t else c ∷ t

-- A character before a text that `trim_end` has trimmed.
abbrev pub before_trimmed : ℕ → Text → Text
before_trimmed c [] = if is_space c then [] else c ∷ []
before_trimmed c (d ∷ t) = c ∷ d ∷ t

abbrev pub trim_end : Text → Text
trim_end [] = []
trim_end (c ∷ t) = before_trimmed c (trim_end t)

-- `String.prototype.trim`.
abbrev pub trim : Text → Text
trim t = trim_end (trim_start t)

-- `toLowerCase`, as far as a comparison with words in ASCII can tell: the Kelvin sign is the only
-- other character whose lower case is one of ASCII's letters alone.
abbrev to_lower_code : ℕ → ℕ
to_lower_code c = if between 65 90 c then c + 32 else if c == 8490 then 107 else c

abbrev pub to_lower : Text → Text
to_lower t = map to_lower_code t

-- The first piece of a text with a character before it.
abbrev pub onto_first : ℕ → List Text → List Text
onto_first c [] = (c ∷ []) ∷ []
onto_first c (p ∷ ps) = (c ∷ p) ∷ ps

-- `split` at one character.
abbrev pub split_at : ℕ → Text → List Text
split_at sep [] = [] ∷ []
split_at sep (c ∷ t) =
    let rest = split_at sep t in if c == sep then [] ∷ rest else onto_first c rest

-- The two parts of a cut with a character before them.
abbrev pub onto_cut : ℕ → Option (Text × Text) → Option (Text × Text)
onto_cut c none = none
onto_cut c (some (a, b)) = some (c ∷ a, b)

-- `join` with one character.
abbrev pub join_with : ℕ → List Text → Text
join_with sep [] = []
join_with sep (p ∷ []) = p
join_with sep (p ∷ q ∷ ps) = p ++ (sep ∷ join_with sep (q ∷ ps))

-- What stands before and behind the first of a character: `indexOf` and the two `slice`.
abbrev pub cut_first : ℕ → Text → Option (Text × Text)
cut_first sep [] = none
cut_first sep (c ∷ t) =
    let rest = cut_first sep t in if c == sep then some ([], t) else onto_cut c rest

-- The same at the last of a character: `lastIndexOf`.
abbrev pub cut_last : ℕ → Text → Option (Text × Text)
cut_last sep [] = none
cut_last sep (c ∷ t) = elim (cut_last sep t) [
  | some (a, b) ↦ some (c ∷ a, b)
  | none ↦ if c == sep then some ([], t) else none
]

abbrev pub starts_with : ℕ → Text → Bool
starts_with c [] = false
starts_with c (d ∷ _) = d == c

-- The rest of a text that starts with a word.
abbrev pub strip_prefix : Text → Text → Option Text
strip_prefix [] t = some t
strip_prefix (_ ∷ _) [] = none
strip_prefix (w ∷ ws) (c ∷ t) = let rest = strip_prefix ws t in if w == c then rest else none

-- A text without one optional character at its front.
abbrev pub drop_optional : ℕ → Text → Text
drop_optional c [] = []
drop_optional c (d ∷ t) = if d == c then t else d ∷ t

-- The longest front whose characters pass a test, and the rest.
abbrev pub span : (ℕ → Bool) → Text → Text × Text
span p [] = ([], [])
span p (c ∷ t) = let (run, rest) = span p t in if p c then (c ∷ run, rest) else ([], c ∷ t)

abbrev pub is_digit : ℕ → Bool
is_digit c = between 48 57 c

abbrev pub is_letter : ℕ → Bool
is_letter c = between 65 90 c || between 97 122 c

abbrev pub is_hex : ℕ → Bool
is_hex c = is_digit c || between 65 70 c || between 97 102 c

-- `\d{1,n}`.
abbrev pub is_number : ℕ → Text → Bool
is_number n t = not (is_empty t) && leb (length t) n && all is_digit t

-- `Number` of a text of digits.
abbrev value_from : ℕ → Text → ℕ
value_from n [] = n
value_from n (c ∷ t) = value_from (n * 10 + (c - 48)) t

abbrev pub value_of : Text → ℕ
value_of t = value_from 0 t

pub same_text→≡ : (a b : Text) → same_text a b ≡ true → a ≡ b
same_text→≡ [] [] h = refl
same_text→≡ [] (_ ∷ _) h = cc
same_text→≡ (_ ∷ _) [] h = cc
same_text→≡ (x ∷ xs) (y ∷ ys) h = ground (arith, same_text→≡ xs ys)

pub one_of→Mem : (t : Text) (ws : List Text) → one_of t ws ≡ true → Mem t ws
one_of→Mem t [] h = cc
one_of→Mem t (w ∷ ws) h = elim (Bool-cases (same_text t w)) [
  | inl e ↦ inl (same_text→≡ t w e)
  | inr e ↦ inr (one_of→Mem t ws (subst (λ b. (b || one_of t ws) ≡ true) e h))
]

pub one_of-append : (t : Text) (ws vs : List Text) → one_of t ws ≡ true → one_of t (ws ++ vs) ≡ true
one_of-append t [] vs h = cc
one_of-append t (w ∷ ws) vs h = ground (arith, one_of-append t ws vs)
