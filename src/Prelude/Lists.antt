-- ===== src/Prelude/Lists.antt =====
-- Lists measured by native numbers, filtered by Boolean tests, and predicates on their members.
use Prim.Native.Nat.{ℕ, suc, ◌+◌, ◌≤◌}
use mathlib.Core.Path.{◌≡◌, refl, sym, subst}
use mathlib.Core.Logic.{◌⊎◌, inl, inr}
use mathlib.Core.Bool.{Bool, true, false, ◌&&◌, ◌||◌}
use mathlib.Core.Option.{Option, none, some}
use mathlib.Core.List.{List, [], ◌∷◌, ◌++◌}
use native.Mathlib.Omega.{arith}
use katacomb_vpn.Prelude.Tests.{if◌then◌else◌}

module _ {ℓ} {A : Type ℓ} where
  abbrev pub length : List A → ℕ
  length [] = 0
  length (x ∷ xs) = suc (length xs)

  -- `Array.prototype.filter`.
  abbrev pub filter : (A → Bool) → List A → List A
  filter p [] = []
  filter p (x ∷ xs) = if p x then x ∷ filter p xs else filter p xs

  -- `Array.prototype.find`.
  abbrev pub find : (A → Bool) → List A → Option A
  find p [] = none
  find p (x ∷ xs) = if p x then some x else find p xs

  -- `Array.prototype.every` and `some`.
  abbrev pub all : (A → Bool) → List A → Bool
  all p [] = true
  all p (x ∷ xs) = p x && all p xs

  abbrev pub any : (A → Bool) → List A → Bool
  any p [] = false
  any p (x ∷ xs) = p x || any p xs

  length-append : (xs ys : List A) → length (xs ++ ys) ≡ length xs + length ys
  length-append [] ys = omega arith
  length-append (x ∷ xs) ys = omega (arith, length-append xs ys)

  pub length-filter : (p : A → Bool) (xs : List A) → length (filter p xs) ≤ length xs
  length-filter p [] = omega arith
  length-filter p (x ∷ xs) = ground (arith, length-filter p xs)

-- Every member of a list has a property.
abbrev pub All {ℓ κ} : {A : Type ℓ} → (A → Type κ) → List A → Type κ
All P [] = Unit
All P (x ∷ xs) = P x × All P xs

-- A value stands in a list.
abbrev pub Mem : {A : Type 0} → A → List A → Type 0
Mem x [] = ⊥
Mem x (y ∷ ys) = (x ≡ y) ⊎ Mem x ys

module _ {κ} {A : Type 0} (P : A → Type κ) where
  pub All-mem : {x : A} (xs : List A) → All P xs → Mem x xs → P x
  All-mem [] h m = absurd m
  All-mem (y ∷ ys) (p, h) (inl e) = subst P (sym e) p
  All-mem (y ∷ ys) (p, h) (inr m) = All-mem ys h m

  pub All-of-mem : (xs : List A) → ((x : A) → Mem x xs → P x) → All P xs
  All-of-mem [] h = tt
  All-of-mem (y ∷ ys) h = (h y (inl refl), All-of-mem ys (λ x m. h x (inr m)))

module _ {A : Type 0} (p : A → Bool) where
  pub mem-of-filter : {x : A} (xs : List A) → Mem x (filter p xs) → Mem x xs × (p x ≡ true)
  mem-of-filter [] m = absurd m
  mem-of-filter {x} (y ∷ ys) m = ground (arith, mem-of-filter {x = x} ys)

  pub mem-filter : {x : A} (xs : List A) → Mem x xs → p x ≡ true → Mem x (filter p xs)
  mem-filter [] m h = absurd m
  mem-filter {x} (y ∷ ys) m h = ground (arith, mem-filter {x = x} ys)

  pub mem-of-find : {x : A} (xs : List A) → find p xs ≡ some x → Mem x xs × (p x ≡ true)
  mem-of-find [] e = cc
  mem-of-find {x} (y ∷ ys) e = ground (arith, mem-of-find {x = x} ys)

  pub find-none : {x : A} (xs : List A) → find p xs ≡ none → Mem x xs → p x ≡ false
  find-none [] e m = absurd m
  find-none {x} (y ∷ ys) e m = ground (arith, find-none {x = x} ys)
