-- ===== src/Prelude/Sort.antt =====
-- `Array.prototype.sort`, which is stable: insertion sort by a Boolean order, and its laws.
use mathlib.Core.Path.{◌≡◌, sym, subst}
use mathlib.Core.Logic.{◌⊎◌, inl, inr}
use mathlib.Core.Bool.{Bool, true, false}
use mathlib.Core.Option.{Option, none, some}
use mathlib.Core.List.{List, [], ◌∷◌}
use native.Mathlib.Omega.{arith}
use katacomb_vpn.Prelude.Tests.{if◌then◌else◌, Bool-cases}
use katacomb_vpn.Prelude.Lists.{All, Mem, All-of-mem, All-mem}

module _ {A : Type 0} (le : A → A → Bool) where
  -- An element goes before those that it is not greater than, so equal ones keep their order.
  abbrev insert_sorted : A → List A → List A
  insert_sorted x [] = x ∷ []
  insert_sorted x (y ∷ ys) = if le x y then x ∷ y ∷ ys else y ∷ insert_sorted x ys

  abbrev pub sort : List A → List A
  sort [] = []
  sort (x ∷ xs) = insert_sorted x (sort xs)

  abbrev pub IsSorted : List A → Type 0
  IsSorted [] = Unit
  IsSorted (x ∷ xs) = All (λ y. le x y ≡ true) xs × IsSorted xs

  mem-insert_sorted : (a x : A) (xs : List A) → (a ≡ x) ⊎ Mem a xs → Mem a (insert_sorted x xs)
  mem-insert_sorted a x [] h = h
  mem-insert_sorted a x (y ∷ ys) h = ground (arith, mem-insert_sorted a x ys)

  mem-of-insert_sorted : (a x : A) (xs : List A) → Mem a (insert_sorted x xs) → (a ≡ x) ⊎ Mem a xs
  mem-of-insert_sorted a x [] m = m
  mem-of-insert_sorted a x (y ∷ ys) m = ground (arith, mem-of-insert_sorted a x ys)

  pub mem-sort : (a : A) (xs : List A) → Mem a xs → Mem a (sort xs)
  mem-sort a [] m = m
  mem-sort a (x ∷ xs) (inl e) = mem-insert_sorted a x (sort xs) (inl e)
  mem-sort a (x ∷ xs) (inr m) = mem-insert_sorted a x (sort xs) (inr (mem-sort a xs m))

  pub mem-of-sort : (a : A) (xs : List A) → Mem a (sort xs) → Mem a xs
  mem-of-sort a [] m = m
  mem-of-sort a (x ∷ xs) m = ground (arith, mem-of-insert_sorted a x (sort xs) m, mem-of-sort a xs)

  module _ (total : (x y : A) → le x y ≡ false → le y x ≡ true)
      (trans : (x y z : A) → le x y ≡ true → le y z ≡ true → le x z ≡ true) where
    insert_sorted-IsSorted : (x : A) (xs : List A) → IsSorted xs → IsSorted (insert_sorted x xs)
    insert_sorted-IsSorted x [] h = (tt, tt)
    insert_sorted-IsSorted x (y ∷ ys) (h, s) = elim (Bool-cases (le x y)) [
      | inl e ↦ rw e ((e, All-of-mem _ ys (λ z m. trans x y z e (All-mem _ ys h m))), (h, s))
      | inr e ↦ rw e (All-of-mem _ (insert_sorted x ys) (above e), insert_sorted-IsSorted x ys s)
    ]
      where
        pick : (z : A) → le x y ≡ false → (z ≡ x) ⊎ Mem z ys → le y z ≡ true
        pick z e (inl same) = subst (λ w. le y w ≡ true) (sym same) (total x y e)
        pick z e (inr m) = All-mem _ ys h m

        above : le x y ≡ false → (z : A) → Mem z (insert_sorted x ys) → le y z ≡ true
        above e z m = pick z e (mem-of-insert_sorted z x ys m)

    pub sort-IsSorted : (xs : List A) → IsSorted (sort xs)
    sort-IsSorted [] = tt
    sort-IsSorted (x ∷ xs) = insert_sorted-IsSorted x (sort xs) (sort-IsSorted xs)

-- The first element, `list[0]`.
abbrev pub head? {ℓ} : {A : Type ℓ} → List A → Option A
head? [] = none
head? (x ∷ xs) = some x
