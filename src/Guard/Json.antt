-- ===== src/Guard/Json.antt =====
-- Values of JSON with what src/main/config-guard.ts does with them: a field is read, a copy of an
-- object gets a field, an array is walked.
use katacomb_vpn.Prelude.{
  [], ℕ, suc, ◌≡◌, refl, ap, subst, inl, inr, Bool, true, false, Option, none, some, List, ◌∷◌,
  arith, if◌then◌else◌, Bool-cases,
}
use katacomb_vpn.Guard.Text.{Text, same_text, same_text→≡}

mutual
  pub data Json : Type 0 where
    null : Json
    boolean : Bool → Json
    number : ℕ → Json
    text : Text → Json
    array : Items → Json
    object : Fields → Json

  pub data Items : Type 0 where
    no_item : Items
    item : Json → Items → Items

  pub data Fields : Type 0 where
    no_field : Fields
    field : Text → Json → Fields → Fields

abbrev to_list : Items → List Json
to_list no_item = []
to_list (item j is) = j ∷ to_list is

abbrev pub of_list : List Json → Items
of_list [] = no_item
of_list (j ∷ js) = item j (of_list js)

pub to_list-of_list : (js : List Json) → to_list (of_list js) ≡ js
to_list-of_list [] = refl
to_list-of_list (j ∷ js) = ap (λ is. j ∷ is) (to_list-of_list js)

-- The value of a field, `none` where it is undefined.
unfoldable pub lookup : Text → Fields → Option Json
lookup k no_field = none
lookup k (field j v fs) = if same_text k j then some v else lookup k fs

-- A copy of the fields in which one has a value: `{ ...fs, [k]: v }`.
unfoldable pub put : Text → Json → Fields → Fields
put k v no_field = field k v no_field
put k v (field j w fs) = if same_text k j then field j v fs else field j w (put k v fs)

same_text_refl : (t : Text) → same_text t t ≡ true
same_text_refl [] = refl
same_text_refl (c ∷ t) = ground (arith, same_text_refl t)

pub lookup-put_self : (k : Text) (v : Json) (fs : Fields) → lookup k (put k v fs) ≡ some v
unfolding lookup put
lookup-put_self k v no_field = rw (same_text_refl k) refl
lookup-put_self k v (field j w fs) = elim (Bool-cases (same_text k j)) [
  | inl e ↦ ground arith
  | inr e ↦ ground (arith, lookup-put_self k v fs)
]

apart : (k l j : Text) → same_text l k ≡ false → same_text k j ≡ true → same_text l j ≡ false
apart k l j n e = subst (λ x. same_text l x ≡ false) (same_text→≡ k j e) n

pub lookup-put_other :
    (k l : Text) (v : Json) (fs : Fields)
    → same_text l k ≡ false
    → lookup l (put k v fs) ≡ lookup l fs
unfolding lookup put
lookup-put_other k l v no_field n = rw (n) refl
lookup-put_other k l v (field j w fs) n = elim (Bool-cases (same_text k j)) [
  | inl e ↦ ground (arith, apart k l j n e)
  | inr e ↦ ground (arith, lookup-put_other k l v fs n)
]

-- The field of a value: only an object has the fields that the code asks for.
abbrev pub get : Text → Json → Option Json
get k (object fs) = lookup k fs
get k _ = none

-- An array that is a field, and the elements of one that may be missing.
abbrev pub as_array : Option Json → Option (List Json)
as_array (some (array is)) = some (to_list is)
as_array _ = none

abbrev pub as_text : Option Json → Option Text
as_text (some (text t)) = some t
as_text _ = none

abbrev pub elements : Option (List Json) → List Json
elements none = []
elements (some js) = js

module _ (index_key : ℕ → Text) where
  -- The copy of an array's elements as fields.
  abbrev indexed : ℕ → Items → Fields
  indexed n no_item = no_field
  indexed n (item j is) = field (index_key n) j (indexed (suc n) is)

  -- `{ ...j }`.
  abbrev pub spread : Json → Fields
  spread (object fs) = fs
  spread (array is) = indexed 0 is
  spread _ = no_field
