-- ===== src/Base/Maps.antt =====
-- Maps keyed by text as association lists: `BTreeMap` in key order, and membership.
use mathlib.Core.Path.{◌≡◌, refl}
use mathlib.Core.Logic.{◌⊎◌, inl, inr}
use mathlib.Core.List.{List, [], ◌∷◌, ◌++◌}
use mathlib.Core.Option.{Option, none, some}
use native.Mathlib.Omega.{arith}
use node_agent_rs.Base.Tests.{if◌then◌else◌}
use node_agent_rs.Base.Strings.{Text, text_eq, text_eq_iff, text_le}

module _ {ℓ} {V : Type ℓ} where
  -- `get`
  unfoldable pub lookup : Text → List (Text × V) → Option V
  lookup k [] = none
  lookup k ((j, v) ∷ m) = if text_eq j k then some v else lookup k m

  -- `BTreeMap::insert`
  unfoldable pub tree_insert : Text → V → List (Text × V) → List (Text × V)
  tree_insert k v [] = (k, v) ∷ []
  tree_insert k v ((j, w) ∷ m) =
      if text_eq j k
      then (k, v) ∷ m
      else if text_le k j
      then (k, v) ∷ (j, w) ∷ m
      else (j, w) ∷ tree_insert k v m

  pub lookup-tree_insert :
      (k j : Text) (v : V) (m : List (Text × V))
      → lookup j (tree_insert k v m) ≡ (if text_eq k j then some v else lookup j m)
  unfolding lookup tree_insert
  lookup-tree_insert k j v [] = refl
  lookup-tree_insert k j v ((i, w) ∷ m) =
      ground (arith, text_eq_iff k j, text_eq_iff i k, text_eq_iff i j, lookup-tree_insert k j v m)

  -- `HashMap::remove`
  unfoldable pub remove : Text → List (Text × V) → List (Text × V)
  remove key [] = []
  remove key ((k, v) ∷ m) = let rest = remove key m in if text_eq k key then rest else (k, v) ∷ rest

  -- `HashMap::insert`; the order of the entries stands for none.
  unfoldable pub insert : Text → V → List (Text × V) → List (Text × V)
  unfolding remove
  insert key v m = (key, v) ∷ remove key m

  pub lookup-remove :
      (k j : Text) (m : List (Text × V))
      → lookup k (remove j m) ≡ (if text_eq j k then none else lookup k m)
  unfolding lookup remove
  lookup-remove k j [] = ground arith
  lookup-remove k j ((i, v) ∷ m) =
      ground (arith, text_eq_iff j k, text_eq_iff i j, text_eq_iff i k, lookup-remove k j m)

  pub lookup-insert :
      (j k : Text) (v : V) (m : List (Text × V))
      → lookup j (insert k v m) ≡ (if text_eq k j then some v else lookup j m)
  unfolding lookup insert
  lookup-insert j k v m = ground (arith, lookup-remove j k m)

-- The list holds the item.
abbrev pub Has : {A : Type 0} → A → List A → Type 0
Has a [] = ⊥
Has a (x ∷ xs) = (a ≡ x) ⊎ Has a xs

pub Has-append_last : {A : Type 0} (a : A) (xs : List A) → Has a (xs ++ a ∷ [])
Has-append_last a [] = inl refl
Has-append_last a (x ∷ xs) = inr (Has-append_last a xs)

pub Has-append_left : {A : Type 0} (a : A) (xs ys : List A) → Has a xs → Has a (xs ++ ys)
Has-append_left a [] ys h = elim h [ ]
Has-append_left a (x ∷ xs) ys (inl e) = inl e
Has-append_left a (x ∷ xs) ys (inr h) = inr (Has-append_left a xs ys h)
