-- ===== src/Base/GoMap.antt =====
-- A Go map with string keys, as the list of its entries. The order of the list stands for the
-- order in which a `range` loop would meet the entries.
use mathlib.Core.Path.{◌≡◌, refl, sym}
use mathlib.Core.List.{List, [], ◌∷◌, Memᴰ}
use mathlib.Core.Option.{Option, none, some, some-injective}
use mathlib.Core.Logic.{inl, inr}
use native.Mathlib.Omega.{arith}
use msgscript.Base.Tests.{if◌then◌else◌, Bool-cases}
use msgscript.Base.ByteString.{Bytes, equal, equal_iff, equal_refl}

abbrev pub GoMap {ℓ} : Type ℓ → Type ℓ
GoMap V = List (Bytes × V)

module _ {ℓ} {V : Type ℓ} where
  abbrev pub empty : GoMap V
  empty = []

  -- `v, ok := m[k]`
  unfoldable pub lookup : Bytes → GoMap V → Option V
  lookup k [] = none
  lookup k ((j, v) ∷ m) = if equal j k then some v else lookup k m

  -- `m[k] = v`
  unfoldable pub insert : Bytes → V → GoMap V → GoMap V
  insert k v [] = (k, v) ∷ []
  insert k v ((j, w) ∷ m) = if equal j k then (k, v) ∷ m else (j, w) ∷ insert k v m

  -- `delete(m, k)`
  unfoldable pub delete : Bytes → GoMap V → GoMap V
  delete k [] = []
  delete k ((j, w) ∷ m) = let rest = delete k m in if equal j k then rest else (j, w) ∷ rest

  -- the keys, in the order of a `range` loop
  unfoldable pub keys : GoMap V → List Bytes
  keys [] = []
  keys ((k, v) ∷ m) = k ∷ keys m

  -- the values, in that order
  abbrev pub values : GoMap V → List V
  values [] = []
  values ((k, v) ∷ m) = v ∷ values m

  pub lookup-insert :
      (k j : Bytes) (v : V) (m : GoMap V)
      → lookup j (insert k v m) ≡ (if equal k j then some v else lookup j m)
  unfolding lookup insert
  lookup-insert k j v [] = refl
  lookup-insert k j v ((i, w) ∷ m) =
      ground (arith, equal_iff k j, equal_iff i k, equal_iff i j, lookup-insert k j v m)

  pub lookup-delete :
      (k j : Bytes) (m : GoMap V) → lookup j (delete k m) ≡ (if equal k j then none else lookup j m)
  unfolding lookup delete
  lookup-delete k j [] = ground arith
  lookup-delete k j ((i, w) ∷ m) =
      ground (arith, equal_iff k j, equal_iff i k, equal_iff i j, lookup-delete k j m)

  pub lookup-insert_self : (k : Bytes) (v : V) (m : GoMap V) → lookup k (insert k v m) ≡ some v
  lookup-insert_self k v m = simp (lookup-insert, equal_refl)

  pub lookup-delete_self : (k : Bytes) (m : GoMap V) → lookup k (delete k m) ≡ none
  lookup-delete_self k m = simp (lookup-delete, equal_refl)

  pub lookup-nil : (k : Bytes) → lookup k [] ≡ none
  unfolding lookup
  lookup-nil k = refl

pub Memᴰ-values {ℓ} :
    {V : Type ℓ} (k : Bytes) (m : GoMap V) {v : V} → lookup k m ≡ some v → Memᴰ v (values m)
unfolding lookup
Memᴰ-values k [] h = cc
Memᴰ-values k ((j, w) ∷ m) h = elim (Bool-cases (equal j k)) [
  | inl same ↦ Memᴰ.head (sym (some-injective w _ (rw same at h)))
  | inr other ↦ Memᴰ.tail (Memᴰ-values k m (rw other at h))
]

-- No key stands twice.
abbrev pub Distinct {ℓ} : {V : Type ℓ} → GoMap V → Type ℓ
Distinct [] = Unit
Distinct ((k, v) ∷ m) = (lookup k m ≡ none) × Distinct m

pub insert-Distinct {ℓ} :
    {V : Type ℓ} (k : Bytes) (v : V) (m : GoMap V) → Distinct m → Distinct (insert k v m)
unfolding insert lookup
insert-Distinct k v [] d = (refl, tt)
insert-Distinct k v ((j, w) ∷ m) d =
    ground (arith, insert-Distinct k v m d.1, lookup-insert k j v m, equal_iff j k, equal_iff k j)

pub ruleset map_laws = (lookup-insert, lookup-delete, lookup-nil, equal_refl)
