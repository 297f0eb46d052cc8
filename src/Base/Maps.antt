-- ===== src/Base/Maps.antt =====
-- Go maps as association lists. A read of a missing key is `none`, the `!ok` of `v, ok := m[k]`.
use mathlib.Core.Path.{◌≡◌, refl}
use mathlib.Core.Bool.{false}
use mathlib.Core.Option.{Option, none, some}
use mathlib.Core.List.{List, [], ◌∷◌}
use native.Mathlib.Omega.{arith}
use portwatch.Base.Tests.{Comparable, ◌==◌, if◌then◌else◌, same_refl}

abbrev pub Map {ℓ κ} : Type ℓ → Type κ → Type (ℓ ⊔ κ)
Map K V = List (K × V)

module _ {ℓ κ} {K : Type ℓ} {V : Type κ} ⦃e : Comparable K⦄ where
  -- The function with another value at `k`.
  abbrev pub stored : (K → V) → K → V → K → V
  stored m k v j = if k == j then v else m j

  unfoldable pub lookup : K → Map K V → Option V
  lookup k [] = none
  lookup k (entry ∷ m) = if entry.0 == k then some entry.1 else lookup k m

  -- `m[k] = v`: a key that is there keeps its place.
  unfoldable pub insert : K → V → Map K V → Map K V
  insert k v [] = (k, v) ∷ []
  insert k v (entry ∷ m) = if entry.0 == k then (k, v) ∷ m else entry ∷ insert k v m

  -- `delete(m, k)`
  unfoldable pub delete : K → Map K V → Map K V
  delete k [] = []
  delete k ((j, w) ∷ m) = if j == k then delete k m else (j, w) ∷ delete k m

  -- The value that the code reads where it ignores `ok`.
  abbrev pub lookup_or : K → V → Map K V → V
  lookup_or k d m = elim (lookup k m) [ none ↦ d | some v ↦ v ]

  pub lookup-insert :
      (key other : K) (value : V) (m : Map K V)
      → lookup other (insert key value m) ≡ (if key == other then some value else lookup other m)
  unfolding lookup insert
  lookup-insert key other value [] = refl
  lookup-insert key other value ((i, w) ∷ m) = ground (
    arith,
    lookup-insert key other value m,
    e.same_iff i other,
    e.same_iff i key,
    e.same_iff key other,
  )

  lookup-insert_self : (k : K) (v : V) (m : Map K V) → lookup k (insert k v m) ≡ some v
  lookup-insert_self k v m = ground (arith, lookup-insert k k v m, same_refl k)

  lookup-insert_ne :
      (k j : K) (v : V) (m : Map K V) → (k == j) ≡ false → lookup j (insert k v m) ≡ lookup j m
  lookup-insert_ne k j v m h = ground (arith, lookup-insert k j v m)

  pub lookup-delete :
      (k j : K) (m : Map K V) → lookup j (delete k m) ≡ (if k == j then none else lookup j m)
  unfolding lookup delete
  lookup-delete k j [] = ground arith
  lookup-delete k j ((i, w) ∷ m) =
      ground (arith, e.same_iff k j, e.same_iff i k, e.same_iff i j, lookup-delete k j m)

  -- No key stands twice, as in every Go map.
  abbrev pub Distinct : Map K V → Type κ
  Distinct [] = Unit
  Distinct ((k, v) ∷ m) = (lookup k m ≡ none) × Distinct m

  pub insert-Distinct : (k : K) (v : V) (m : Map K V) → Distinct m → Distinct (insert k v m)
  unfolding insert lookup
  insert-Distinct k v [] h = (refl, tt)
  insert-Distinct k v ((j, w) ∷ m) (fresh, h) =
      ground (arith, e.same_iff j k, e.same_iff k j, lookup-insert k j v m, insert-Distinct k v m h)

  pub delete-Distinct : (k : K) (m : Map K V) → Distinct m → Distinct (delete k m)
  unfolding delete lookup
  delete-Distinct k [] h = tt
  delete-Distinct k ((j, w) ∷ m) (fresh, h) =
      ground (arith, e.same_iff j k, e.same_iff k j, lookup-delete k j m, delete-Distinct k m h)
