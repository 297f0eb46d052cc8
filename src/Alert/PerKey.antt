-- ===== src/Alert/PerKey.antt =====
-- What the maps of package alert have in common: a call looks up its key, and stores under that key
-- what follows from what it found, or deletes it; each call answers.
use portwatch.Base.{
  Comparable, ◌==◌, Map, lookup, insert, delete, lookup-insert, lookup-delete, ◌≡◌, refl, List, [],
  ◌∷◌, Bool-cases, inl, inr, if◌then◌else◌, Option, none, some,
}

module _ {K V : Type 0} ⦃c : Comparable K⦄ where
  abbrev pub put : K → Option V → Map K V → Map K V
  put k none m = delete k m
  put k (some v) m = insert k v m

  lookup-put :
      (k j : K) (v : Option V) (m : Map K V)
      → lookup j (put k v m) ≡ (if k == j then v else lookup j m)
  lookup-put k j none m = lookup-delete k j m
  lookup-put k j (some v) m = lookup-insert k j v m

-- The answers of calls on one entry.
unfoldable pub answers :
    {V I O : Type 0} → (Option V → I → Option V × O) → Option V → List I → List O
answers step v [] = []
answers step v (i ∷ is) = (step v i).1 ∷ answers step (step v i).0 is

-- The calls with the key `k`.
abbrev pub inputs_for : {K I : Type 0} ⦃c : Comparable K⦄ → K → List (K × I) → List I
inputs_for k [] = []
inputs_for k (x ∷ calls) = let rest = inputs_for k calls in if x.0 == k then x.1 ∷ rest else rest

module _ {K V I O : Type 0} ⦃c : Comparable K⦄ (step : Option V → I → Option V × O) where
  abbrev visit : Map K V → K → I → Map K V × O
  visit m k i = (put k (step (lookup k m) i).0 m, (step (lookup k m) i).1)

  -- The answers to the calls with the key `k`, in order, among calls with any keys.
  unfoldable pub answers_for : K → Map K V → List (K × I) → List O
  answers_for k m [] = []
  answers_for k m (x ∷ calls) =
      let (m', o) = visit m x.0 x.1 in
      let rest = answers_for k m' calls in if x.0 == k then o ∷ rest else rest

  pub answers_for_lem :
      (k : K) (m : Map K V) (calls : List (K × I))
      → answers_for k m calls ≡ answers step (lookup k m) (inputs_for k calls)
  unfolding answers_for answers
  answers_for_lem k m [] = refl
  answers_for_lem k m (x ∷ calls) = elim (Bool-cases (x.0 == k)) [
    | inl mine ↦
        rw
          (
            mine,
            answers_for_lem k (visit m x.0 x.1).0 calls,
            lookup-put,
            mine,
            (c.same_iff x.0 k).0 mine,
          )
          refl
    | inr other ↦ rw (other, answers_for_lem k (visit m x.0 x.1).0 calls, lookup-put, other) refl
  ]
