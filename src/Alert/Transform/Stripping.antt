-- ===== src/Alert/Transform/Stripping.antt =====
-- The labels after a transformation.
use portwatch.Base.{
  ◌≡◌, refl, Text, text_eq, text_beq_iff, lookup, delete, lookup-delete, List, [], ◌∷◌, none, some,
  Bool, any, arith, if◌then◌else◌,
}
use portwatch.Alert.Metadata.{Labels}
use portwatch.Alert.Transform.{strip_key, strip_all}

module _ (equal_fold : Text → Text → Bool) where
  -- Keys that stand among the entries and fold to the key are gone, the others are left.
  lookup-strip_key :
      (key k : Text) (entries m : Labels)
      → lookup k (strip_key equal_fold key entries m) ≡ (
          if equal_fold k key
          then elim (lookup k entries) [ none ↦ lookup k m | some v ↦ none ]
          else lookup k m)
  unfolding strip_key lookup
  lookup-strip_key key k [] m = ground arith
  lookup-strip_key key k (entry ∷ entries) m = ground (
    arith,
    lookup-strip_key key k entries m,
    lookup-strip_key key k entries (delete entry.0 m),
    lookup-delete entry.0 k m,
    text_beq_iff entry.0 k,
  )

  abbrev pub folds_to_one : List Text → Text → Bool
  folds_to_one keys k = any (λ key. equal_fold k key) keys

  -- Stripping removes exactly the labels whose key is one of the sensitive ones, in whatever case it
  -- is written; all others read as before.
  pub lookup-strip_all :
      (keys : List Text) (k : Text) (m : Labels)
      → lookup k (strip_all equal_fold keys m) ≡ (if folds_to_one keys k then none else lookup k m)
  unfolding strip_all
  lookup-strip_all [] k m = refl
  lookup-strip_all (key ∷ keys) k m =
      ground
        (arith, lookup-strip_all keys k (strip_key equal_fold key m m), lookup-strip_key key k m m)
