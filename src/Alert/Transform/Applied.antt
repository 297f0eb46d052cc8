-- ===== src/Alert/Transform/Applied.antt =====
-- Where the labels of a transformed notification are, and what they are.
use portwatch.Base.{
  ℕ, ◌≡◌, ◌<◌, ◌++◌, refl, ℤ, ◌∙◌, ap, Text, text_eq, ◌==◌, lookup, [], ◌∷◌, Option, none, some,
  Bool, true, false, ◌&&◌, arith, length, get_or, get_or-append_here, get_or-set_self,
  length-append, length-set, if◌then◌else◌, Bool-cases, inl, inr,
}
use portwatch.Alert.Metadata.{
  Labels, Store, Labelled, contents, merge, lookup-merge, or_else, last_of, update_map,
}
use portwatch.Alert.Enrich.Laws.{InStore}
use portwatch.Alert.Transform.{
  TransformPolicy, apply, titled, add_labels, strip, strip_all, sensitive,
}
use portwatch.Alert.Transform.Stripping.{folds_to_one, lookup-strip_all}

titled-labels :
    (format_time : ℤ → Text) (p : TransformPolicy) (n : Labelled)
    → (titled format_time p n).labels ≡ n.labels
titled-labels format_time p n = elim (Bool-cases (p.title_template == [])) [
  | inl e ↦ rw e refl
  | inr e ↦ rw e refl
]

module _ (equal_fold : Text → Text → Bool) where
  -- What becomes of the value of a key.
  abbrev pub stripped : Bool → Text → Option Text → Option Text
  stripped flag k v = if flag && folds_to_one equal_fold sensitive k then none else v

  lookup-strip :
      (flag : Bool) (k : Text) (i : ℕ) (store : Store)
      → i < length store
      → lookup k (get_or (strip equal_fold flag (some i) store) i [])
        ≡ stripped flag k (lookup k (get_or store i []))
  lookup-strip false k i store h = refl
  lookup-strip true k i store h =
      rw (get_or-set_self store i (strip_all equal_fold sensitive (get_or store i [])) [] h)
        (lookup-strip_all equal_fold sensitive k (get_or store i []))

  stripped-none : (flag : Bool) (k : Text) → stripped flag k none ≡ none
  stripped-none flag k = ground arith

  strip-none : (flag : Bool) (store : Store) → strip equal_fold flag none store ≡ store
  strip-none true store = refl
  strip-none false store = refl

  lookup-merged :
      (extra : Labels) (flag : Bool) (k : Text) (i : ℕ) (store : Store)
      → i < length store
      → lookup k (get_or (strip equal_fold flag (some i) (update_map i (merge extra) store)) i [])
        ≡ stripped flag k (or_else (last_of k extra) (lookup k (get_or store i [])))
  lookup-merged extra flag k i store h =
      lookup-strip flag k i (update_map i (merge extra) store)
        (omega (arith, h, length-set store i (merge extra (get_or store i []))))
      ∙ ap (stripped flag k) (
          rw (get_or-set_self store i (merge extra (get_or store i [])) [] h)
            (lookup-merge k extra (get_or store i [])))

  lookup-add_labels :
      (extra : Labels) (flag : Bool) (k : Text) (n : Labelled) (labels : Option ℕ) (store : Store)
      → n.labels ≡ labels
      → InStore labels store
      → let (n', store') = add_labels extra n store in
        lookup k (contents n'.labels (strip equal_fold flag n'.labels store'))
        ≡ stripped flag k (or_else (last_of k extra) (lookup k (contents labels store)))
  unfolding last_of lookup
  lookup-add_labels [] flag k n none store q h = rw q (ground (arith, stripped-none flag k))
  lookup-add_labels [] flag k n (some i) store q h = rw q (lookup-strip flag k i store h)
  lookup-add_labels (entry ∷ extra) flag k n none store q h = rw q (
      lookup-merged (entry ∷ extra) flag k (length store) (store ++ [] ∷ [])
        (omega (arith, length-append store ([] ∷ [])))
      ∙ rw (get_or-append_here store [] []) refl)
  lookup-add_labels (entry ∷ extra) flag k n (some i) store q h =
      rw q (lookup-merged (entry ∷ extra) flag k i store h)

  -- Of a transformed notification, a label whose key is one of the sensitive ones in any case is gone
  -- if the policy strips them, wherever it came from; any other key has the last value that the
  -- policy adds for it, and without one the value it had.
  pub lookup-apply :
      (format_time : ℤ → Text) (p : TransformPolicy) (k : Text) (n : Labelled) (store : Store)
      → InStore n.labels store
      → let (n', store') = apply format_time equal_fold p n store in
        lookup k (contents n'.labels store')
        ≡ stripped p.strip_sensitive_headers k
            (or_else (last_of k p.add_labels) (lookup k (contents n.labels store)))
  unfolding apply
  lookup-apply format_time p k n store h =
      lookup-add_labels p.add_labels p.strip_sensitive_headers k (titled format_time p n) n.labels
        store (titled-labels format_time p n) h
