-- ===== src/Alert/Label/Laws.antt =====
-- What a labelled notification carries, and that the caller's labels stay as they were.
use portwatch.Base.{
  ℕ, ◌≡◌, ◌≢◌, ◌++◌, refl, sym, ◌∙◌, Text, text_beq, text_eq, text_beq_iff, ◌==◌, lookup,
  lookup-insert, [], ◌∷◌, Option, none, some, arith, length, get_or, get_or-append_here,
  if◌then◌else◌, same_refl, Distinct, set-append_here, ◌⊎◌, inl, inr, Bool-cases,
}
use portwatch.Alert.Metadata.{
  Labels, Store, Labelled, merge, lookup-merge, last_of-Distinct, contents, Forwarder, or_else,
}
use portwatch.Alert.Label.{Labeler, label_key, add_missing, add_all, apply, send}

append-cancel : (p a b : Text) → p ++ a ≡ p ++ b → a ≡ b
append-cancel [] a b e = e
append-cancel (c ∷ p) a b e = ground (arith, append-cancel p a b, e)

label_key_lem : (p k : Text) → label_key p k ≡ p ++ k
unfolding text_beq
label_key_lem [] k = refl
label_key_lem (c ∷ p) k = refl

label_key_iff : (p a b : Text) → (label_key p a == label_key p b) ≡ (a == b)
label_key_iff p a b =
    ground
      (arith, text_beq_iff (label_key p a) (label_key p b), text_beq_iff a b, append-cancel p a b)

lookup-add_missing :
    (k key v : Text) (m : Labels)
    → lookup k (add_missing key v m) ≡ or_else (lookup k m) (if key == k then some v else none)
lookup-add_missing k key v m = ground (arith, lookup-insert key k v m, text_beq_iff key k)

-- Of a policy's labels, each is added under its prefixed key unless that key is there.
lookup-add_all :
    (p k : Text) (ls m : Labels)
    → lookup (label_key p k) (add_all p ls m) ≡ or_else (lookup (label_key p k) m) (lookup k ls)
unfolding add_all lookup
lookup-add_all p k [] m = ground arith
lookup-add_all p k (entry ∷ ls) m = ground (
  arith,
  lookup-add_all p k ls (add_missing (label_key p entry.0) entry.1 m),
  lookup-add_missing (label_key p k) (label_key p entry.0) entry.1 m,
  label_key_iff p entry.0 k,
)

-- A key that no policy label has under its prefix is left alone.
abbrev pub IsOwn : Text → Labels → Text → Type 0
IsOwn p ls j = (k : Text) × (p ++ k ≡ j) × (lookup k ls ≢ none)

lookup-first : (entry : Text × Text) (ls : Labels) → lookup entry.0 (entry ∷ ls) ≢ none
unfolding lookup
lookup-first entry ls = ground (arith, same_refl entry.0)

lookup-later :
    (k : Text) (entry : Text × Text) (ls : Labels)
    → lookup k ls ≢ none
    → lookup k (entry ∷ ls) ≢ none
unfolding lookup
lookup-later k entry ls h = ground (arith, h)

lookup-add_all_other :
    (p j : Text) (ls m : Labels) → (lookup j (add_all p ls m) ≡ lookup j m) ⊎ IsOwn p ls j
unfolding add_all
lookup-add_all_other p j [] m = inl refl
lookup-add_all_other p j (entry ∷ ls) m = elim (Bool-cases (label_key p entry.0 == j)) [
  | inl here ↦ inr (
    entry.0,
    sym (label_key_lem p entry.0) ∙ (text_beq_iff (label_key p entry.0) j).0 here,
    lookup-first entry ls,
  )
  | inr elsewhere ↦
      elim (lookup-add_all_other p j ls (add_missing (label_key p entry.0) entry.1 m)) [
        | inl same ↦
            inl (
              ground (arith, same, lookup-add_missing j (label_key p entry.0) entry.1 m, elsewhere))
        | inr (k, e, h) ↦ inr (k, e, lookup-later k entry ls h)
      ]
]

-- A copy of a map reads as the map.
lookup-copy : (k : Text) (m : Labels) → Distinct m → lookup k (merge m []) ≡ lookup k m
unfolding lookup
lookup-copy k m h = ground (arith, lookup-merge k m [], last_of-Distinct k m h)

-- The labels that are handed on.
abbrev copied : Option ℕ → Store → Labels
copied none store = []
copied (some i) store = merge (get_or store i []) []

lookup-copied :
    (k : Text) (labels : Option ℕ) (store : Store)
    → Distinct (contents labels store)
    → lookup k (copied labels store) ≡ lookup k (contents labels store)
lookup-copied k none store h = refl
lookup-copied k (some i) store h = lookup-copy k (get_or store i []) h

module _ {W : Type 0} (labeler : Labeler) (next : Forwarder W) where
  send-copied :
      (n : Labelled) (labels : Option ℕ) (store : Store) (w : W)
      → n.labels ≡ labels
      → send labeler next n store w
        ≡ next
            (record n { labels = some (length store) })
            (store ++ add_all labeler.prefix labeler.labels (copied labels store) ∷ [])
            w
  unfolding send apply
  send-copied n none store w e = rw (e, get_or-append_here store [] [], set-append_here store) refl
  send-copied n (some i) store w e =
      rw (e, get_or-append_here store (merge (get_or store i []) []) [], set-append_here store) refl

  -- What a labelling sender hands on is the notification with a new map of labels, and no map that
  -- was there before has changed, the caller's least of all. In the new map a label of the caller
  -- stands first, then the policy's own under its prefixed key; every other key reads as before.
  pub send-add_all :
      (n : Labelled) (store : Store) (w : W) (k j : Text)
      → Distinct (contents n.labels store)
      → (m : Labels) × (send labeler next n store w
          ≡ next (record n { labels = some (length store) }) (store ++ m ∷ []) w)
        × (lookup (labeler.prefix ++ k) m
            ≡ or_else
                (lookup (labeler.prefix ++ k) (contents n.labels store))
                (lookup k labeler.labels))
        × ((lookup j m ≡ lookup j (contents n.labels store))
            ⊎ IsOwn labeler.prefix labeler.labels j)
  send-add_all n store w k j h =
      let old = copied n.labels store in
      (
        add_all labeler.prefix labeler.labels old,
        send-copied n n.labels store w refl,
        ground (
          arith,
          label_key_lem labeler.prefix k,
          lookup-add_all labeler.prefix k labeler.labels old,
          lookup-copied (label_key labeler.prefix k) n.labels store h,
        ),
        ground (
          arith,
          lookup-add_all_other labeler.prefix j labeler.labels old,
          lookup-copied j n.labels store h,
        ),
      )
