-- ===== src/Alert/Enrich/Laws.antt =====
-- What an enriched notification carries, and whose labels it changes.
use portwatch.Base.{
  ℕ, ◌≡◌, ◌<◌, refl, Text, text_eq, ◌==◌, lookup, lookup-insert, [], Option, none, some, arith,
  length, get_or, get_or-append_here, set-append_here, get_or-set_self, if◌then◌else◌,
}
use portwatch.Alert.Metadata.{Labels, Store, Labelled, contents, lookup-merge, or_else, last_of}
use portwatch.Alert.Enrich.{Enricher, insert_named, enrich_labels, enrich}

-- What a named label gives a key.
abbrev pub named : Text → Text → Text → Option Text
named key value k = if key == [] then none else if key == k then some value else none

lookup-insert_named :
    (key value k : Text) (m : Labels)
    → lookup k (insert_named key value m) ≡ or_else (named key value k) (lookup k m)
lookup-insert_named key value k m = ground (arith, lookup-insert key k value m)

lookup-enrich_labels :
    (e : Enricher) (now k : Text) (m : Labels)
    → lookup k (enrich_labels e now m)
      ≡ or_else (named e.policy.timestamp_label now k) (
          or_else
            (named e.policy.hostname_label e.hostname k)
            (or_else (last_of k e.policy.static_labels) (lookup k m)))
unfolding enrich_labels
lookup-enrich_labels e now k m = rw (lookup-insert_named, lookup-insert_named, lookup-merge) refl

-- The reference that an enriched notification holds.
abbrev pub target : Option ℕ → Store → ℕ
target none store = length store
target (some i) store = i

abbrev pub InStore : Option ℕ → Store → Type 0
InStore none store = Unit {0}
InStore (some i) store = i < length store

enriched :
    (e : Enricher) (now : Text) (n : Labelled) (labels : Option ℕ) (store : Store)
    → n.labels ≡ labels
    → InStore labels store
    → ((enrich e now n store).0 ≡ record n { labels = some (target labels store) })
      × (get_or (enrich e now n store).1 (target labels store) []
          ≡ enrich_labels e now (contents labels store))
unfolding enrich
enriched e now n none store q h =
    rw (q, set-append_here store, get_or-append_here store [] [])
      (refl, get_or-append_here store (enrich_labels e now []) [])
enriched e now n (some i) store q h =
    rw q (refl, get_or-set_self store i (enrich_labels e now (get_or store i [])) [] h)

-- An enriched notification is the notification with labels in which the time comes first, if its
-- label has a name, then the host under the same condition, then the last of the static labels of a
-- key, and only then what the caller had. The caller's own map is the one that is changed, unless it
-- is nil: whoever else holds it sees the new labels.
pub enrich_lem :
    (e : Enricher) (now k : Text) (n : Labelled) (store : Store)
    → InStore n.labels store
    → ((enrich e now n store).0 ≡ record n { labels = some (target n.labels store) })
      × (lookup k (get_or (enrich e now n store).1 (target n.labels store) [])
          ≡ or_else (named e.policy.timestamp_label now k) (
              or_else
                (named e.policy.hostname_label e.hostname k)
                (or_else (last_of k e.policy.static_labels) (lookup k (contents n.labels store)))))
enrich_lem e now k n store h =
    let f = enriched e now n n.labels store refl h in
    (f.0, rw f.1 (lookup-enrich_labels e now k (contents n.labels store)))
