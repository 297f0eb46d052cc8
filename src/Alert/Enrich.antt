-- ===== src/Alert/Enrich.antt =====
-- internal/alert/enrich.go. The layout of a time as RFC 3339 in UTC is an argument. An association
-- list is iterated in its order.
pub mod Laws
use portwatch.Base.{
  ℤ, Text, text, text_eq, ◌==◌, insert, [], ◌∷◌, Option, none, some, if◌then◌else◌,
}
use portwatch.Alert.Notification.{Error, enriching, Clock}
use portwatch.Alert.Metadata.{
  Labels, Store, Labelled, ensured, update_map, merge, Forwarder, wrap_forwarder,
}

pub record EnrichPolicy : Type 0 where
  pub static_labels : Labels
  pub hostname_label : Text
  pub timestamp_label : Text

default_enrich_policy : EnrichPolicy
default_enrich_policy = record { static_labels = []; hostname_label = []; timestamp_label = [] }

pub record Enricher : Type 0 where
  pub policy : EnrichPolicy
  pub hostname : Text

unfoldable new_enricher : EnrichPolicy → Text → Enricher
new_enricher p hostname = record {
  policy = p;
  hostname = if hostname == [] then text "unknown" else hostname;
}

-- `if key != "" { n.Labels[key] = value }`
abbrev pub insert_named : Text → Text → Labels → Labels
insert_named key value m = if key == [] then m else insert key value m

-- The three steps of `Enrich` on the labels.
unfoldable pub enrich_labels : Enricher → Text → Labels → Labels
enrich_labels e now m =
    insert_named e.policy.timestamp_label now
      (insert_named e.policy.hostname_label e.hostname (merge e.policy.static_labels m))

-- `Enrich`, given the text of the time. The notification is copied, its labels are not.
unfoldable pub enrich : Enricher → Text → Labelled → Store → Labelled × Store
enrich e now n store =
    let (i, store') = ensured n.labels store in
    (record n { labels = some i }, update_map i (enrich_labels e now) store')

abbrev wrapped : Option Error → Option Error
wrapped none = none
wrapped (some e) = some (enriching e)

-- `(*EnrichDispatcher).Send`; the clock is read only if the time is wanted.
module _ {W : Type 0} (format_time : ℤ → Text) (now : Clock W) (enricher : Enricher)
    (next : Forwarder W) where
  abbrev time_label : W → Text × W
  time_label w =
      let (t, w') = now w in
      if enricher.policy.timestamp_label == [] then ([], w) else (format_time t, w')

  unfoldable pub send : Forwarder W
  send n store w =
      let (stamp, w') = time_label w in
      let (n', store') = enrich enricher stamp n store in
      let (e, after) = next n' store' w' in (wrapped e, after)

new_enrich_dispatcher :
    {W : Type 0}
    → (ℤ → Text)
    → Clock W
    → Option Enricher
    → Option (Forwarder W)
    → Option (Forwarder W)
new_enrich_dispatcher format_time now = wrap_forwarder (send format_time now)
