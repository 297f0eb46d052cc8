-- ===== src/Tests/Labels.antt =====
-- The labels of notifications, and what the senders of one channel do.
use portwatch.Base.{
  ◌≡◌, ◌⊎◌, ◌++◌, refl, pos, List, [], ◌∷◌, length, get_or, lookup, Distinct, Bool, true, Text,
  text, text_eq, format_int, none, some, text_beq, ◌==◌, arith,
}
use portwatch.Alert.Metadata.{Labels, Store, Labelled, contents, Forwarder, or_else, last_of}
use portwatch.Alert.Label.{Labeler, label_key}
use portwatch.Alert.Label
use portwatch.Alert.Label.Laws.{IsOwn, send-add_all}
use portwatch.Alert.Enrich.{Enricher, enrich}
use portwatch.Alert.Enrich.Laws.{named, enrich_lem}
use portwatch.Alert.Transform.{TransformPolicy, apply}
use portwatch.Alert.Transform.Applied.{stripped, lookup-apply}

abbrev env : Text
env = text "env"

abbrev old_labels : Labels
old_labels = (env, text "dev") ∷ (text "Cookie", text "c") ∷ []

abbrev store : Store
store = old_labels ∷ []

abbrev notice : Labelled
notice = record {
  port = pos 80;
  host = text "a";
  state = text "open";
  title = text "t";
  timestamp = pos 5;
  labels = some 0;
}

abbrev accepts : Forwarder (List Labelled)
accepts n s w = (none, (s, n ∷ w))

abbrev labeler : Labeler
labeler = record { labels = (env, text "prod") ∷ (text "team", text "x") ∷ []; prefix = text "l." }

old_labels-Distinct : Distinct old_labels
unfolding lookup text_beq
old_labels-Distinct = (refl, (refl, tt))

send-add_all_example :
    (m : Labels) × (Label.send labeler accepts notice store []
      ≡ accepts (record notice { labels = some (length store) }) (store ++ m ∷ []) [])
    × (lookup (text "l.team") m
        ≡ or_else (lookup (text "l.team") old_labels) (lookup (text "team") labeler.labels))
    × ((lookup env m ≡ lookup env old_labels) ⊎ IsOwn (text "l.") labeler.labels env)
send-add_all_example =
    send-add_all labeler accepts notice store [] (text "team") env old_labels-Distinct

abbrev enricher : Enricher
enricher = record {
  policy = record {
    static_labels = (env, text "prod") ∷ [];
    hostname_label = text "host";
    timestamp_label = [];
  };
  hostname = text "h";
}

enrich_lem_example :
    ((enrich enricher [] notice store).0 ≡ record notice { labels = some 0 })
    × (lookup env (get_or (enrich enricher [] notice store).1 0 [])
        ≡ or_else (named [] [] env) (
            or_else
              (named (text "host") (text "h") env)
              (or_else (last_of env enricher.policy.static_labels) (lookup env old_labels))))
enrich_lem_example = enrich_lem enricher [] env notice store (omega arith)

abbrev stripping : TransformPolicy
stripping = record {
  title_template = text "{port}";
  add_labels = (text "x", text "y") ∷ [];
  strip_sensitive_headers = true;
}

abbrev folds : Text → Text → Bool
folds a b = a == b

lookup-apply_example :
    let (n', store') = apply format_int folds stripping notice store in
    lookup env (contents n'.labels store')
    ≡ stripped folds true env (or_else (last_of env stripping.add_labels) (lookup env old_labels))
lookup-apply_example = lookup-apply folds format_int stripping env notice store (omega arith)
