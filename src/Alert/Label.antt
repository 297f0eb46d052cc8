-- ===== src/Alert/Label.antt =====
-- internal/alert/label.go and label_dispatcher.go. The order of an association list is the order in
-- which a map is iterated; `strings.TrimSpace` is an argument of `set_label`.
pub mod Laws
use portwatch.Base.{
  ℕ, Text, text_eq, ◌==◌, ◌++◌, lookup, insert, List, [], ◌∷◌, Option, none, some, if◌then◌else◌,
}
use portwatch.Alert.Metadata.{
  Labels, Store, Labelled, make_map, ensured, update_map, merge, contents, Forwarder,
  wrap_forwarder,
}

-- A nil map of labels is `none`.
pub record LabelPolicy : Type 0 where
  pub labels : Option Labels
  pub prefix : Text

default_label_policy : LabelPolicy
default_label_policy = record { labels = some []; prefix = [] }

pub record Labeler : Type 0 where
  pub labels : Labels
  pub prefix : Text

abbrev given : Option Labels → Labels
given none = []
given (some m) = m

new_labeler : LabelPolicy → Labeler
new_labeler p = record { labels = given p.labels; prefix = p.prefix }

abbrev pub label_key : Text → Text → Text
label_key prefix k = if prefix == [] then k else prefix ++ k

-- `if _, exists := n.Labels[key]; !exists { n.Labels[key] = v }`
abbrev pub add_missing : Text → Text → Labels → Labels
add_missing k v m = elim (lookup k m) [ none ↦ insert k v m | some old ↦ m ]

-- The loop of `Apply`.
unfoldable pub add_all : Text → Labels → Labels → Labels
add_all prefix [] m = m
add_all prefix (entry ∷ rest) m =
    add_all prefix rest (add_missing (label_key prefix entry.0) entry.1 m)

-- `Apply`, on the notification and the store its labels are in.
unfoldable pub apply : Labeler → Labelled → Store → Labelled × Store
apply l n store =
    let (i, store') = ensured n.labels store in
    (record n { labels = some i }, update_map i (add_all l.prefix l.labels) store')

-- `Set`
set_label : (Text → Text) → Labeler → Text → Text → Labeler
set_label trim_space l key value = record l { labels = insert (trim_space key) value l.labels }

-- `Snapshot`
pub snapshot : Labeler → Labels
snapshot l = merge l.labels []

-- `if copy.Labels != nil { … }`
abbrev cloned : Option ℕ → Store → Option ℕ × Store
cloned none store = (none, store)
cloned (some i) store =
    let (j, store') = make_map (merge (contents (some i) store) []) store in (some j, store')

-- `(*labelDispatcher).Send`
module _ {W : Type 0} (labeler : Labeler) (next : Forwarder W) where
  unfoldable pub send : Forwarder W
  send n store w =
      let (labels, store') = cloned n.labels store in
      let (n', store'') = apply labeler (record n { labels = labels }) store' in next n' store'' w

new_label_dispatcher : {W : Type 0} → Option Labeler → Option (Forwarder W) → Option (Forwarder W)
new_label_dispatcher = wrap_forwarder send
