-- ===== src/Alert/Transform.antt =====
-- internal/alert/transform.go and transform_dispatcher.go. The layout of a time as RFC 3339 and `strings.EqualFold` are arguments.
-- An association list is iterated in its order.
pub mod Template
pub mod Stripping
pub mod Applied
use portwatch.Base.{
  ◌⊎◌, inl, inr, ℕ, zero, suc, ◌-◌, ℤ, Text, text, text_eq, ◌==◌, nat_eq, format_int, length, Bool,
  ◌&&◌, false, true, Map, delete, List, [], ◌∷◌, ◌++◌, Option, none, some, if◌then◌else◌,
}
use portwatch.Alert.Notification.{Error}
use portwatch.Alert.Metadata.{
  Labels, Store, Labelled, ensured, update_map, merge, Forwarder, wrap_forwarder,
}

pub record TransformPolicy : Type 0 where
  pub title_template : Text
  pub add_labels : Labels
  pub strip_sensitive_headers : Bool

default_transform_policy : TransformPolicy
default_transform_policy = record {
  title_template = [];
  add_labels = [];
  strip_sensitive_headers = false;
}

-- Whether a text starts with another.
abbrev starts_with : Text → Text → Bool
starts_with [] s = true
starts_with (c ∷ p) [] = false
starts_with (c ∷ p) (d ∷ s) = nat_eq c d && starts_with p s

-- The first pair whose old text stands here: its length and its new text.
unfoldable pub first_pair : List (Text × Text) → Text → Option (ℕ × Text)
first_pair [] s = none
first_pair (p ∷ ps) s =
    let later = first_pair ps s in if starts_with p.0 s then some (length p.0, p.1) else later

-- `Replace` of `strings.NewReplacer`, for old texts that are not empty, with the bytes to pass over.
-- A new text is not searched again.
unfoldable pub replace : List (Text × Text) → ℕ → Text → Text
replace ps skip [] = []
replace ps (suc skip) (c ∷ s) = replace ps skip s
replace ps zero (c ∷ s) =
    let pass = replace ps 0 s in
    elim (first_pair ps (c ∷ s)) [ none ↦ c ∷ pass | some (n, new) ↦ new ++ replace ps (n - 1) s ]

-- `for _, key := range sensitive`
abbrev pub sensitive : List Text
sensitive = text "authorization" ∷ text "cookie" ∷ text "set-cookie" ∷ []

module _ (equal_fold : Text → Text → Bool) where
  -- `for k := range n.Labels { if strings.EqualFold(k, key) { delete(n.Labels, k) } }`
  unfoldable pub strip_key : Text → Labels → Labels → Labels
  strip_key key [] m = m
  strip_key key (entry ∷ entries) m =
      let kept = strip_key key entries m in
      let without = strip_key key entries (delete entry.0 m) in
      if equal_fold entry.0 key then without else kept

  unfoldable pub strip_all : List Text → Labels → Labels
  strip_all [] m = m
  strip_all (key ∷ keys) m = strip_all keys (strip_key key m m)

module _ (format_time : ℤ → Text) where
  abbrev pub placeholders : Labelled → List (Text × Text)
  placeholders n =
      (text "{port}", format_int n.port)
      ∷ (text "{state}", n.state)
      ∷ (text "{host}", n.host)
      ∷ (text "{time}", format_time n.timestamp)
      ∷ []

  unfoldable pub render_template : Text → Labelled → Text
  render_template tpl n = replace (placeholders n) 0 tpl

  abbrev pub titled : TransformPolicy → Labelled → Labelled
  titled p n =
      if p.title_template == [] then n else record n { title = render_template p.title_template n }

-- `if len(AddLabels) > 0 { … }`
abbrev pub add_labels : Labels → Labelled → Store → Labelled × Store
add_labels [] n store = (n, store)
add_labels (entry ∷ extra) n store =
    let (i, store') = ensured n.labels store in
    (record n { labels = some i }, update_map i (merge (entry ∷ extra)) store')

-- `if StripSensitiveHeaders && n.Labels != nil { … }`
abbrev pub strip : (Text → Text → Bool) → Bool → Option ℕ → Store → Store
strip equal_fold false labels store = store
strip equal_fold true none store = store
strip equal_fold true (some i) store = update_map i (strip_all equal_fold sensitive) store

module _ (format_time : ℤ → Text) (equal_fold : Text → Text → Bool) where
  -- `apply`. The notification is copied, its labels are not.
  unfoldable pub apply : TransformPolicy → Labelled → Store → Labelled × Store
  apply p n store =
      let (n', store') = add_labels p.add_labels (titled format_time p n) store in
      (n', strip equal_fold p.strip_sensitive_headers n'.labels store')

  -- `(*Transformer).Send`
  module _ {W : Type 0} (policy : TransformPolicy) (next : Forwarder W) where
    unfoldable pub send : Forwarder W
    send n store w = let (n', store') = apply policy n store in next n' store' w

-- `(*TransformDispatcher).Send` of transform_dispatcher.go. It calls an `Apply` that the transformer
-- does not have, which is an argument: it gives a notification or an error.
module _ {W : Type 0} (apply_or_fail : Labelled → Store → (Labelled ⊎ Error) × Store)
    (next : Forwarder W) where
  abbrev forward : (Labelled ⊎ Error) × Store → W → Option Error × (Store × W)
  forward (inl n, store) w = next n store w
  forward (inr e, store) w = (some e, (store, w))

  unfoldable send_transformed : Forwarder W
  send_transformed n store w = forward (apply_or_fail n store) w

-- `NewTransformDispatcher`, whose transformer is what it applies.
new_transform_dispatcher :
    {W : Type 0}
    → Option (Forwarder W)
    → Option (Labelled → Store → (Labelled ⊎ Error) × Store)
    → Option (Forwarder W)
new_transform_dispatcher next transformer = wrap_forwarder send_transformed transformer next
