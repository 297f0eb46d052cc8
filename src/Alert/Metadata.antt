-- ===== src/Alert/Metadata.antt =====
-- The notification as label.go, enrich.go and transform.go of internal/alert read it, which has more
-- fields than the one of notify.go. A Go map is shared by all that hold it, so the labels are a
-- reference into a store of maps; a nil map is `none`.
use portwatch.Base.{
  ℕ, ◌≡◌, refl, ℤ, Text, text_eq, Map, lookup, insert, lookup-insert, text_beq_iff, Distinct, List,
  [], ◌∷◌, ◌++◌, length, get_or, set, Option, none, some, arith, if◌then◌else◌, ◌==◌,
}
use portwatch.Alert.Notification.{Error}

abbrev pub Labels : Type 0
Labels = Map Text Text

abbrev pub Store : Type 0
Store = List Labels

pub record Labelled : Type 0 where
  pub port : ℤ
  pub host : Text
  pub state : Text
  pub title : Text
  pub timestamp : ℤ
  pub labels : Option ℕ

-- The map behind a reference; a nil map reads as an empty one.
abbrev pub contents : Option ℕ → Store → Labels
contents none store = []
contents (some i) store = get_or store i []

-- `make(map[string]string)`, or a map that was filled since: its reference and the store with it.
abbrev pub make_map : Labels → Store → ℕ × Store
make_map m store = (length store, store ++ m ∷ [])

-- `if n.Labels == nil { n.Labels = make(…) }`
abbrev pub ensured : Option ℕ → Store → ℕ × Store
ensured none store = make_map [] store
ensured (some i) store = (i, store)

-- Assignments to the map `i`, which every holder of it sees.
abbrev pub update_map : ℕ → (Labels → Labels) → Store → Store
update_map i f store = set store i (f (get_or store i []))

-- `for k, v := range extra { m[k] = v }`
unfoldable pub merge : Labels → Labels → Labels
merge [] m = m
merge (entry ∷ extra) m = merge extra (insert entry.0 entry.1 m)

-- A sender of such a notification, over the store and the state of all else.
abbrev pub Forwarder : Type 0 → Type 0
Forwarder W = Labelled → Store → W → Option Error × (Store × W)

abbrev pub or_else : Option Text → Option Text → Option Text
or_else none second = second
or_else (some v) second = some v

-- The last entry for a key wins.
unfoldable pub last_of : Text → Labels → Option Text
last_of k [] = none
last_of k (entry ∷ m) = or_else (last_of k m) (if entry.0 == k then some entry.1 else none)

or_else_assoc : (a b c : Option Text) → or_else (or_else a b) c ≡ or_else a (or_else b c)
or_else_assoc none b c = refl
or_else_assoc (some v) b c = refl

pub lookup-merge :
    (k : Text) (extra m : Labels)
    → lookup k (merge extra m) ≡ or_else (last_of k extra) (lookup k m)
unfolding merge last_of
lookup-merge k [] m = refl
lookup-merge k (entry ∷ extra) m = ground (
  arith,
  lookup-merge k extra (insert entry.0 entry.1 m),
  lookup-insert entry.0 k entry.1 m,
  or_else_assoc (last_of k extra) (if entry.0 == k then some entry.1 else none) (lookup k m),
)

pub last_of-Distinct : (k : Text) (m : Labels) → Distinct m → last_of k m ≡ lookup k m
unfolding last_of lookup
last_of-Distinct k [] h = refl
last_of-Distinct k (entry ∷ m) (fresh, h) =
    ground (arith, last_of-Distinct k m h, fresh, text_beq_iff entry.0 k)

-- A constructor that panics, which is `none`, if its component or what it wraps is nil.
abbrev pub wrap_forwarder :
    {A W : Type 0}
    → (A → Forwarder W → Forwarder W)
    → Option A
    → Option (Forwarder W)
    → Option (Forwarder W)
wrap_forwarder over none next = none
wrap_forwarder over (some a) none = none
wrap_forwarder over (some a) (some next) = some (over a next)
