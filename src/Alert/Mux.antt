-- ===== src/Alert/Mux.antt =====
-- internal/alert/mux.go and mux_dispatcher.go.
pub mod Laws
pub mod Keys
use portwatch.Base.{
  Text, text_eq, Map, lookup, insert, List, [], ◌∷◌, ◌++◌, Bool, if◌then◌else◌, Option, none, some,
}
use portwatch.Alert.Notification.{Notification, Error, Dispatcher}
use portwatch.Alert.Key.{notification_key}

pub record MuxBranch (W : Type 0) : Type 0 where
  pub predicate : Notification → Bool
  pub target : Dispatcher W

pub record Mux (W : Type 0) : Type 0 where
  pub branches : List (MuxBranch W)
  pub default_dispatcher : Option (Dispatcher W)

pub record MuxDispatcher (W : Type 0) : Type 0 where
  pub routes : Map Text (Dispatcher W)
  pub fallback : Option (Dispatcher W)

module _ {W : Type 0} where
  new_mux : Option (Dispatcher W) → Mux W
  new_mux default_dispatcher = record { branches = []; default_dispatcher = default_dispatcher }

  -- `none` is a nil argument, and a panic.
  handle : Mux W → Option (Notification → Bool) → Option (Dispatcher W) → Option (Mux W)
  handle m none target = none
  handle m (some predicate) none = none
  handle m (some predicate) (some target) = some (record m {
    branches = m.branches ++ (record { predicate = predicate; target = target } ∷ []);
  })

  abbrev pub or_drop : Option (Dispatcher W) → Dispatcher W
  or_drop none n w = (none, w)
  or_drop (some d) n w = d n w

  pub first_match : List (MuxBranch W) → Option (Dispatcher W) → Dispatcher W
  first_match [] otherwise n w = or_drop otherwise n w
  first_match (b ∷ bs) otherwise n w =
      let rest = first_match bs otherwise n w in if b.predicate n then b.target n w else rest

  pub send : Mux W → Dispatcher W
  send m n w = first_match m.branches m.default_dispatcher n w

  abbrev or_fallback : Option (Dispatcher W) → Option (Dispatcher W) → Dispatcher W
  or_fallback (some target) fallback n w = target n w
  or_fallback none fallback n w = or_drop fallback n w

  -- `(*MuxDispatcher).Send`, which does not ask the `Mux` it is given.
  pub send_by_key : MuxDispatcher W → Dispatcher W
  send_by_key d n w = or_fallback (lookup (notification_key n) d.routes) d.fallback n w

  -- The loop of `NewMuxDispatcher`; a nil dispatcher panics, which is `none`.
  pub copy_routes :
      Map Text (Option (Dispatcher W)) → Map Text (Dispatcher W) → Option (Map Text (Dispatcher W))
  copy_routes [] copy = some copy
  copy_routes (route ∷ routes) copy = elim route.1 [
    | none ↦ none
    | some d ↦ copy_routes routes (insert route.0 d copy)
  ]

  abbrev with_routes :
      Option (Dispatcher W) → Option (Map Text (Dispatcher W)) → Option (MuxDispatcher W)
  with_routes fallback none = none
  with_routes fallback (some routes) = some (record { routes = routes; fallback = fallback })

  -- `NewMuxDispatcher` of a mux that is not nil; no routes are a panic.
  pub new_mux_dispatcher :
      Map Text (Option (Dispatcher W)) → Option (Dispatcher W) → Option (MuxDispatcher W)
  new_mux_dispatcher [] fallback = none
  new_mux_dispatcher (route ∷ routes) fallback =
      with_routes fallback (copy_routes (route ∷ routes) [])
