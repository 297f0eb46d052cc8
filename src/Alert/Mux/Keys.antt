-- ===== src/Alert/Mux/Keys.antt =====
-- Where a dispatcher by key sends.
use portwatch.Base.{
  ◌≡◌, refl, Text, text_eq, text_beq_iff, Map, lookup, insert, lookup-insert, Distinct, [], ◌∷◌,
  Option, none, some, arith, Option-cases, inl, inr,
}
use portwatch.Alert.Notification.{Notification, Dispatcher}
use portwatch.Alert.Key.{notification_key}
use portwatch.Alert.Mux.{MuxDispatcher, copy_routes, new_mux_dispatcher, send_by_key, or_drop}

module _ {W : Type 0} where
  -- What a map of routes has for a key.
  abbrev route_for : Text → Map Text (Option (Dispatcher W)) → Option (Dispatcher W)
  route_for k routes = elim (lookup k routes) [ none ↦ none | some d ↦ d ]

  abbrev or_copied : Option (Dispatcher W) → Option (Dispatcher W) → Option (Dispatcher W)
  or_copied none second = second
  or_copied (some d) second = some d

  lookup-copy_routes :
      (k : Text) (routes : Map Text (Option (Dispatcher W))) (copy m : Map Text (Dispatcher W))
      → Distinct routes
      → copy_routes routes copy ≡ some m
      → lookup k m ≡ or_copied (route_for k routes) (lookup k copy)
  unfolding copy_routes lookup
  lookup-copy_routes k [] copy m h e = ground (arith, e)
  lookup-copy_routes k ((key, none) ∷ routes) copy m h e = ground (arith, e)
  lookup-copy_routes k ((key, some d) ∷ routes) copy m (fresh, h) e = ground (
    arith,
    lookup-copy_routes k routes (insert key d copy) m h e,
    lookup-insert key k d copy,
    text_beq_iff key k,
    fresh,
  )

  abbrev pub chosen : Option (Dispatcher W) → Option (Dispatcher W) → Dispatcher W
  chosen none fallback n w = or_drop fallback n w
  chosen (some d) fallback n w = d n w

  or_copied-none : (o : Option (Dispatcher W)) → or_copied o none ≡ o
  or_copied-none none = refl
  or_copied-none (some d) = refl

  new_mux_dispatcher-routes :
      (routes : Map Text (Option (Dispatcher W))) (fallback : Option (Dispatcher W))
      (d : MuxDispatcher W)
      → new_mux_dispatcher routes fallback ≡ some d
      → (copy_routes routes [] ≡ some d.routes) × (d.fallback ≡ fallback)
  unfolding new_mux_dispatcher
  new_mux_dispatcher-routes [] fallback d e = ground (arith, e)
  new_mux_dispatcher-routes (route ∷ routes) fallback d e = ground (arith, e)

  -- A dispatcher that was built from a map of routes sends to the route of the notification's port and
  -- state if there is one, and to the fallback, if that is not nil, or nowhere otherwise.
  send_by_key-new_mux_dispatcher :
      (routes : Map Text (Option (Dispatcher W))) (fallback : Option (Dispatcher W))
      (d : MuxDispatcher W) (n : Notification) (w : W)
      → Distinct routes
      → new_mux_dispatcher routes fallback ≡ some d
      → send_by_key d n w ≡ chosen (route_for (notification_key n) routes) fallback n w
  unfolding send_by_key lookup
  send_by_key-new_mux_dispatcher routes fallback d n w h e =
      let built = new_mux_dispatcher-routes routes fallback d e in
      elim (Option-cases (route_for (notification_key n) routes)) [
        | inl missing ↦
            rw
              (
                built.1,
                lookup-copy_routes (notification_key n) routes [] d.routes h built.0,
                missing,
              )
              refl
        | inr (target, found) ↦
            rw (lookup-copy_routes (notification_key n) routes [] d.routes h built.0, found) refl
      ]
