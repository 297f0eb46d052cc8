-- ===== src/Alert/Router.antt =====
-- internal/alert/routing.go. `Send` works on a copy of the routes, so a registration made while it
-- runs does not concern it.
pub mod Laws
use portwatch.Base.{
  ℤ, Text, text_eq, int_eq, List, [], ◌∷◌, ◌++◌, Bool, true, false, not, ◌&&◌, if◌then◌else◌,
  Option, none, some,
}
use portwatch.Alert.Notification.{Notification, Error, nil_route, Dispatcher}
use portwatch.Alert.Filter.{admits}

pub record Route : Type 0 where
  pub name : Text
  pub ports : List ℤ
  pub states : List Text

pub record RouteEntry (W : Type 0) : Type 0 where
  pub route : Route
  pub dispatcher : Dispatcher W

pub record Router (W : Type 0) : Type 0 where
  pub routes : List (RouteEntry W)

pub route_matches : Route → Notification → Bool
route_matches route n =
    if not (admits route.ports n.port) then false else admits route.states n.state

-- `lastErr` after a send.
abbrev pub newer : Option Error → Option Error → Option Error
newer none last = last
newer (some e) last = some e

module _ {W : Type 0} where
  new_router : Router W
  new_router = record { routes = [] }

  register : Router W → Route → Option (Dispatcher W) → Option Error × Router W
  register r route none = (some (nil_route route.name), r)
  register r route (some d) =
      (none, record r { routes = r.routes ++ (record { route = route; dispatcher = d } ∷ []) })

  -- The loop of `Send`, with `lastErr` and `matched`.
  pub deliver :
      List (RouteEntry W) → Notification → Option Error → Bool → W → (Option Error × Bool) × W
  deliver [] n last matched w = ((last, matched), w)
  deliver (e ∷ es) n last matched w =
      let skip = deliver es n last matched w in
      let (err, w') = e.dispatcher n w in
      let hit = deliver es n (newer err last) true w' in
      if route_matches e.route n then hit else skip

  abbrev pub is_empty : List (RouteEntry W) → Bool
  is_empty [] = true
  is_empty (e ∷ es) = false

  pub send : Router W → Dispatcher W
  send r n w =
      let ((last, matched), w') = deliver r.routes n none false w in
      (if not matched && not (is_empty r.routes) then none else last, w')
