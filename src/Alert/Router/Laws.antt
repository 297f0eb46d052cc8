-- ===== src/Alert/Router/Laws.antt =====
-- Which targets a router sends to, and what it reports.
use portwatch.Base.{
  Comparable, ◌==◌, text_eq, int_eq, any, ◌&&◌, ◌≡◌, refl, List, [], ◌∷◌, keep, Bool, true, false,
  not, ◌||◌, Bool-cases, inl, inr, if◌then◌else◌, Option, none, some, arith,
}
use portwatch.Alert.Notification.{Notification, Error}
use portwatch.Alert.Filter.{admits}
use portwatch.Alert.Router.{
  Route, RouteEntry, Router, route_matches, newer, deliver, is_empty, send,
}

-- The last error of a list, if there is one.
abbrev pub last_error : List (Option Error) → Option Error
last_error [] = none
last_error (e ∷ es) = elim (last_error es) [ some later ↦ some later | none ↦ e ]

-- As the loop finds it.
abbrev latest : List (Option Error) → Option Error
latest [] = none
latest (e ∷ es) = newer (latest es) e

newer_lem : (later e : Option Error) → newer later e ≡ elim later [ some x ↦ some x | none ↦ e ]
newer_lem none e = refl
newer_lem (some x) e = refl

latest_lem : (es : List (Option Error)) → latest es ≡ last_error es
latest_lem [] = refl
latest_lem (e ∷ es) = rw (newer_lem (latest es) e, latest_lem es) refl

newer-newer : (a b c : Option Error) → newer a (newer b c) ≡ newer (newer a b) c
newer-newer none b c = refl
newer-newer (some x) b c = refl

newer-none : (a : Option Error) → newer a none ≡ a
newer-none none = refl
newer-none (some x) = refl

or_true : (b : Bool) → b || true ≡ true
or_true true = refl
or_true false = refl

if_same : (b : Bool) (x : Option Error) → (if b then x else x) ≡ x
if_same true x = refl
if_same false x = refl

-- An empty list is open to everything, and another one to what it lists.
abbrev pub is_open_to : {A : Type 0} ⦃eq : Comparable A⦄ → List A → A → Bool
is_open_to [] x = true
is_open_to (y ∷ ys) x = (y == x) || any (λ z. z == x) ys

admits_lem : {A : Type 0} ⦃eq : Comparable A⦄ (ys : List A) (x : A) → admits ys x ≡ is_open_to ys x
admits_lem [] x = refl
admits_lem (y ∷ ys) x = refl

route_matches_lem :
    (route : Route) (n : Notification)
    → route_matches route n ≡ (is_open_to route.ports n.port && is_open_to route.states n.state)
unfolding route_matches
route_matches_lem route n =
    ground (arith, admits_lem route.ports n.port, admits_lem route.states n.state)

module _ {W : Type 0} where
  -- Each dispatcher in order, whatever the earlier ones returned.
  unfoldable pub send_each : List (RouteEntry W) → Notification → W → List (Option Error) × W
  send_each [] n w = ([], w)
  send_each (e ∷ es) n w =
      let (err, w') = e.dispatcher n w in let (errs, w'') = send_each es n w' in (err ∷ errs, w'')

  abbrev passing : Notification → List (RouteEntry W) → List (RouteEntry W)
  passing n = keep (λ e. route_matches e.route n)

  deliver_lem :
      (es : List (RouteEntry W)) (n : Notification) (last : Option Error) (matched : Bool) (w : W)
      → let sent = send_each (passing n es) n w in
        deliver es n last matched w
        ≡ ((newer (latest sent.0) last, matched || not (is_empty (passing n es))), sent.1)
  unfolding deliver send_each
  deliver_lem [] n last true w = refl
  deliver_lem [] n last false w = refl
  deliver_lem (e ∷ es) n last matched w = elim (Bool-cases (route_matches e.route n)) [
    | inl hit ↦
        rw
          (
            hit,
            deliver_lem es n (newer (e.dispatcher n w).0 last) true (e.dispatcher n w).1,
            newer-newer,
            or_true matched,
          )
          refl
    | inr miss ↦ rw (miss, deliver_lem es n last matched w)
  ]

  no_match :
      (n : Notification) (es : List (RouteEntry W)) (w : W)
      → is_empty (passing n es) ≡ true
      → send_each (passing n es) n w ≡ ([], w)
  unfolding send_each
  no_match n [] w e = refl
  no_match n (x ∷ es) w e = elim (Bool-cases (route_matches x.route n)) [
    | inl hit ↦ ground (arith, hit, e)
    | inr miss ↦ rw (miss, no_match n es w (ground (arith, miss, e)))
  ]

  -- The entries whose route lists the port, or no ports at all, and so for the state.
  abbrev pub matching : Notification → List (RouteEntry W) → List (RouteEntry W)
  matching n = keep (λ e. is_open_to e.route.ports n.port && is_open_to e.route.states n.state)

  passing-matching : (n : Notification) (es : List (RouteEntry W)) → passing n es ≡ matching n es
  passing-matching n [] = refl
  passing-matching n (e ∷ es) = rw (route_matches_lem e.route n, passing-matching n es) refl

  -- A router sends a notification to every dispatcher whose route lists its port, or no ports, and
  -- lists its state, or no states, in the order of registration and each whatever the earlier ones
  -- returned, and to no other; it returns the last of the errors, and nil if there is none.
  pub send-matching :
      (r : Router W) (n : Notification) (w : W)
      → let sent = send_each (matching n r.routes) n w in send r n w ≡ (last_error sent.0, sent.1)
  unfolding send
  send-matching r n w =
      rw (← passing-matching n r.routes) (elim (Bool-cases (is_empty (passing n r.routes))) [
        | inl nobody ↦
            rw (deliver_lem r.routes n none false w, nobody, no_match n r.routes w nobody, if_same)
              refl
        | inr somebody ↦
            rw
              (
                deliver_lem r.routes n none false w,
                somebody,
                newer-none,
                latest_lem (send_each (passing n r.routes) n w).0,
              )
              refl
      ])
