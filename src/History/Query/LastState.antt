-- ===== src/History/Query/LastState.antt =====
-- `Summary`, against the state of the newest event of each port.
use portwatch.Base.{
  ◌≡◌, refl, ℤ, int_eq, List, [], ◌∷◌, Text, text, arith, Option, none, some, if◌then◌else◌, ◌==◌,
  Bool, any, Map, lookup, insert, lookup-insert,
}
use portwatch.Config.{PortConfig}
use portwatch.History.Ring.{Event, Ring, snapshot}
use portwatch.History.Query.{mark_unknown, mark_events, summary}

-- The state in the last event of a port.
abbrev last_state : ℤ → List Event → Option Text
last_state p [] = none
last_state p (e ∷ es) = elim (last_state p es) [
  | some s ↦ some s
  | none ↦ if e.port == p then some e.state else none
]

abbrev is_configured : ℤ → List PortConfig → Bool
is_configured p = any (λ c. c.port == p)

abbrev or_else : Option Text → Option Text → Option Text
or_else (some s) d = some s
or_else none d = d

lookup-mark_unknown :
    (p : ℤ) (last : Map ℤ Text) (ports : List PortConfig)
    → lookup p (mark_unknown last ports)
      ≡ (if is_configured p ports then some (text "unknown") else lookup p last)
unfolding mark_unknown
lookup-mark_unknown p last [] = refl
lookup-mark_unknown p last (c ∷ ports) = ground (
  arith,
  lookup-mark_unknown p (insert c.port (text "unknown") last) ports,
  lookup-insert c.port p (text "unknown") last,
)

lookup-mark_events :
    (p : ℤ) (last : Map ℤ Text) (es : List Event)
    → lookup p (mark_events last es) ≡ or_else (last_state p es) (lookup p last)
unfolding mark_events
lookup-mark_events p last [] = refl
lookup-mark_events p last (e ∷ es) = ground (
  arith,
  lookup-mark_events p (insert e.port e.state last) es,
  lookup-insert e.port p e.state last,
)

-- `Summary` maps a port to the state in its newest event in the ring, a configured port without
-- events to "unknown", and no other port to anything.
pub lookup-summary :
    (r : Ring) (ports : List PortConfig) (p : ℤ)
    → lookup p (summary r ports) ≡ elim (last_state p (snapshot r)) [
      | some s ↦ some s
      | none ↦ if is_configured p ports then some (text "unknown") else none
    ]
unfolding summary lookup
lookup-summary r ports p = ground (
  arith,
  lookup-mark_events p (mark_unknown [] ports) (snapshot r),
  lookup-mark_unknown p [] ports,
)
