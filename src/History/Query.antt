-- ===== src/History/Query.antt =====
-- internal/history/query.go: filtering the ring's events and summing them up by port. The file's own
-- `Event` lacks the host of history.go's, which is the one modelled.
pub mod Selection
pub mod LastState
use portwatch.Base.{
  ℕ, ℤ, pos, pos_part, eq_ℤ, ltb_ℤ, ltb, List, [], ◌∷◌, Text, text, text_eq, int_eq, if◌then◌else◌,
  Bool, true, false, ◌==◌, not, ◌&&◌, length, keep, last_n, Map, insert,
}
use portwatch.Config.{PortConfig}
use portwatch.History.Ring.{Event, Ring, snapshot}

pub record Filter : Type 0 where
  pub port : ℤ
  pub state : Text
  pub since : ℤ
  pub limit : ℤ

-- The loop body: each `continue` is a `false`.
abbrev pub passes : Filter → Event → Bool
passes f e =
    if not (f.port == pos 0) && not (e.port == f.port)
    then false
    else if not (f.state == []) && not (e.state == f.state)
    then false
    else if not (f.since == pos 0) && ltb_ℤ e.timestamp f.since
    then false
    else true

-- `results[len(results)-f.Limit:]`
abbrev pub limited : ℤ → List Event → List Event
limited limit results =
    if ltb_ℤ (pos 0) limit && ltb (pos_part limit) (length results)
    then last_n (pos_part limit) results
    else results

pub query : Ring → Filter → List Event
query r f = limited f.limit (keep (passes f) (snapshot r))

-- `for _, p := range ports { last[p.Port] = "unknown" }`
pub mark_unknown : Map ℤ Text → List PortConfig → Map ℤ Text
mark_unknown last [] = last
mark_unknown last (p ∷ ports) = mark_unknown (insert p.port (text "unknown") last) ports

-- `for _, e := range snapshot { last[e.Port] = e.State }`
pub mark_events : Map ℤ Text → List Event → Map ℤ Text
mark_events last [] = last
mark_events last (e ∷ events) = mark_events (insert e.port e.state last) events

pub summary : Ring → List PortConfig → Map ℤ Text
summary r ports = mark_events (mark_unknown [] ports) (snapshot r)
