-- ===== src/Tests/Records.antt =====
-- The configuration and the history.
use portwatch.Base.{int_eq, ◌≡◌, ◌↔◌, ℤ, pos, List, [], ◌∷◌, ◌++◌, text, some, length, min, lookup}
use portwatch.Config.{Action, PortConfig, Config, ok, validate}
use portwatch.Config.Valid.{IsValid, defaulted, validate_iff}
use portwatch.History.Ring.{Event, Ring, new_ring, record_all, copy_out, snapshot, len}
use portwatch.History.Ring.Refine.{snapshot-record_all}
use portwatch.History.Query.{Filter, query, summary}
use portwatch.History.Query.Selection.{Selection, query_lem}
use portwatch.History.Query.LastState.{lookup-summary}

abbrev restart : Action
restart = record { kind = text "script"; url = []; command = text "/bin/restart" }

abbrev web : PortConfig
web = record { host = []; port = pos 8080; on_open = []; on_close = restart ∷ [] }

abbrev watch_web : Config
watch_web = record { interval = pos 15_000_000_000; ports = web ∷ [] }

validate_iff_example :
    (validate watch_web ≡ ok (defaulted watch_web))
    ↔ (IsValid watch_web × (defaulted watch_web ≡ defaulted watch_web))
validate_iff_example = validate_iff watch_web (defaulted watch_web)

abbrev up : ℤ → Event
up port = record { port = port; host = text "localhost"; state = text "open"; timestamp = pos 0 }

abbrev down : ℤ → ℤ → Event
down port time = record {
  port = port;
  host = text "localhost";
  state = text "closed";
  timestamp = time;
}

abbrev calls : List (ℤ × Event)
calls =
    (pos 10, up (pos 80))
    ∷ (pos 20, down (pos 443) (pos 15))
    ∷ (pos 30, down (pos 80) (pos 25))
    ∷ []

abbrev kept : List Event
kept = down (pos 443) (pos 15) ∷ down (pos 80) (pos 25) ∷ []

snapshot-record_all_example :
    (snapshot (record_all (new_ring (pos 2)) calls) ≡ kept)
    × (len (record_all (new_ring (pos 2)) calls) ≡ 2)
snapshot-record_all_example = snapshot-record_all (pos 2) calls

abbrev ring : Ring
ring = record {
  events = down (pos 80) (pos 25) ∷ down (pos 443) (pos 15) ∷ [];
  capacity = 2;
  head = 1;
  count = 2;
}

abbrev newest_closed : Filter
newest_closed = record { port = pos 0; state = text "closed"; since = pos 0; limit = pos 1 }

query_lem_example :
    (selected older : List Event) × Selection newest_closed (snapshot ring) selected
    × (selected ≡ older ++ query ring newest_closed)
    × (length (query ring newest_closed) ≡ min 1 (length selected))
query_lem_example = query_lem ring newest_closed

lookup-summary_example : lookup (pos 80) (summary ring (web ∷ [])) ≡ some (text "closed")
unfolding snapshot copy_out
lookup-summary_example = lookup-summary ring (web ∷ []) (pos 80)
