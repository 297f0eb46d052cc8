-- ===== src/Api.antt =====
-- internal/api: the handlers. A request is its method and its query parameters, where a missing one
-- is the empty text, as `url.Values.Get` gives it. What a handler writes is a response.
pub mod Requests
pub mod Ports
pub mod Served
pub mod Server
pub mod Answers
use portwatch.Base.{
  Map, ℤ, pos, leb_ℤ, ltb_ℤ, List, [], ◌∷◌, Bool, ◌&&◌, ◌||◌, not, Text, text, text_eq, ◌==◌, atoi,
  Option, none, some, if◌then◌else◌,
}
use portwatch.History.Ring.{Event, Ring, snapshot}
use portwatch.History.Export.{format_json, format_csv, Sink, export}

pub record Request : Type 0 where
  pub method : Text
  pub parameter : Text → Text

-- `http.Error` with its code and text, a body under a code and a content type, or a redirection under
-- a code to a path, with the same query.
pub data Response (B : Type 0) : Type 0 where
  moved : ℤ → Text → Response B
  refused : ℤ → Text → Response B
  served : ℤ → Text → B → Response B

abbrev pub json_type : Text
json_type = text "application/json"

-- `writeJSON`; the encoding of the value is left to encoding/json.
unfoldable pub write_json : {B : Type 0} → ℤ → B → Response B
write_json code v = served code json_type v

abbrev not_allowed : {B : Type 0} → Response B
not_allowed = refused (pos 405) (text "method not allowed")

abbrev bad_request : {B : Type 0} → Text → Response B
bad_request reason = refused (pos 400) reason

-- The methods and paths that `New` registers.
pub data Endpoint : Type 0 where
  status : Endpoint
  history : Endpoint
  healthz : Endpoint

unfoldable pub routes : Map Text Endpoint
routes = (text "/status", status) ∷ (text "/history", history) ∷ (text "/healthz", healthz) ∷ []

unfoldable pub handle_healthz : Request → Response (List (Text × Text))
handle_healthz r = write_json (pos 200) ((text "status", text "ok") ∷ [])

-- `states` is what `Snapshot` of the tracker returns.
unfoldable pub handle_status : {S : Type 0} → S → Request → Response S
handle_status states r =
    if not (r.method == text "GET") then not_allowed else write_json (pos 200) states

-- `port, err := strconv.Atoi(p); err != nil || port < 1 || port > 65535`, with 0 where `p` is empty.
abbrev in_ports : Option ℤ → Option ℤ
in_ports none = none
in_ports (some p) = if ltb_ℤ p (pos 1) || ltb_ℤ (pos 65535) p then none else some p

unfoldable pub read_port : Text → Option ℤ
read_port p = if p == [] then some (pos 0) else in_ports (atoi p)

-- `history.Query{}` as the handler fills it in.
pub record HistoryQuery : Type 0 where
  pub port : ℤ
  pub since : ℤ
  pub state : Text

-- `history.QueryFilter{}`
pub record QueryFilter : Type 0 where
  pub port : ℤ
  pub limit : ℤ

module _ (parse_time : Text → Option ℤ) where
  -- `since`, with the zero time where it is missing.
  unfoldable pub read_since : Text → Option ℤ
  read_since since = if since == [] then some (pos 0) else parse_time since

  -- `select` is `history.Filter`.
  module _ {B : Type 0} (select : List Event → HistoryQuery → B) where
    unfoldable pub handle_history : Ring → Request → Response B
    handle_history ring r =
        if not (r.method == text "GET")
        then not_allowed
        else elim (read_port (r.parameter (text "port"))) [
          | none ↦ bad_request (text "invalid port")
          | some port ↦ elim (read_since (r.parameter (text "since"))) [
            | none ↦ bad_request (text "invalid since: use RFC3339")
            | some since ↦ write_json (pos 200) (
                select (snapshot ring)
                  (record { port = port; since = since; state = r.parameter (text "state") }))
          ]
        ]

-- `l, err := strconv.Atoi(limitStr); err != nil || l < 1`
abbrev from_one : Option ℤ → Option ℤ
from_one none = none
from_one (some l) = if ltb_ℤ l (pos 1) then none else some l

unfoldable pub read_limit : Text → Option ℤ
read_limit l = if l == [] then some (pos 0) else from_one (atoi l)

abbrev pub export_format : Text → Text
export_format format = if format == [] then format_json else format

abbrev pub content_type : Text → Text
content_type format = if format == format_csv then text "text/csv" else json_type

-- `select` is `history.Query`; the body is what `Export` has written when it returns, whatever it
-- returns. No code is written, which stands for 200.
module _ {E W : Type 0} (format_time : ℤ → Text) (sink : Sink E W) (empty : W)
    (select : List Event → QueryFilter → List Event) where
  unfoldable pub handle_export : Ring → Request → Response W
  handle_export ring r =
      let format = export_format (r.parameter (text "format")) in
      if not (r.method == text "GET")
      then not_allowed
      else elim (read_port (r.parameter (text "port"))) [
        | none ↦ bad_request (text "invalid port")
        | some port ↦ elim (read_limit (r.parameter (text "limit"))) [
          | none ↦ bad_request (text "invalid limit")
          | some limit ↦
              let events = select (snapshot ring) (record { port = port; limit = limit }) in
              served (pos 200) (content_type format) (export format_time sink events format empty).1
        ]
      ]
