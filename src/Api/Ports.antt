-- ===== src/Api/Ports.antt =====
-- A port that the CSV export prints, sent back as a parameter; and an unknown export format.
use portwatch.Base.{
  ℤ, pos, ◌≤ℤ◌, ◌≡◌, ◌≢◌, refl, List, [], Text, text, text_beq_iff, text_beq, format_int, atoi,
  atoi-format_int, min_duration, max_duration, Option, some, arith, text_eq,
}
use portwatch.History.Ring.{Event, Ring, snapshot}
use portwatch.History.Export.{format_json, format_csv, Sink, export}
use portwatch.Api.{
  Request, served, write_json, json_type, read_port, read_since, HistoryQuery, QueryFilter,
  handle_history, read_limit, handle_export, export_format, content_type,
}

format_int-not-nil : (p : ℤ) → min_duration ≤ℤ p → p ≤ℤ max_duration → format_int p ≢ []
unfolding atoi
format_int-not-nil p l u e = ground (arith, atoi-format_int p l u)

read_port-format_int : (p : ℤ) → pos 1 ≤ℤ p → p ≤ℤ pos 65535 → read_port (format_int p) ≡ some p
unfolding read_port
read_port-format_int p l u =
    ground (arith, atoi-format_int p, format_int-not-nil p, text_beq_iff (format_int p) [])

module _ {B E W : Type 0} (parse_time : Text → Option ℤ) (format_time : ℤ → Text)
    (by_query : List Event → HistoryQuery → B) (by_filter : List Event → QueryFilter → List Event)
    (sink : Sink E W) (empty : W) where
  -- A valid port in the form in which the CSV export prints it, sent back as the parameter of a GET
  -- request without `since` and `limit`, is read as that same port by both handlers: the history is
  -- selected from the ring for that port and the request's state, and the export for that port alone.
  pub handle-format_int :
      (ring : Ring) (r : Request) (p : ℤ)
      → pos 1 ≤ℤ p
      → p ≤ℤ pos 65535
      → r.method ≡ text "GET"
      → r.parameter (text "port") ≡ format_int p
      → r.parameter (text "since") ≡ []
      → r.parameter (text "limit") ≡ []
      → let format = export_format (r.parameter (text "format")) in
        (handle_history parse_time by_query ring r
          ≡ served (pos 200) json_type (
              by_query
                (snapshot ring)
                (record { port = p; since = pos 0; state = r.parameter (text "state") })))
        × (handle_export format_time sink empty by_filter ring r
            ≡ served
                (pos 200)
                (content_type format)
                (export format_time sink
                  (by_filter (snapshot ring) (record { port = p; limit = pos 0 }))
                  format
                  empty).1)
  unfolding handle_history handle_export read_since read_limit write_json text_beq
  handle-format_int ring r p l u get port since limit =
      let e : read_port (format_int p) ≡ some p = read_port-format_int p l u in
      (rw (get, port, e, since) refl, rw (get, port, e, limit) refl)

  -- An export in a format that is neither missing nor one of the two is answered with 200 and the type
  -- of JSON, and its body is empty.
  handle_export-unsupported :
      (ring : Ring) (r : Request) (p l : ℤ)
      → r.method ≡ text "GET"
      → read_port (r.parameter (text "port")) ≡ some p
      → read_limit (r.parameter (text "limit")) ≡ some l
      → r.parameter (text "format") ≢ []
      → r.parameter (text "format") ≢ format_json
      → r.parameter (text "format") ≢ format_csv
      → handle_export format_time sink empty by_filter ring r ≡ served (pos 200) json_type empty
  unfolding handle_export export text_beq
  handle_export-unsupported ring r p l get port limit some_ not_json not_csv = ground (
    arith,
    get,
    port,
    limit,
    text_beq_iff (r.parameter (text "format")) [],
    text_beq_iff (r.parameter (text "format")) format_json,
    text_beq_iff (r.parameter (text "format")) format_csv,
  )
