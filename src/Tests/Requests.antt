-- ===== src/Tests/Requests.antt =====
-- The export and the HTTP handlers.
use portwatch.Base.{
  int_eq, last_n, take, length, ◌-◌, ◌++◌, ℕ, ◌≡◌, ◌≢◌, ◌⊎◌, refl, ℤ, pos, List, [], ◌∷◌, Text,
  text, text_eq, text_beq, ◌==◌, if◌then◌else◌, format_int, Option, none, some, arith,
}
use portwatch.History.Ring.{Event, Ring, snapshot, new_ring, record_event, record_all, stamps}
use portwatch.History.Export.{Row, rows_of, header, export_csv, export}
use portwatch.History.Export.Writer.{CsvWriter, fresh, csv_sink}
use portwatch.History.Export.Table.{bytes_of, lines_of, read_lines, Wrote, export_csv_lem}
use portwatch.Api.{
  Request, moved, served, json_type, HistoryQuery, QueryFilter, handle_history, handle_export,
  export_format, content_type,
}
use portwatch.Api.Server.{new_server, respond}
use portwatch.Api.Answers.{AnsweredAt, respond-record_all}
use portwatch.Api.Ports.{handle-format_int}
use portwatch.Api.Served.{handle_export-record_all}

abbrev opened : Event
opened = record { port = pos 8080; host = text "a"; state = text "open"; timestamp = pos 5 }

abbrev closed : Event
closed = record { port = pos 22; host = text "b"; state = text "closed"; timestamp = pos 6 }

abbrev events : List Event
events = opened ∷ closed ∷ []

abbrev show : ℤ → Text
show t = format_int t

abbrev full : ℕ
full = 7

-- A comma behind every cell, and an end of line.
abbrev commas : List Text → Text
commas [] = 10 ∷ []
commas (cell ∷ cells) = cell ++ 44 ∷ commas cells

-- Whatever is buffered beyond 16 bytes is handed on.
abbrev beyond : Text → List Text → ℕ
beyond buffer line = length (buffer ++ commas line) - 16

abbrev no_json : List Row → CsvWriter ℕ → Option ℕ × CsvWriter ℕ
no_json rows b = (none, b)

-- Room for the header and for one event only; the failure shows in the last flush.
export_csv_lem_example :
    let rows = rows_of show events in
    Wrote show full 40 commas beyond no_json
      (export_csv show (csv_sink full 40 commas beyond no_json) events fresh)
      (bytes_of commas (header ∷ lines_of rows))
    × (read_lines (lines_of rows) ≡ some rows)
export_csv_lem_example =
    export_csv_lem show full 40 commas beyond no_json events
      ((omega arith, omega arith), ((omega arith, omega arith), tt))

abbrev get : Text → Request
get port = record {
  method = text "GET";
  parameter = λ key. if key == text "port" then port else [];
}

abbrev no_time : Text → Option ℤ
no_time s = none

abbrev pair : List Event → HistoryQuery → List Event × HistoryQuery
pair es q = (es, q)

abbrev all_of : List Event → QueryFilter → List Event
all_of es f = es

abbrev ring : Ring
ring = record_event (new_ring (pos 4)) (pos 9) opened

handle-format_int_example :
    let r = get (format_int (pos 8080)) in
    let format = export_format [] in
    (handle_history no_time pair ring r
      ≡ served
          (pos 200)
          json_type
          (pair (snapshot ring) (record { port = pos 8080; since = pos 0; state = [] })))
    × (handle_export show (csv_sink full 40 commas beyond no_json) fresh all_of ring r
        ≡ served
            (pos 200)
            (content_type format)
            (export show
              (csv_sink full 40 commas beyond no_json)
              (all_of (snapshot ring) (record { port = pos 8080; limit = pos 0 }))
              format
              fresh).1)
unfolding format_int text_beq
handle-format_int_example =
    handle-format_int no_time show pair all_of (csv_sink full 40 commas beyond no_json) fresh ring
      (get (format_int (pos 8080))) (pos 8080) (omega arith) (omega arith) refl refl refl refl

abbrev for_csv : Request
for_csv = record {
  method = text "GET";
  parameter = λ key. if key == text "format" then text "csv" else [];
}

abbrev recorded : List (ℤ × Event)
recorded = (pos 9, opened) ∷ (pos 9, closed) ∷ (pos 9, opened) ∷ []

abbrev select : List Event → QueryFilter → List Event
select es f = if f.limit == pos 0 then es else []

-- A ring for two of the three events.
handle_export-record_all_example :
    let rows = rows_of show (last_n 2 (stamps recorded)) in
    ((b : CsvWriter ℕ) × (handle_export show
          (csv_sink full 40 commas beyond no_json)
          fresh
          select
          (record_all (new_ring (pos 2)) recorded)
          for_csv
        ≡ served (pos 200) (text "text/csv") b)
      × (b.out ≡ take 40 (bytes_of commas (header ∷ lines_of rows))))
    × (read_lines (lines_of rows) ≡ some rows)
unfolding text_beq
handle_export-record_all_example =
    handle_export-record_all full 40 commas beyond no_json show select (pos 2) recorded for_csv
      (λ es. refl) refl refl refl refl
      ((omega arith, omega arith), ((omega arith, omega arith), tt))

-- Drops the first of two slashes that open a path.
abbrev one_slash : Text → Text
one_slash [] = []
one_slash (a ∷ []) = a ∷ []
one_slash (a ∷ b ∷ rest) = if text_beq (a ∷ b ∷ []) (text "//") then b ∷ rest else a ∷ b ∷ rest

-- A port that is none, after three events of which the ring holds two.
respond-record_all_example :
    let r = get (text "70000") in
    let server = new_server (record_all (new_ring (pos 2)) recorded) (text "states") in
    let answer = respond no_time pair one_slash server (text "/history") r in
    let kept = last_n 2 (stamps recorded) in
    ((text "GET" ≢ text "CONNECT")
      × (one_slash (text "/history") ≢ text "/history")
      × (answer ≡ moved (pos 301) (one_slash (text "/history"))))
    ⊎ (((text "GET" ≡ text "CONNECT") ⊎ (one_slash (text "/history") ≡ text "/history"))
        × AnsweredAt no_time pair kept (text "states") (text "/history") r answer)
respond-record_all_example =
    respond-record_all no_time pair one_slash (pos 2) recorded (text "states") (text "/history")
      (get (text "70000"))
