-- ===== src/Api/Served.antt =====
-- From the ring to the client: what a request for CSV gets after any history.
use portwatch.Base.{
  ℕ, ℤ, pos, ◌≡◌, refl, List, [], ◌∷◌, take, last_n, All, Text, text, text_beq, Option, some,
}
use portwatch.History.Ring.{Event, new_ring, record_all, effective_capacity, stamps}
use portwatch.History.Ring.Refine.{snapshot-record_all}
use portwatch.History.Export.{Row, export, export_csv, rows_of, header}
use portwatch.History.Export.Writer.{CsvWriter, fresh, csv_sink}
use portwatch.History.Export.Table.{bytes_of, lines_of, read_lines, IsInt, export_csv_lem}
use portwatch.Api.{Request, served, QueryFilter, handle_export, read_port, read_limit}

module _ {E : Type 0} (full : E) (room : ℕ) (layout : List Text → Text)
    (spills : Text → List Text → ℕ) (encode : List Row → CsvWriter E → Option E × CsvWriter E)
    (format_time : ℤ → Text) where
  -- After any calls of `Record` on a ring of any capacity, a GET request for CSV without further
  -- parameters is answered with 200 and text/csv, whatever the `csv.Writer` holds back meanwhile. What
  -- reaches the client is the header and one line for each of the newest events that the ring can hold,
  -- oldest first, up to the room that its writer has, where `history.Query` selects everything if no
  -- port and no limit are given; and if the ports are 64-bit integers, reading the cells of these lines
  -- back gives the rows of exactly these events.
  pub handle_export-record_all :
      (select : List Event → QueryFilter → List Event) (capacity : ℤ) (calls : List (ℤ × Event))
      (r : Request)
      → ((es : List Event) → select es (record { port = pos 0; limit = pos 0 }) ≡ es)
      → r.method ≡ text "GET"
      → r.parameter (text "format") ≡ text "csv"
      → r.parameter (text "port") ≡ []
      → r.parameter (text "limit") ≡ []
      → All IsInt (last_n (effective_capacity capacity) (stamps calls))
      → let rows = rows_of format_time (last_n (effective_capacity capacity) (stamps calls)) in
        ((b : CsvWriter E) × (handle_export format_time
              (csv_sink full room layout spills encode)
              fresh
              select
              (record_all (new_ring capacity) calls)
              r
            ≡ served (pos 200) (text "text/csv") b)
          × (b.out ≡ take room (bytes_of layout (header ∷ lines_of rows))))
        × (read_lines (lines_of rows) ≡ some rows)
  unfolding handle_export export read_port read_limit text_beq
  handle_export-record_all select capacity calls r all get csv port limit ints =
      let kept = last_n (effective_capacity capacity) (stamps calls) in
      let sink = csv_sink full room layout spills encode in
      let table = export_csv_lem format_time full room layout spills encode kept ints in
      (
        (
          (export_csv format_time sink kept fresh).1,
          rw (get, port, limit, csv, all, (snapshot-record_all capacity calls).0) refl,
          table.0.0,
        ),
        table.1,
      )
