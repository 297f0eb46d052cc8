-- ===== src/History/Export/Table.antt =====
-- What the CSV export writes, what it returns when the writer refuses, and that it can be read back.
use portwatch.Base.{
  ℕ, ◌≤◌, ◌<◌, ◌≡◌, ◌⊎◌, inl, inr, refl, ◌∙◌, sym, ℤ, ◌≤ℤ◌, min_duration, max_duration, List, [],
  ◌∷◌, ◌++◌, append_assoc, append-nil, length, take, All, Text, format_int, atoi, atoi-format_int,
  Option, none, some, arith,
}
use portwatch.History.Export.Writer.{
  CsvWriter, fresh, take_all, put, push_out, csv_sink, IsOpen, IsBroken, put_lem, push_out_lem,
  IsBroken-append,
}
use portwatch.History.Ring.{Event}
use portwatch.History.Export.{
  Row, ExportError, writing, rows_of, record_of, header, write_events, export_csv,
}

-- The lines of a table.
abbrev line_of : Row → List Text
line_of r = format_int r.port ∷ r.state ∷ r.timestamp ∷ []

abbrev pub lines_of : List Row → List (List Text)
lines_of [] = []
lines_of (r ∷ rows) = line_of r ∷ lines_of rows

-- The bytes of lines.
abbrev pub bytes_of : (List Text → Text) → List (List Text) → Text
bytes_of layout [] = []
bytes_of layout (line ∷ lines) = layout line ++ bytes_of layout lines

-- Reading a table back.
abbrev read_cells : Option ℤ → Text → Text → Option Row
read_cells none state timestamp = none
read_cells (some port) state timestamp =
    some (record { port = port; state = state; timestamp = timestamp })

abbrev read_line : List Text → Option Row
read_line (port ∷ state ∷ timestamp ∷ []) = read_cells (atoi port) state timestamp
read_line line = none

abbrev and_rows : Option Row → Option (List Row) → Option (List Row)
and_rows (some r) (some rows) = some (r ∷ rows)
and_rows r rows = none

abbrev pub read_lines : List (List Text) → Option (List Row)
read_lines [] = some []
read_lines (line ∷ lines) = and_rows (read_line line) (read_lines lines)

abbrev pub IsInt : Event → Type 0
IsInt e = (min_duration ≤ℤ e.port) × (e.port ≤ℤ max_duration)

module _ (format_time : ℤ → Text) where
  read_lines-lines_of :
      (events : List Event)
      → All IsInt events
      → read_lines (lines_of (rows_of format_time events)) ≡ some (rows_of format_time events)
  unfolding rows_of
  read_lines-lines_of [] h = refl
  read_lines-lines_of (e ∷ events) ((l, u), h) =
      rw (atoi-format_int e.port l u, read_lines-lines_of events h) refl

  module _ {E : Type 0} (full : E) (room : ℕ) (layout : List Text → Text)
      (spills : Text → List Text → ℕ)
      (encode : List Row → CsvWriter E → Option E × CsvWriter E) where
    -- What is returned, and written, of a text.
    abbrev pub Wrote : Option (ExportError E) × CsvWriter E → Text → Type 0
    Wrote (e, b) text =
        (b.out ≡ take room text)
        × (((e ≡ none) × (length text ≤ room)) ⊎ ((e ≡ some (writing full)) × (room < length text)))

    Wrote-IsBroken :
        (b : CsvWriter E) (text : Text)
        → IsBroken full room b text
        → Wrote (some (writing full), b) text
    Wrote-IsBroken b text k = (k.partly, inr (refl, k.exceeds))

    write_events_lem :
        (events : List Event) (b : CsvWriter E) (text : Text)
        → IsOpen full room b text
        → Wrote
            (write_events format_time (csv_sink full room layout spills encode) events b)
            (text ++ bytes_of layout (lines_of (rows_of format_time events)))
    unfolding write_events rows_of
    write_events_lem [] b text o = rw (append-nil text) (elim (push_out_lem full room b text o) [
      | inl (good, all, fits) ↦ rw good (all ∙ sym (take_all room text fits), inl (refl, fits))
      | inr k ↦ rw (k.bad) (Wrote-IsBroken (push_out full room b) text k)
    ])
    write_events_lem (e ∷ events) b text o =
        let line = record_of format_time e in
        let b' = put full room layout spills line b in
        let rest = bytes_of layout (lines_of (rows_of format_time events)) in
        rw (← append_assoc text (layout line) rest)
          (elim (put_lem full room layout spills line b text o) [
            | inl o' ↦
                rw (write_events, o'.good) (write_events_lem events b' (text ++ layout line) o')
            | inr k ↦
                rw (write_events, k.bad)
                  (Wrote-IsBroken b' ((text ++ layout line) ++ rest)
                    (IsBroken-append full room layout spills b' (text ++ layout line) rest k))
          ])

    -- The CSV export through a `csv.Writer`, whatever its buffer holds back, over a writer that takes so
    -- many bytes and refuses the rest with an error. The header and then one line for each row that the
    -- JSON export has, in order, are written up to the room that there is; nil is returned exactly if
    -- all of it fits, and the error of the writer below otherwise; and for events whose ports are
    -- 64-bit integers the rows are what reading the cells of the lines back gives.
    pub export_csv_lem :
        (events : List Event)
        → All IsInt events
        → let rows = rows_of format_time events in
          Wrote
            (export_csv format_time (csv_sink full room layout spills encode) events fresh)
            (bytes_of layout (header ∷ lines_of rows))
          × (read_lines (lines_of rows) ≡ some rows)
    unfolding export_csv
    export_csv_lem events h =
        let b = put full room layout spills header fresh in
        let rest = bytes_of layout (lines_of (rows_of format_time events)) in
        (
          elim (put_lem full room layout spills header fresh []
              (record { good = refl; all = refl; fits = omega arith })) [
                | inl o ↦ rw (export_csv, o.good) (write_events_lem events b (layout header) o)
                | inr k ↦
                    rw (export_csv, k.bad)
                      (Wrote-IsBroken b (layout header ++ rest)
                        (IsBroken-append full room layout spills b (layout header) rest k))
              ],
          read_lines-lines_of events h,
        )
