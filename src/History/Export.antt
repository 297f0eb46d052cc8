-- ===== src/History/Export.antt =====
-- internal/history/export.go. The writers of encoding/csv and encoding/json over a state `W` that can
-- refuse with an `E`, and the layout of a time as RFC 3339 in UTC, are arguments. The state of an event
-- is a text, and is its own text.

pub mod Writer
pub mod Table
use portwatch.Base.{
  ℕ, ℤ, List, [], ◌∷◌, Text, text, text_eq, format_int, Option, none, some, ◌==◌, if◌then◌else◌,
}
use portwatch.History.Ring.{Event}

-- `ExportFormat` is the text itself.
abbrev pub format_json : Text
format_json = text "json"

abbrev pub format_csv : Text
format_csv = text "csv"

-- The local type of `ExportJSON`.
pub record Row : Type 0 where
  pub port : ℤ
  pub state : Text
  pub timestamp : Text

pub data ExportError (E : Type 0) : Type 0 where
  writing : E → ExportError E
  unsupported : Text → ExportError E

-- `csv.Writer` and `json.Encoder`.
pub record Sink (E W : Type 0) : Type 0 where
  pub write_record : List Text → W → Option E × W
  pub flush : W → W
  pub pending : W → Option E
  pub encode : List Row → W → Option E × W

abbrev as_error : {E : Type 0} → Option E → Option (ExportError E)
as_error none = none
as_error (some e) = some (writing e)

abbrev pub header : List Text
header = text "port" ∷ text "state" ∷ text "timestamp" ∷ []

module _ (format_time : ℤ → Text) where
  abbrev row_of : Event → Row
  row_of e = record { port = e.port; state = e.state; timestamp = format_time e.timestamp }

  -- `for i, e := range events { rows[i] = row{…} }`
  unfoldable pub rows_of : List Event → List Row
  rows_of [] = []
  rows_of (e ∷ events) = row_of e ∷ rows_of events

  abbrev pub record_of : Event → List Text
  record_of e = format_int e.port ∷ e.state ∷ format_time e.timestamp ∷ []

  module _ {E W : Type 0} (sink : Sink E W) where
    pub export_json : List Event → W → Option (ExportError E) × W
    export_json events w = let (e, w') = sink.encode (rows_of events) w in (as_error e, w')

    -- The loop over the events, and what follows it.
    pub write_events : List Event → W → Option (ExportError E) × W
    write_events [] w = let w' = sink.flush w in (as_error (sink.pending w'), w')
    write_events (e ∷ events) w =
        let (failure, w') = sink.write_record (record_of e) w in
        let later = write_events events w' in
        elim failure [ some err ↦ (some (writing err), w') | none ↦ later ]

    pub export_csv : List Event → W → Option (ExportError E) × W
    export_csv events w =
        let (failure, w') = sink.write_record header w in
        let later = write_events events w' in
        elim failure [ some err ↦ (some (writing err), w') | none ↦ later ]

    -- `Export`
    unfoldable pub export : List Event → Text → W → Option (ExportError E) × W
    export events format w =
        if format == format_json
        then export_json events w
        else if format == format_csv
        then export_csv events w
        else (some (unsupported format), w)
