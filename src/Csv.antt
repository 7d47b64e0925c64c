-- ===== src/Csv.antt =====
-- api/app/utils/csv_export.py, with what it uses of Python's `csv.DictWriter`: the "excel" dialect, which
-- quotes a field that needs it (QUOTE_MINIMAL), and `extrasaction="ignore"`.
pub mod Reader
use proyecto_1_back.Prelude.{
  Bool, true, false, ◌||◌, Option, none, some, List, [], ◌∷◌, ◌++◌, map, any, ◌==◌, if◌then◌else◌,
}
use proyecto_1_back.Text.{Text, text_eq, codes}
use proyecto_1_back.Models.{Time, ScanEvent}

-- a value of a row: a `datetime`, or a text
pub data Value : Type 0 where
  datetime : Time → Value
  text : Text → Value

-- a dict, in the order of its keys
abbrev pub Dict : Type 0 → Type 0
Dict V = List (Text × V)

-- `row.get(key, "")`
unfoldable pub field_of : Text → Dict Text → Text
field_of key [] = []
field_of key ((k, v) ∷ row) = let rest = field_of key row in if text_eq k key then v else rest

-- a comma, a double quote, a carriage return or a line feed
unfoldable pub needs_quotes : Text → Bool
needs_quotes field = any (λ c. (c == 44) || (c == 34) || (c == 13) || (c == 10)) field

unfoldable pub double_quotes : Text → Text
double_quotes [] = []
double_quotes (c ∷ s) = let rest = double_quotes s in if c == 34 then 34 ∷ 34 ∷ rest else c ∷ rest

unfoldable pub write_field : Text → Text
unfolding needs_quotes double_quotes
write_field field = if needs_quotes field then 34 ∷ (double_quotes field ++ 34 ∷ []) else field

-- the fields after the first one, and "\r\n"
unfoldable pub write_fields : List Text → Text
unfolding write_field
write_fields [] = 13 ∷ 10 ∷ []
write_fields (field ∷ fields) = 44 ∷ (write_field field ++ write_fields fields)

-- a row whose only field is empty is quoted
unfoldable pub write_row : List Text → Text
unfolding write_field write_fields
write_row [] = 13 ∷ 10 ∷ []
write_row ([] ∷ []) = 34 ∷ 34 ∷ 13 ∷ 10 ∷ []
write_row (field ∷ fields) = write_field field ++ write_fields fields

module _ (isoformat : Time → Text) where
  unfoldable pub processed : Value → Text
  processed (datetime t) = isoformat t
  processed (text s) = s

  -- `writer.writerow(processed_row)`
  unfoldable pub row_fields : List Text → Dict Value → List Text
  unfolding field_of processed
  row_fields columns row =
      map (λ key. field_of key (map (λ kv. (kv.0, processed kv.1)) row)) columns

  unfoldable pub write_rows : List Text → List (Dict Value) → Text
  unfolding row_fields write_row
  write_rows columns [] = []
  write_rows columns (row ∷ rows) = write_row (row_fields columns row) ++ write_rows columns rows

  unfoldable pub export_to_csv : List (Dict Value) → List Text → Text
  unfolding write_rows write_row
  export_to_csv rows columns = write_row columns ++ write_rows columns rows

-- `event.referrer or ""`
unfoldable pub or_empty : Option Text → Text
or_empty none = []
or_empty (some s) = s

unfoldable pub scan_event_data : ScanEvent → Dict Value
unfolding or_empty
scan_event_data event =
    (codes "timestamp", datetime event.timestamp)
    ∷ (codes "user_agent", text event.user_agent)
    ∷ (codes "ip_hash", text event.ip_hash)
    ∷ (codes "referrer", text (or_empty event.referrer))
    ∷ []

unfoldable pub scan_events_to_csv_data : List ScanEvent → List (Dict Value)
unfolding scan_event_data
scan_events_to_csv_data scan_events = map scan_event_data scan_events
