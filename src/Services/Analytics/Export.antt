-- ===== src/Services/Analytics/Export.antt =====
-- `export_analytics` of api/app/services/analytics_service.py, read back.
use proyecto_1_back.Prelude.{◌≡◌, refl, ap, ◌∙◌, Option, some, List, [], ◌∷◌, map}
use proyecto_1_back.Http.{ok}
use proyecto_1_back.Text.{Text, text_eq, codes}
use proyecto_1_back.Models.{Uuid, Time, Restaurant, ScanEvent}
use proyecto_1_back.App.{World}
use proyecto_1_back.Sql.{order_by}
use proyecto_1_back.Repositories.Restaurants as Rows
use proyecto_1_back.Repositories.Analytics.{
  Calendar, Datetime, scans_in, get_scan_events_for_export, newer,
}
use proyecto_1_back.Csv.{
  scan_events_to_csv_data, scan_event_data, row_fields, field_of, processed, or_empty,
}
use proyecto_1_back.Csv.Reader.{read_csv}
use proyecto_1_back.Csv.Reader.Fields.{read_csv-export_to_csv}
use proyecto_1_back.Services.Analytics.{export_analytics, columns}

-- the line of a scan
abbrev pub line_of : (Time → Text) → ScanEvent → List Text
line_of isoformat e = isoformat e.timestamp ∷ e.user_agent ∷ e.ip_hash ∷ or_empty e.referrer ∷ []

lines_of :
    (isoformat : Time → Text) (scans : List ScanEvent)
    → map (row_fields isoformat columns) (scan_events_to_csv_data scans)
      ≡ map (line_of isoformat) scans
unfolding row_fields scan_events_to_csv_data scan_event_data field_of processed text_eq
lines_of isoformat [] = refl
lines_of isoformat (e ∷ scans) =
    ap (λ (l : List (List Text)). line_of isoformat e ∷ l) (lines_of isoformat scans)

-- The owner of a restaurant gets a CSV text, which leaves the state as it was: read back as RFC 4180
-- describes, it is a header of four columns and then, the latest first, one line for each scan in
-- the range, with its time, user agent, hash and referrer, whatever characters these hold.
pub export_analytics_reads_back :
    (calendar : Calendar) (u : Uuid) (from_date to_date : Option Datetime) (w : World)
    (restaurant : Restaurant)
    → Rows.get_by_owner_id u w.db ≡ ok (some restaurant)
    → (csv : Text) × (export_analytics calendar u from_date to_date w ≡ (ok csv, w))
      × (read_csv csv
          ≡ columns
            ∷ map
                (line_of calendar.isoformat)
                (order_by newer (scans_in restaurant.id from_date to_date w.db)))
unfolding export_analytics get_scan_events_for_export
export_analytics_reads_back calendar u from_date to_date w restaurant h =
    let scans = order_by newer (scans_in restaurant.id from_date to_date w.db) in
    rw h (
      _,
      refl,
      read_csv-export_to_csv calendar.isoformat (codes "timestamp") _
            (scan_events_to_csv_data scans)
          ∙ ap (λ (l : List (List Text)). columns ∷ l) (lines_of calendar.isoformat scans),
    )
