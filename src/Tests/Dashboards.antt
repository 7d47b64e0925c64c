-- ===== src/Tests/Dashboards.antt =====
-- The dashboard and the export of a restaurant with three scans.
use proyecto_1_back.Prelude.{
  ℕ, ◌≡◌, ◌≤◌, ◌↔◌, ◌+◌, ◌-◌, ◌/◌, refl, true, none, some, [], ◌∷◌, arith, map,
}
use proyecto_1_back.Http.{ok}
use proyecto_1_back.Text.{Text, codes}
use proyecto_1_back.Models.{ScanEvent, Time}
use proyecto_1_back.App.{World}
use proyecto_1_back.Schemas.Analytics.{AnalyticsResponse}
use proyecto_1_back.Sql.{order_by}
use proyecto_1_back.Repositories.Analytics.{Calendar, Datetime, scans_in, day, before_to, newer}
use proyecto_1_back.Repositories.Analytics.Days.{before_to-days}
use proyecto_1_back.Services.Analytics.{get_analytics, export_analytics, columns}
use proyecto_1_back.Services.Analytics.Totals.{AddsUp, get_analytics-AddsUp}
use proyecto_1_back.Services.Analytics.Export.{export_analytics_reads_back, line_of}
use proyecto_1_back.Csv.Reader.{read_csv}
use proyecto_1_back.Tests.Sample.{world, stored}

abbrev calendar : Calendar
calendar = record {
  date_trunc = λ granularity t. t / day;
  hour_of = λ t. t / 3600000000;
  isoformat = λ t. t ∷ [];
}

abbrev scan_at : ℕ → Time → ScanEvent
scan_at id t = record {
  id = id;
  restaurant_id = 10;
  timestamp = t;
  user_agent = codes "a \"b\", c";
  ip_hash = codes "h";
  referrer = none;
}

abbrev visited : World
visited = record world {
  db = record stored { scan_events = scan_at 70 5 ∷ scan_at 71 3600000007 ∷ scan_at 72 9 ∷ [] };
}

-- midnight of the second day, in UTC
abbrev second_day : Datetime
second_day = record { instant = 86400000000; wall = 86400000000 }

get_analytics-AddsUp_example :
    (r : AnalyticsResponse) × (get_analytics calendar 1
        (codes "week")
        none
        (some second_day)
        visited
      ≡ (ok r, visited))
    × AddsUp (scans_in 10 none (some second_day) visited.db) calendar.hour_of r
unfolding proyecto_1_back.Repositories.Restaurants.get_by_owner_id
get_analytics-AddsUp_example =
    get_analytics-AddsUp calendar 1 (codes "week") none (some second_day) visited
      proyecto_1_back.Tests.Sample.bar refl

export_analytics_reads_back_example :
    (csv : Text) × (export_analytics calendar 1 none (some second_day) visited ≡ (ok csv, visited))
    × (read_csv csv
        ≡ columns
          ∷ map
              (line_of calendar.isoformat)
              (order_by newer (scans_in 10 none (some second_day) visited.db)))
unfolding proyecto_1_back.Repositories.Restaurants.get_by_owner_id
export_analytics_reads_back_example =
    export_analytics_reads_back calendar 1 none (some second_day) visited
      proyecto_1_back.Tests.Sample.bar refl

before_to-days_example :
    (before_to (some second_day) (scan_at 70 86400000001) ≡ true)
    ↔ ((86400000001 + 0 - 0) / day ≤ 86400000000 / day)
unfolding proyecto_1_back.Repositories.Analytics.is_midnight
before_to-days_example =
    before_to-days second_day 0 0 (scan_at 70 86400000001) refl refl (omega arith)
