-- ===== src/Services/Analytics.antt =====
-- api/app/services/analytics_service.py
pub mod Totals
pub mod Export
use proyecto_1_back.Prelude.{ℕ, Bool, ◌||◌, Option, none, some, List, [], ◌∷◌, map, if◌then◌else◌}
use proyecto_1_back.Http.{Exc, Result, not_found}
use proyecto_1_back.Text.{Text, text_eq, codes}
use proyecto_1_back.Models.{Uuid, Time, Restaurant, Db}
use proyecto_1_back.Schemas.Analytics.{AnalyticsResponse}
use proyecto_1_back.App.{Exec, pure, query, or_raise, ◌>>=◌}
use proyecto_1_back.Repositories.Restaurants as Rows
use proyecto_1_back.Repositories.Analytics.{
  Calendar, Datetime, get_total_scans, get_scans_by_period, get_scans_by_hour, get_top_user_agents,
  get_scan_events_for_export,
}
use proyecto_1_back.Csv.{export_to_csv, scan_events_to_csv_data}

-- `if granularity not in ("day", "week", "month"): granularity = "day"`
unfoldable pub valid_granularity : Text → Text
valid_granularity granularity =
    if text_eq granularity (codes "day")
      || text_eq granularity (codes "week")
      || text_eq granularity (codes "month")
    then granularity
    else codes "day"

-- the columns of an export
abbrev pub columns : List Text
columns = codes "timestamp" ∷ codes "user_agent" ∷ codes "ip_hash" ∷ codes "referrer" ∷ []

module _ (calendar : Calendar) where
  -- the response for the scans of a restaurant
  unfoldable pub dashboard :
      Uuid → Text → Option Datetime → Option Datetime → Db → AnalyticsResponse
  dashboard restaurant_id granularity from_date to_date db = record {
    total_scans = get_total_scans restaurant_id from_date to_date db;
    scans_by_period =
        map (λ item. record { period = calendar.isoformat item.key; count = item.count })
          (get_scans_by_period calendar restaurant_id granularity from_date to_date db);
    scans_by_hour =
        map (λ item. record { hour = item.key; count = item.count })
          (get_scans_by_hour calendar restaurant_id from_date to_date db);
    top_user_agents =
        map (λ item. record { user_agent = item.key; count = item.count })
          (get_top_user_agents restaurant_id 5 from_date to_date db);
  }

  unfoldable pub get_analytics :
      Uuid → Text → Option Datetime → Option Datetime → Exec AnalyticsResponse
  unfolding valid_granularity dashboard
  get_analytics owner_user_id granularity from_date to_date = do
    found ← query (Rows.get_by_owner_id owner_user_id)
    restaurant ← or_raise found (not_found "Restaurant not found")
    λ w. pure (dashboard restaurant.id (valid_granularity granularity) from_date to_date w.db) w

  unfoldable pub export_analytics : Uuid → Option Datetime → Option Datetime → Exec Text
  export_analytics owner_user_id from_date to_date = do
    found ← query (Rows.get_by_owner_id owner_user_id)
    restaurant ← or_raise found (not_found "Restaurant not found")
    λ w.
        pure
          (export_to_csv calendar.isoformat
            (scan_events_to_csv_data
              (get_scan_events_for_export restaurant.id from_date to_date w.db))
            columns)
          w
