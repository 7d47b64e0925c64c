-- ===== src/Repositories/Analytics.antt =====
-- api/app/repositories/analytics_repo.py
-- The functions of PostgreSQL on a time zone and a timestamp are parameters. Groups that ORDER BY does not
-- tell apart stand in an order of the model's choice, where PostgreSQL promises none.
pub mod Days
use proyecto_1_back.Prelude.{
  ℕ, ◌+◌, ◌-◌, ◌*◌, ◌/◌, ◌%◌, Bool, true, not, ◌&&◌, Option, none, some, List, filter, length, take,
  leb, ltb, ◌==◌, if◌then◌else◌,
}
use proyecto_1_back.Text.{Text, text_eq}
use proyecto_1_back.Models.{Uuid, Time, ScanEvent, Db}
use proyecto_1_back.Sql.{order_by}
use proyecto_1_back.Sql.Groups.{Group, group_by}

-- What the program asks of PostgreSQL's and Python's calendars.
pub record Calendar : Type 0 where
  -- `func.date_trunc(granularity, timestamp)`
  pub date_trunc : Text → Time → Time
  -- `extract("hour", timestamp)`
  pub hour_of : Time → ℕ
  -- `timestamp.isoformat()`
  pub isoformat : Time → Text

-- A `datetime` with a time zone: the instant, and what its wall clock shows, both in microseconds.
pub record Datetime : Type 0 where
  pub instant : Time
  pub wall : Time

-- one day of `timedelta`, in microseconds
abbrev pub day : ℕ
day = 86400000000

unfoldable pub is_midnight : Datetime → Bool
is_midnight dt =
    (dt.wall / 3600000000 % 24 == 0)
    && (dt.wall / 60000000 % 60 == 0)
    && (dt.wall / 1000000 % 60 == 0)
    && (dt.wall % 1000000 == 0)

-- `_end_of_day`
unfoldable pub end_of_day : Datetime → Datetime
unfolding is_midnight
end_of_day dt =
    if is_midnight dt
    then record { instant = dt.instant + day - 1; wall = dt.wall + day - 1 }
    else dt

unfoldable pub after_from : Option Datetime → ScanEvent → Bool
after_from none e = true
after_from (some from_date) e = leb from_date.instant e.timestamp

unfoldable pub before_to : Option Datetime → ScanEvent → Bool
unfolding end_of_day
before_to none e = true
before_to (some to_date) e = leb e.timestamp (end_of_day to_date).instant

-- the rows that the five queries start from
unfoldable pub scans_in : Uuid → Option Datetime → Option Datetime → Db → List ScanEvent
unfolding after_from before_to
scans_in restaurant_id from_date to_date db =
    filter
      (λ e. (e.restaurant_id == restaurant_id) && after_from from_date e && before_to to_date e)
      db.scan_events

unfoldable pub get_total_scans : Uuid → Option Datetime → Option Datetime → Db → ℕ
unfolding scans_in
get_total_scans restaurant_id from_date to_date db =
    length (scans_in restaurant_id from_date to_date db)

-- ORDER BY the key, and ORDER BY the count DESC
abbrev pub earlier_key : Group ℕ → Group ℕ → Bool
earlier_key g h = leb g.key h.key

abbrev pub larger_count : {K : Type 0} → Group K → Group K → Bool
larger_count g h = leb h.count g.count

module _ (calendar : Calendar) where
  unfoldable pub get_scans_by_period :
      Uuid → Text → Option Datetime → Option Datetime → Db → List (Group Time)
  unfolding scans_in group_by order_by
  get_scans_by_period restaurant_id granularity from_date to_date db = order_by earlier_key (
      group_by ◌==◌ (λ e. calendar.date_trunc granularity e.timestamp)
        (scans_in restaurant_id from_date to_date db))

  unfoldable pub get_scans_by_hour : Uuid → Option Datetime → Option Datetime → Db → List (Group ℕ)
  unfolding scans_in group_by order_by
  get_scans_by_hour restaurant_id from_date to_date db = order_by earlier_key (
      group_by ◌==◌ (λ e. calendar.hour_of e.timestamp)
        (scans_in restaurant_id from_date to_date db))

unfoldable pub get_top_user_agents :
    Uuid → ℕ → Option Datetime → Option Datetime → Db → List (Group Text)
unfolding scans_in group_by order_by
get_top_user_agents restaurant_id limit from_date to_date db = take limit (
    order_by larger_count
      (group_by text_eq (λ e. e.user_agent) (scans_in restaurant_id from_date to_date db)))

abbrev pub newer : ScanEvent → ScanEvent → Bool
newer d e = leb e.timestamp d.timestamp

unfoldable pub get_scan_events_for_export :
    Uuid → Option Datetime → Option Datetime → Db → List ScanEvent
unfolding scans_in order_by
get_scan_events_for_export restaurant_id from_date to_date db =
    order_by newer (scans_in restaurant_id from_date to_date db)
