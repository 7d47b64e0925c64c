-- ===== src/Repositories/Analytics/Days.antt =====
-- `_end_of_day` of api/app/repositories/analytics_repo.py and the days that the filters take.
use proyecto_1_back.Prelude.{ℕ, ◌+◌, ◌-◌, ◌*◌, ◌/◌, ◌≡◌, ◌≤◌, ◌↔◌, refl, true, some, arith}
use proyecto_1_back.Models.{ScanEvent}
use proyecto_1_back.Repositories.Analytics.{Datetime, day, is_midnight, end_of_day, before_to}

midnight_wall : (dt : Datetime) → is_midnight dt ≡ true → dt.wall ≡ dt.wall / day * day
unfolding is_midnight
midnight_wall dt h = ground arith

end_of_midnight :
    (dt : Datetime)
    → is_midnight dt ≡ true
    → end_of_day dt ≡ record { instant = dt.instant + day - 1; wall = dt.wall + day - 1 }
unfolding end_of_day
end_of_midnight dt h = rw h refl

-- With a date as `to`, a midnight in a time zone that is `ahead` of UTC (or `behind` it), the filter
-- takes the scans of this day and of the days before it, as the clocks of the zone show them.
pub before_to-days :
    (to_date : Datetime) (ahead behind : ℕ) (e : ScanEvent)
    → is_midnight to_date ≡ true
    → to_date.wall + behind ≡ to_date.instant + ahead
    → behind ≤ e.timestamp + ahead
    → (before_to (some to_date) e ≡ true)
      ↔ ((e.timestamp + ahead - behind) / day ≤ to_date.wall / day)
unfolding before_to
before_to-days to_date ahead behind e h k b =
    rw (end_of_midnight to_date h) (ground (arith, midnight_wall to_date h))
