-- ===== src/Services/Analytics/Totals.antt =====
-- The numbers of a dashboard of api/app/services/analytics_service.py.
use proyecto_1_back.Prelude.{
  ℕ, ◌≡◌, ◌≤◌, ◌+◌, suc, refl, ◌∙◌, ap, Bool, Option, some, List, [], ◌∷◌, map, filter, length,
  length-take-le, take, arith, ◌==◌, ==_iff, leb, if◌then◌else◌,
}
use proyecto_1_back.Http.{ok}
use proyecto_1_back.Text.{Text, text_eq}
use proyecto_1_back.Models.{Uuid, Time, Restaurant, ScanEvent}
use proyecto_1_back.Schemas.Analytics.{AnalyticsResponse, TopUserAgent}
use proyecto_1_back.App.{World}
use proyecto_1_back.Sql.{order_by}
use proyecto_1_back.Sql.Sorted.{Sorted, order_by-Sorted, Sorted-take, Sorted-map}
use proyecto_1_back.Sql.Groups.{Group, group_by}
use proyecto_1_back.Sql.Groups.Sums.{
  sum, sum-order_by, sum-take-le, counts-group_by, counted-group_by,
}
use proyecto_1_back.Repositories.Restaurants as Rows
use proyecto_1_back.Repositories.Analytics.{
  Calendar, Datetime, scans_in, get_total_scans, get_scans_by_period, get_scans_by_hour,
  get_top_user_agents, earlier_key, larger_count,
}
use proyecto_1_back.Services.Analytics.{get_analytics, valid_granularity, dashboard}

module _ {A B : Type 0} (f : A → B) (size : B → ℕ) where
  sum-map : (xs : List A) → sum size (map f xs) ≡ sum (λ x. size (f x)) xs
  sum-map [] = refl
  sum-map (x ∷ xs) = ap (λ n. size (f x) + n) (sum-map xs)

module _ {A B : Type 0} (f : A → B) where
  length-map : (xs : List A) → length (map f xs) ≡ length xs
  length-map [] = refl
  length-map (x ∷ xs) = ap suc (length-map xs)

abbrev pub more_scans : TopUserAgent → TopUserAgent → Bool
more_scans a b = leb b.count a.count

abbrev agent_of : Group Text → TopUserAgent
agent_of item = record { user_agent = item.key; count = item.count }

abbrev agents : List ScanEvent → List (Group Text)
agents scans = group_by text_eq (λ e. e.user_agent) scans

abbrev top_of : List (Group Text) → List TopUserAgent
top_of gs = map agent_of (take 5 (order_by larger_count gs))

top_sum : (gs : List (Group Text)) → sum (λ a. a.count) (top_of gs) ≤ sum (λ g. g.count) gs
top_sum gs =
    let sorted = order_by larger_count gs in
    omega (
      arith,
      sum-map agent_of (λ (a : TopUserAgent). a.count) (take 5 sorted),
      sum-take-le (λ (g : Group Text). g.count) 5 sorted,
      sum-order_by (λ (g : Group Text). g.count) larger_count gs,
    )

top_few : (gs : List (Group Text)) → length (top_of gs) ≤ 5
top_few gs =
    let sorted = order_by larger_count gs in
    omega (arith, length-map agent_of (take 5 sorted), length-take-le 5 sorted)

top_in_order : (gs : List (Group Text)) → Sorted more_scans (top_of gs)
top_in_order gs = Sorted-map _ more_scans (take 5 (order_by larger_count gs)) (
    Sorted-take larger_count 5 (order_by larger_count gs) (
      order_by-Sorted larger_count (λ x y h. ground (arith, h)) (λ x y z h k. ground (arith, h, k))
        gs))

-- The numbers of a response, about the scans that it is made from.
pub record AddsUp (scans : List ScanEvent) (hour_of : Time → ℕ) (r : AnalyticsResponse)
    : Type 0 where
  pub total : r.total_scans ≡ length scans
  pub by_period : sum (λ p. p.count) r.scans_by_period ≡ r.total_scans
  pub by_hour : sum (λ h. h.count) r.scans_by_hour ≡ r.total_scans
  -- each hour of the day counts the scans of this hour
  pub at_hour :
      (h : ℕ)
      → sum (λ item. if h == item.hour then item.count else 0) r.scans_by_hour
        ≡ length (filter (λ e. h == hour_of e.timestamp) scans)
  pub top : sum (λ a. a.count) r.top_user_agents ≤ r.total_scans
  pub top_length : length r.top_user_agents ≤ 5
  pub top_sorted : Sorted more_scans r.top_user_agents

-- The owner of a restaurant gets a dashboard, which leaves the state as it was: the total counts the scans
-- in the range, the counts by period and by hour add up to the total, the counts of each hour of the day
-- are the scans of this hour, and the top user agents are at most five, which together have at most
-- the total.
pub get_analytics-AddsUp :
    (calendar : Calendar) (u : Uuid) (granularity : Text) (from_date to_date : Option Datetime)
    (w : World) (restaurant : Restaurant)
    → Rows.get_by_owner_id u w.db ≡ ok (some restaurant)
    → (r : AnalyticsResponse) × (get_analytics calendar u granularity from_date to_date w
        ≡ (ok r, w))
      × AddsUp (scans_in restaurant.id from_date to_date w.db) calendar.hour_of r
unfolding get_analytics dashboard get_total_scans get_scans_by_period get_scans_by_hour
    get_top_user_agents
get_analytics-AddsUp calendar u granularity from_date to_date w restaurant h =
    let scans = scans_in restaurant.id from_date to_date w.db in
    rw h (
      dashboard calendar restaurant.id (valid_granularity granularity) from_date to_date w.db,
      refl,
      record {
        total = refl;
        by_period =
            sum-map _ (λ p. p.count) _
            ∙ sum-order_by (λ g. g.count) earlier_key _
            ∙ counts-group_by ◌==◌ _ scans;
        by_hour =
            sum-map _ (λ p. p.count) _
            ∙ sum-order_by (λ g. g.count) earlier_key _
            ∙ counts-group_by ◌==◌ _ scans;
        at_hour = λ k.
            sum-map _ _ _
            ∙ sum-order_by (λ g. if k == g.key then g.count else 0) earlier_key _
            ∙ counted-group_by ◌==◌ ==_iff (λ e. calendar.hour_of e.timestamp) k scans;
        top =
            rw⁻¹ (counts-group_by text_eq (λ (e : ScanEvent). e.user_agent) scans)
              (top_sum (agents scans));
        top_length = top_few (agents scans);
        top_sorted = top_in_order (agents scans);
      },
    )
