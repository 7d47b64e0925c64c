-- ===== src/Services/Restaurants/FreeSlug.antt =====
-- `_ensure_unique_slug` of api/app/services/restaurant_service.py. The `while True` loop runs on fuel,
-- one round more than there are restaurants.
pub mod Terminates
use proyecto_1_back.Prelude.{
  ℕ, zero, suc, Bool, true, false, Option, none, some, length, ◌==◌, if◌then◌else◌,
}
use proyecto_1_back.Http.{Result, ok, err, out_of_fuel, ◌>>=◌}
use proyecto_1_back.Text.{Text}
use proyecto_1_back.Models.{Uuid, Restaurant, Db}
use proyecto_1_back.Slug.{candidate}
use proyecto_1_back.Repositories.Restaurants

-- `not existing or (exclude_id and existing.id == exclude_id)`
unfoldable pub is_usable : Option Uuid → Option Restaurant → Bool
is_usable exclude_id none = true
is_usable none (some existing) = false
is_usable (some exclude_id) (some existing) = existing.id == exclude_id

unfoldable pub search_slug : ℕ → ℕ → Text → Option Uuid → Db → Result Text
search_slug zero counter base_slug exclude_id db = err out_of_fuel
search_slug (suc fuel) counter base_slug exclude_id db =
    let next = search_slug fuel (suc counter) base_slug exclude_id db in
    do
      existing ← Restaurants.get_by_slug (candidate base_slug counter) db
      if is_usable exclude_id existing then ok (candidate base_slug counter) else next

unfoldable pub ensure_unique_slug : Text → Option Uuid → Db → Result Text
ensure_unique_slug base_slug exclude_id db =
    let suffixed = search_slug (suc (length db.restaurants)) 1 base_slug exclude_id db in
    do
      existing ← Restaurants.get_by_slug base_slug db
      if is_usable exclude_id existing then ok base_slug else suffixed
