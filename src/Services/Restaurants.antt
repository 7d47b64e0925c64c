-- ===== src/Services/Restaurants.antt =====
-- api/app/services/restaurant_service.py
pub mod FreeSlug
pub mod Outcomes
pub mod Removed
pub mod Created
use proyecto_1_back.Prelude.{
  ℕ, zero, suc, Bool, true, false, Option, none, some, length, ◌==◌, if◌then◌else◌,
}
use proyecto_1_back.Http.{Exc, Result, ok, err, out_of_fuel, attribute_error, not_found, conflict}
use proyecto_1_back.Text.{Text, codes}
use proyecto_1_back.Env.{Env}
use proyecto_1_back.Models.{Uuid, Time, Restaurant, Db, Defaults}
use proyecto_1_back.Schemas.{Patch, unset, null, set, RestaurantCreate, RestaurantUpdate}
use proyecto_1_back.Slug.{generate_slug, candidate}
use proyecto_1_back.Cache.{cache_invalidate_prefix}
use proyecto_1_back.App.{
  World, Exec, pure, raise, raise_if, lift, query, commit, or_raise, on_cache, ◌>>=◌, ◌>>◌,
}
use proyecto_1_back.Repositories.Restaurants as Rows
use proyecto_1_back.Repositories.Users.{is_some}
use FreeSlug.{ensure_unique_slug}

-- `cache_invalidate_prefix("menu:")`
abbrev pub forget_menus : Exec (Unit {0})
forget_menus = on_cache (cache_invalidate_prefix (codes "menu:"))

unfoldable pub get_by_owner : Uuid → Exec Restaurant
get_by_owner owner_user_id = do
  restaurant ← query (Rows.get_by_owner_id owner_user_id)
  or_raise restaurant (not_found "Restaurant not found")

-- the default of `max_length`
abbrev pub slug_length : ℕ
slug_length = 100

-- the slug that an update writes: none when the name is not in the body
unfoldable pub new_slug : Env → Uuid → Patch Text → Exec (Patch Text)
new_slug env restaurant_id unset = pure unset
new_slug env restaurant_id null = raise attribute_error
new_slug env restaurant_id (set name) = do
  slug ← query (ensure_unique_slug (generate_slug env.wide name slug_length) (some restaurant_id))
  pure (set slug)

unfoldable pub create : Env → Defaults → Uuid → RestaurantCreate → Exec Restaurant
create env d owner_user_id body = do
  existing ← query (Rows.get_by_owner_id owner_user_id)
  raise_if (is_some existing) (conflict "User already has a restaurant")
  slug ← query (ensure_unique_slug (generate_slug env.wide body.name slug_length) none)
  commit (Rows.create d owner_user_id slug body)

unfoldable pub update : Env → Option Time → Uuid → RestaurantUpdate → Exec Restaurant
unfolding get_by_owner new_slug
update env stamp owner_user_id body = do
  restaurant ← get_by_owner owner_user_id
  slug ← new_slug env restaurant.id body.name
  updated ← commit (Rows.update stamp restaurant body slug)
  forget_menus
  pure updated

unfoldable pub delete : Uuid → Exec (Unit {0})
unfolding get_by_owner
delete owner_user_id = do
  restaurant ← get_by_owner owner_user_id
  commit (Rows.delete restaurant)
  forget_menus
