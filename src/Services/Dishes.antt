-- ===== src/Services/Dishes.antt =====
-- api/app/services/dish_service.py
pub mod Ownership
pub mod Outcomes
pub mod Accepted
pub mod Created
use proyecto_1_back.Prelude.{
  ℕ, Bool, true, false, not, Option, none, some, List, ◌==◌, if◌then◌else◌,
}
use proyecto_1_back.Http.{Result, ok, err, not_found, forbidden}
use proyecto_1_back.Text.{Text}
use proyecto_1_back.Env.{Env}
use proyecto_1_back.Models.{Uuid, Time, Price, Restaurant, Category, Dish, Db, Defaults}
use proyecto_1_back.Schemas.{Patch, unset, null, set, DishCreate, DishUpdate, DishListResponse}
use proyecto_1_back.App.{
  World, Exec, pure, raise_if, lift, query, commit, or_raise, on_cache, ◌>>=◌, ◌>>◌,
}
use proyecto_1_back.Repositories.Restaurants
use proyecto_1_back.Repositories.Categories
use proyecto_1_back.Repositories.Dishes as Rows
use proyecto_1_back.Services.Restaurants.{get_by_owner, forget_menus}

-- `not restaurant or restaurant.owner_user_id != owner_user_id`
unfoldable pub is_stranger : Uuid → Option Restaurant → Bool
is_stranger owner_user_id none = true
is_stranger owner_user_id (some restaurant) = not (restaurant.owner_user_id == owner_user_id)

-- `id == None` is IS NULL, which no primary key is
unfoldable pub category_by : Option Uuid → Db → Result (Option Category)
category_by none db = ok none
category_by (some category_id) db = Categories.get_by_id category_id db

unfoldable pub verify_category_ownership : Option Uuid → Uuid → Exec (Unit {0})
unfolding is_stranger category_by
verify_category_ownership category_id owner_user_id = do
  found ← query (category_by category_id)
  category ← or_raise found (not_found "Category not found")
  restaurant ← query (Restaurants.get_by_id category.restaurant_id)
  raise_if (is_stranger owner_user_id restaurant)
      (forbidden "Not authorized to access this category")

-- `if category_id:`
unfoldable pub verify_filter : Option Uuid → Uuid → Exec (Unit {0})
unfolding verify_category_ownership
verify_filter none owner_user_id = pure tt
verify_filter (some category_id) owner_user_id =
    verify_category_ownership (some category_id) owner_user_id

-- The filter comes without the restaurant, which is the user's own.
unfoldable pub list_dishes : Env → Uuid → Rows.DishFilter → ℕ → ℕ → Exec DishListResponse
unfolding get_by_owner verify_filter
list_dishes env owner_user_id f limit offset = do
  restaurant ← get_by_owner owner_user_id
  verify_filter f.category_id owner_user_id
  found ← query (λ db. ok (
      Rows.list_dishes env
        (record f { restaurant_id = some restaurant.id; include_deleted = false }) limit offset db))
  pure (record { items = found.0; total = found.1; limit = limit; offset = offset })

unfoldable pub get_dish : Uuid → Uuid → Exec Dish
unfolding verify_category_ownership
get_dish dish_id owner_user_id = do
  found ← query (Rows.get_by_id dish_id false)
  dish ← or_raise found (not_found "Dish not found")
  verify_category_ownership (some dish.category_id) owner_user_id
  pure dish

unfoldable pub create : Defaults → Uuid → DishCreate → Exec Dish
unfolding verify_category_ownership
create d owner_user_id body = do
  verify_category_ownership (some body.category_id) owner_user_id
  dish ← commit (Rows.create d body none)
  forget_menus
  pure dish

-- `if "category_id" in update_data:`
unfoldable pub verify_target : Patch Uuid → Uuid → Exec (Unit {0})
unfolding verify_category_ownership
verify_target unset owner_user_id = pure tt
verify_target null owner_user_id = verify_category_ownership none owner_user_id
verify_target (set category_id) owner_user_id =
    verify_category_ownership (some category_id) owner_user_id

unfoldable pub update : Option Time → Uuid → Uuid → DishUpdate → Exec Dish
unfolding get_dish verify_target
update stamp dish_id owner_user_id body = do
  dish ← get_dish dish_id owner_user_id
  verify_target body.category_id owner_user_id
  result ← commit (Rows.update stamp dish body)
  forget_menus
  pure result

unfoldable pub delete : Time → Time → Uuid → Uuid → Exec Dish
unfolding get_dish
delete now stamp dish_id owner_user_id = do
  dish ← get_dish dish_id owner_user_id
  result ← commit (Rows.soft_delete now stamp dish)
  forget_menus
  pure result

unfoldable pub toggle_availability : Time → Uuid → Uuid → Exec Dish
unfolding get_dish
toggle_availability stamp dish_id owner_user_id = do
  dish ← get_dish dish_id owner_user_id
  result ← commit (Rows.toggle_availability stamp dish)
  forget_menus
  pure result
