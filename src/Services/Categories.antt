-- ===== src/Services/Categories.antt =====
-- api/app/services/category_service.py
pub mod Ownership
pub mod Outcomes
pub mod Accepted
pub mod Deleted
pub mod Reordered
use proyecto_1_back.Prelude.{
  ℕ, Bool, not, ◌||◌, Option, none, some, List, [], ◌∷◌, ◌==◌, if◌then◌else◌,
}
use proyecto_1_back.Http.{
  Exc, http, category_outside, Result, ok, err, not_found, forbidden, conflict,
}
use proyecto_1_back.Models.{Uuid, Time, Restaurant, Category, Db, Defaults}
use proyecto_1_back.Schemas.{CategoryCreate, CategoryUpdate}
use proyecto_1_back.App.{
  World, Exec, pure, raise_if, lift, query, commit, or_raise, on_cache, ◌>>=◌, ◌>>◌,
}
use proyecto_1_back.Repositories.Restaurants
use proyecto_1_back.Repositories.Categories as Rows
use proyecto_1_back.Services.Restaurants.{get_by_owner, forget_menus}

-- A method begins with the restaurant of the user, or 404: the same lines as `get_by_owner` of the
-- restaurant service.

unfoldable pub verify_restaurant_ownership : Uuid → Uuid → Exec (Unit {0})
verify_restaurant_ownership restaurant_id owner_user_id = do
  found ← query (Restaurants.get_by_id restaurant_id)
  restaurant ← or_raise found (not_found "Restaurant not found")
  raise_if (not (restaurant.owner_user_id == owner_user_id))
      (forbidden "Not authorized to access this restaurant")

unfoldable pub list_categories : Uuid → Bool → Exec (List Category)
unfolding get_by_owner
list_categories owner_user_id active_only = do
  restaurant ← get_by_owner owner_user_id
  query (λ db. ok (Rows.list_by_restaurant restaurant.id active_only db))

unfoldable pub create : Defaults → Uuid → CategoryCreate → Exec Category
unfolding get_by_owner
create d owner_user_id body = do
  restaurant ← get_by_owner owner_user_id
  category ← commit (Rows.create d restaurant.id body.name body.description none body.active)
  forget_menus
  pure category

-- the category, if it is there and the user's
unfoldable pub owned_category : Uuid → Uuid → Exec Category
unfolding verify_restaurant_ownership
owned_category category_id owner_user_id = do
  found ← query (Rows.get_by_id category_id)
  category ← or_raise found (not_found "Category not found")
  verify_restaurant_ownership category.restaurant_id owner_user_id
  pure category

unfoldable pub update : Option Time → Uuid → Uuid → CategoryUpdate → Exec Category
unfolding owned_category
update stamp category_id owner_user_id body = do
  category ← owned_category category_id owner_user_id
  result ← commit (Rows.update stamp category body)
  forget_menus
  pure result

unfoldable pub delete : Uuid → Uuid → Exec (Unit {0})
unfolding owned_category
delete category_id owner_user_id = do
  category ← owned_category category_id owner_user_id
  active ← query (λ db. ok (Rows.has_active_dishes category_id db))
  raise_if active (conflict "Cannot delete category with active dishes")
  commit (Rows.delete category)
  forget_menus

-- `not category or category.restaurant_id != restaurant.id`
unfoldable pub is_foreign : Uuid → Option Category → Bool
is_foreign restaurant_id none = Bool.true
is_foreign restaurant_id (some category) = not (category.restaurant_id == restaurant_id)

-- the loop that verifies every id before anything is written
unfoldable pub verify_all : Uuid → List Uuid → Exec (Unit {0})
unfolding is_foreign
verify_all restaurant_id [] = pure tt
verify_all restaurant_id (category_id ∷ rest) = do
  category ← query (Rows.get_by_id category_id)
  raise_if (is_foreign restaurant_id category) (http 400 (category_outside category_id))
  verify_all restaurant_id rest

unfoldable pub reorder : (ℕ → Time) → Uuid → List Uuid → Exec (Unit {0})
unfolding get_by_owner verify_all
reorder clock owner_user_id ordered_ids = do
  restaurant ← get_by_owner owner_user_id
  verify_all restaurant.id ordered_ids
  commit (Rows.reorder_categories clock restaurant.id ordered_ids)
  forget_menus
