-- ===== src/Services/Dishes/Ownership.antt =====
-- What the checks of the dish service have shown when they pass.
use proyecto_1_back.Prelude.{◌≡◌, refl, ap, ◌∙◌, false, Option, none, some, arith, inr}
use proyecto_1_back.Http.{ok, not_found, forbidden}
use proyecto_1_back.Models.{Uuid, Restaurant, Category, Dish, Db}
use proyecto_1_back.Schemas.{Patch, unset, null, set}
use proyecto_1_back.App.{World, raise_if}
use proyecto_1_back.App.Steps.{
  Reading, bind-Reading, after_query, after_or_raise, weaken-Reading, raise_if-Reading,
}
use proyecto_1_back.Repositories.Restaurants
use proyecto_1_back.Repositories.Dishes as Rows
use proyecto_1_back.Services.Dishes.{
  is_stranger, category_by, verify_category_ownership, get_dish, verify_target, verify_filter,
}

-- The category is there, its restaurant too, and the restaurant is the user's.
pub record Owns (db : Db) (owner_user_id : Uuid) (category_id : Option Uuid) : Type 0 where
  pub category : Category
  pub restaurant : Restaurant
  pub category_found : category_by category_id db ≡ ok (some category)
  pub restaurant_found : Restaurants.get_by_id category.restaurant_id db ≡ ok (some restaurant)
  pub owner : restaurant.owner_user_id ≡ owner_user_id

-- The dish is there, not deleted, in a category that the user owns.
pub record OwnsDish (db : Db) (owner_user_id dish_id : Uuid) : Type 0 where
  pub dish : Dish
  pub dish_found : Rows.get_by_id dish_id false db ≡ ok (some dish)
  pub owns : Owns db owner_user_id (some dish.category_id)

-- what a dish update has checked of its new category
abbrev pub OwnsTarget : Db → Uuid → Patch Uuid → Type 0
OwnsTarget db owner_user_id unset = Unit {0}
OwnsTarget db owner_user_id null = Owns db owner_user_id none
OwnsTarget db owner_user_id (set category_id) = Owns db owner_user_id (some category_id)

not_stranger :
    (owner_user_id : Uuid) (o : Option Restaurant)
    → is_stranger owner_user_id o ≡ false
    → (r : Restaurant) × (o ≡ some r) × (r.owner_user_id ≡ owner_user_id)
unfolding is_stranger
not_stranger owner_user_id none h = cc
not_stranger owner_user_id (some r) h = (r, refl, ground arith)

module _ (w : World) (owner_user_id : Uuid) where
  pub verify-Reading :
      (category_id : Option Uuid)
      → Reading
          (verify_category_ownership category_id owner_user_id)
          w
          (λ _. Owns w.db owner_user_id category_id)
  unfolding verify_category_ownership
  verify-Reading category_id = after_query (category_by category_id) _ w λ found e.
      after_or_raise found (not_found "Category not found") _ w λ category is.
        after_query (Restaurants.get_by_id category.restaurant_id) _ w λ o f.
          weaken-Reading (λ _. Owns w.db owner_user_id category_id)
            (raise_if (is_stranger owner_user_id o)
              (forbidden "Not authorized to access this category"))
            w
            (raise_if-Reading (is_stranger owner_user_id o)
              (forbidden "Not authorized to access this category") w)
            λ _ passed.
              let (r, here, mine) = not_stranger owner_user_id o passed in
              record {
                category = category;
                restaurant = r;
                category_found = e ∙ ap ok is;
                restaurant_found = f ∙ ap ok here;
                owner = mine;
              }

  pub get_dish-Reading :
      (dish_id : Uuid)
      → Reading (get_dish dish_id owner_user_id) w (λ d.
        (Rows.get_by_id dish_id false w.db ≡ ok (some d))
        × Owns w.db owner_user_id (some d.category_id))
  unfolding get_dish
  get_dish-Reading dish_id = after_query (Rows.get_by_id dish_id false) _ w λ found e.
      after_or_raise found (not_found "Dish not found") _ w λ dish is.
        bind-Reading (verify_category_ownership (some dish.category_id) owner_user_id) _ w
          (verify-Reading (some dish.category_id)) λ _ owns. inr (dish, refl, (e ∙ ap ok is, owns))

  pub verify_target-Reading :
      (target : Patch Uuid)
      → Reading (verify_target target owner_user_id) w (λ _. OwnsTarget w.db owner_user_id target)
  unfolding verify_target
  verify_target-Reading unset = inr (tt, refl, tt)
  verify_target-Reading null = verify-Reading none
  verify_target-Reading (set category_id) = verify-Reading (some category_id)

  pub verify_filter-Reading :
      (category_id : Option Uuid)
      → Reading (verify_filter category_id owner_user_id) w (λ _. Unit {0})
  unfolding verify_filter
  verify_filter-Reading none = inr (tt, refl, tt)
  verify_filter-Reading (some category_id) =
      weaken-Reading (λ _. Unit {0}) (verify_category_ownership (some category_id) owner_user_id) w
        (verify-Reading (some category_id)) λ _ _. tt
