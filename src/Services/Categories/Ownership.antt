-- ===== src/Services/Categories/Ownership.antt =====
-- What the checks of the category service have shown when they pass.
use proyecto_1_back.Prelude.{
  ◌≡◌, refl, ap, ◌∙◌, false, not, Option, none, some, List, [], ◌∷◌, All, ◌==◌, arith, inr,
}
use mathlib.Core.List.{Memᴰ}
use proyecto_1_back.Http.{http, category_outside, ok, not_found, forbidden}
use proyecto_1_back.Models.{Uuid, Restaurant, Category, Db}
use proyecto_1_back.Sql.{scalar_one_or_none}
use proyecto_1_back.Sql.Laws.{scalar_some}
use proyecto_1_back.Sql.Members.{unique_row, found_row}
use proyecto_1_back.Consistency.{UniqueId}
use proyecto_1_back.App.{World, raise_if}
use proyecto_1_back.App.Steps.{
  Reading, bind-Reading, after_query, after_or_raise, weaken-Reading, raise_if-Reading,
}
use proyecto_1_back.Repositories.Restaurants
use proyecto_1_back.Repositories.Categories as Rows
use proyecto_1_back.Services.Categories.{
  verify_restaurant_ownership, owned_category, is_foreign, verify_all,
}

-- A row of the category is there, and the row of its restaurant, which the user owns.
pub record Held (db : Db) (owner_user_id category_id : Uuid) : Type 0 where
  pub category : Category
  pub restaurant : Restaurant
  pub there : Memᴰ category db.categories
  pub is : category.id ≡ category_id
  pub restaurant_there : Memᴰ restaurant db.restaurants
  pub inside : restaurant.id ≡ category.restaurant_id
  pub owner : restaurant.owner_user_id ≡ owner_user_id

-- The category is found, in a restaurant of the user.
pub record OwnCategory (db : Db) (owner_user_id category_id : Uuid) : Type 0 where
  pub category : Category
  pub restaurant : Restaurant
  pub category_found : Rows.get_by_id category_id db ≡ ok (some category)
  pub restaurant_found : Restaurants.get_by_id category.restaurant_id db ≡ ok (some restaurant)
  pub owner : restaurant.owner_user_id ≡ owner_user_id

-- a category of the restaurant has this id
pub record IsOf (db : Db) (restaurant_id category_id : Uuid) : Type 0 where
  pub category : Category
  pub found : Rows.get_by_id category_id db ≡ ok (some category)
  pub inside : category.restaurant_id ≡ restaurant_id

-- with unique ids the queries find what is there
pub Held-OwnCategory :
    (db : Db) (owner_user_id category_id : Uuid)
    → UniqueId (λ c. c.id) db.categories
    → UniqueId (λ r. r.id) db.restaurants
    → Held db owner_user_id category_id
    → OwnCategory db owner_user_id category_id
unfolding Rows.get_by_id Restaurants.get_by_id
Held-OwnCategory db owner_user_id category_id cs rs h = record {
  category = h.category;
  restaurant = h.restaurant;
  category_found =
      ap scalar_one_or_none
        (unique_row (λ c. c.id) category_id h.category db.categories cs h.there h.is);
  restaurant_found = ap scalar_one_or_none (
      unique_row (λ r. r.id) h.category.restaurant_id h.restaurant db.restaurants rs
        h.restaurant_there h.inside);
  owner = h.owner;
}

pub found_category :
    (db : Db) (category_id : Uuid) (c : Category)
    → Rows.get_by_id category_id db ≡ ok (some c)
    → Memᴰ c db.categories × (c.id ≡ category_id)
unfolding Rows.get_by_id
found_category db category_id c h =
    found_row (λ x. x.id) category_id c db.categories (scalar_some _ c h)

found_restaurant :
    (db : Db) (restaurant_id : Uuid) (r : Restaurant)
    → Restaurants.get_by_id restaurant_id db ≡ ok (some r)
    → Memᴰ r db.restaurants × (r.id ≡ restaurant_id)
unfolding Restaurants.get_by_id
found_restaurant db restaurant_id r h =
    found_row (λ x. x.id) restaurant_id r db.restaurants (scalar_some _ r h)

-- what the queries find is there
pub OwnCategory-Held :
    (db : Db) (owner_user_id category_id : Uuid)
    → OwnCategory db owner_user_id category_id
    → Held db owner_user_id category_id
OwnCategory-Held db owner_user_id category_id o =
    let here = found_category db category_id o.category o.category_found in
    let over = found_restaurant db o.category.restaurant_id o.restaurant o.restaurant_found in
    record {
      category = o.category;
      restaurant = o.restaurant;
      there = here.0;
      is = here.1;
      restaurant_there = over.0;
      inside = over.1;
      owner = o.owner;
    }

same_owner : (a b : Uuid) → not (a == b) ≡ false → a ≡ b
same_owner a b h = ground arith

not_foreign :
    (restaurant_id : Uuid) (o : Option Category)
    → is_foreign restaurant_id o ≡ false
    → (c : Category) × (o ≡ some c) × (c.restaurant_id ≡ restaurant_id)
unfolding is_foreign
not_foreign restaurant_id none h = cc
not_foreign restaurant_id (some c) h = (c, refl, ground arith)

module _ (w : World) where
  verify-Reading :
      (restaurant_id owner_user_id : Uuid)
      → Reading (verify_restaurant_ownership restaurant_id owner_user_id) w (λ _.
        (r : Restaurant) × (Restaurants.get_by_id restaurant_id w.db ≡ ok (some r))
        × (r.owner_user_id ≡ owner_user_id))
  unfolding verify_restaurant_ownership
  verify-Reading restaurant_id owner_user_id =
      after_query (Restaurants.get_by_id restaurant_id) _ w λ found e.
        after_or_raise found (not_found "Restaurant not found") _ w λ r is.
          let test = not (r.owner_user_id == owner_user_id) in
          let refusal = forbidden "Not authorized to access this restaurant" in
          weaken-Reading
            (λ _.
              (r : Restaurant) × (Restaurants.get_by_id restaurant_id w.db ≡ ok (some r))
              × (r.owner_user_id ≡ owner_user_id))
            (raise_if test refusal) w (raise_if-Reading test refusal w)
            λ _ passed. (r, e ∙ ap ok is, same_owner r.owner_user_id owner_user_id passed)

  pub owned_category-Reading :
      (category_id owner_user_id : Uuid)
      → Reading
          (owned_category category_id owner_user_id)
          w
          (λ c. (g : OwnCategory w.db owner_user_id category_id) × (g.category ≡ c))
  unfolding owned_category
  owned_category-Reading category_id owner_user_id =
      after_query (Rows.get_by_id category_id) _ w λ found e.
        after_or_raise found (not_found "Category not found") _ w λ c is.
          bind-Reading (verify_restaurant_ownership c.restaurant_id owner_user_id) _ w
            (verify-Reading c.restaurant_id owner_user_id)
            λ _ (r, here, mine). inr (
              c,
              refl,
              (
                record {
                  category = c;
                  restaurant = r;
                  category_found = e ∙ ap ok is;
                  restaurant_found = here;
                  owner = mine;
                },
                refl,
              ),
            )

  pub verify_all-Reading :
      (restaurant_id : Uuid) (ids : List Uuid)
      → Reading (verify_all restaurant_id ids) w (λ _. All (IsOf w.db restaurant_id) ids)
  unfolding verify_all
  verify_all-Reading restaurant_id [] = inr (tt, refl, tt)
  verify_all-Reading restaurant_id (category_id ∷ rest) =
      let later = verify_all-Reading restaurant_id rest in
      after_query (Rows.get_by_id category_id) _ w λ o e.
        let refusal = http 400 (category_outside category_id) in
        bind-Reading (raise_if (is_foreign restaurant_id o) refusal) _ w
          (raise_if-Reading (is_foreign restaurant_id o) refusal w)
          λ _ passed.
            let (c, is, inside) = not_foreign restaurant_id o passed in
            weaken-Reading (λ _. All (IsOf w.db restaurant_id) (category_id ∷ rest))
              (verify_all restaurant_id rest) w later
              λ _ all. (record { category = c; found = e ∙ ap ok is; inside = inside }, all)
