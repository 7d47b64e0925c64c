-- ===== src/Tests/Catalogue.antt =====
-- Calls of the restaurant and dish services.
use proyecto_1_back.Prelude.{◌≡◌, refl, ◌⊎◌, true, false, none, some, [], ◌∷◌}
use proyecto_1_back.Prelude.Int.{pos}
use mathlib.Core.List.{Memᴰ}
use proyecto_1_back.Http.{Exc, ok, err}
use proyecto_1_back.Text.{Text, codes}
use proyecto_1_back.Models.{User, Restaurant, Dish, Db}
use proyecto_1_back.App.{World}
use proyecto_1_back.Schemas.{RestaurantCreate, unset, set, DishCreate, DishUpdate}
use proyecto_1_back.Repositories.Categories as CategoryRows
use proyecto_1_back.Repositories.Categories.{positions_of, is_target}
use proyecto_1_back.Repositories.Dishes as DishRows
use proyecto_1_back.Repositories.Restaurants as RestaurantRows
use proyecto_1_back.Services.Settled.{Settled, forgotten}
use proyecto_1_back.Services.Restaurants.FreeSlug.{ensure_unique_slug}
use proyecto_1_back.Services.Restaurants.FreeSlug.Terminates.{
  ensure_unique_slug-Finds, Finds, same_slug,
}
use proyecto_1_back.Services.Restaurants
use proyecto_1_back.Services.Restaurants.Created.{create_of_newcomer, with_restaurant}
use proyecto_1_back.Services.Restaurants.Removed.{
  Removed, delete_restaurant_ends, delete_of_restaurant_owner,
}
use proyecto_1_back.Services.Dishes
use proyecto_1_back.Services.Dishes.Ownership.{Owns, OwnsDish, OwnsTarget}
use proyecto_1_back.Services.Dishes.Outcomes.{create_dish-Settled, update_dish-Settled}
use proyecto_1_back.Services.Dishes.Accepted.{toggle_availability_of_owner, delete_of_owner}
use proyecto_1_back.Sql.Distinct.{Distinct}
use proyecto_1_back.Tests.Sample.{ana, env, world, stored, defaults, bar, drinks, beer}

ensure_unique_slug-Finds_example : Finds (ensure_unique_slug (codes "bar") none stored) none stored
ensure_unique_slug-Finds_example = ensure_unique_slug-Finds (codes "bar") none stored (refl, tt)

bar_second : ensure_unique_slug (codes "bar") none stored ≡ ok (codes "bar-1")
unfolding ensure_unique_slug proyecto_1_back.Repositories.Restaurants.get_by_slug
    proyecto_1_back.Text.text_eq proyecto_1_back.Services.Restaurants.FreeSlug.is_usable
    proyecto_1_back.Services.Restaurants.FreeSlug.search_slug proyecto_1_back.Slug.candidate
    proyecto_1_back.Text.Decimal.decimal
bar_second = refl

bar_renamed : ensure_unique_slug (codes "bar") (some 10) stored ≡ ok (codes "bar")
unfolding ensure_unique_slug proyecto_1_back.Repositories.Restaurants.get_by_slug
    proyecto_1_back.Text.text_eq proyecto_1_back.Services.Restaurants.FreeSlug.is_usable
bar_renamed = refl

Owns-drinks : Owns stored 1 (some 20)
unfolding Dishes.category_by CategoryRows.get_by_id
    proyecto_1_back.Repositories.Restaurants.get_by_id
Owns-drinks = record {
  category = drinks;
  restaurant = bar;
  category_found = refl;
  restaurant_found = refl;
  owner = refl;
}

owns_beer : OwnsDish stored 1 30
unfolding DishRows.get_by_id
owns_beer = record { dish = beer; dish_found = refl; owns = Owns-drinks }

abbrev toggled : Dish
toggled = record beer { available = false; updated_at = 15 }

toggle_availability_of_owner_example :
    Dishes.toggle_availability 15 30 1 world
    ≡ (ok toggled, forgotten world (DishRows.write_back toggled stored))
unfolding owns_beer
toggle_availability_of_owner_example = toggle_availability_of_owner world 1 15 30 owns_beer

abbrev removed : Dish
removed = record beer { deleted_at = some 14; updated_at = 15 }

delete_of_owner_example :
    Dishes.delete 14 15 30 1 world
    ≡ (ok removed, forgotten world (DishRows.write_back removed stored))
unfolding owns_beer
delete_of_owner_example = delete_of_owner world 1 14 15 30 owns_beer

abbrev wine : DishCreate
wine = record {
  category_id = 20;
  name = codes "Wine";
  description = none;
  price = 500;
  sale_price = none;
  image_url = none;
  available = true;
  featured = true;
  tags = none;
}

abbrev wine_row : Dish
wine_row = DishRows.new_dish defaults wine (pos 0)

create_dish-Settled_example :
    Settled world
      (Owns stored 1 (some 20))
      (λ _. DishRows.create defaults wine none)
      (Dishes.create defaults 1 wine world)
create_dish-Settled_example = create_dish-Settled world 1 defaults wine

abbrev cheaper : DishUpdate
cheaper = record {
  category_id = unset;
  name = unset;
  description = unset;
  price = set 300;
  sale_price = unset;
  image_url = unset;
  available = unset;
  featured = unset;
  tags = unset;
  position = unset;
}

update_dish-Settled_example :
    Settled world
      (OwnsDish stored 1 30 × OwnsTarget stored 1 unset)
      (λ g. DishRows.update (some 15) g.0.dish cheaper)
      (Dishes.update (some 15) 30 1 cheaper world)
update_dish-Settled_example = update_dish-Settled world 1 (some 15) 30 cheaper

delete_restaurant_ends_example :
    ((e : Exc) × (Restaurants.delete 1 world ≡ (err e, world)))
    ⊎ ((r : Restaurant) × (db : Db) × Memᴰ r (bar ∷ [])
        × (r.owner_user_id ≡ 1)
        × Removed r stored db
        × (Restaurants.delete 1 world ≡ (ok tt, forgotten world db)))
delete_restaurant_ends_example = delete_restaurant_ends world 1

delete_of_restaurant_owner_example :
    (db : Db) × Removed bar stored db × (Restaurants.delete 1 world ≡ (ok tt, forgotten world db))
delete_of_restaurant_owner_example =
    delete_of_restaurant_owner world bar (refl, tt) (Memᴰ.head refl)

abbrev bob : User
bob = record {
  id = 2;
  email = codes "bob@x";
  password_hash = codes "hush";
  created_at = 5;
  updated_at = 5;
}

abbrev with_bob : World
with_bob = record { db = record stored { users = ana ∷ bob ∷ [] }; cache = [] }

-- a second restaurant of the same name
abbrev second_bar : RestaurantCreate
second_bar = record {
  name = codes "Bar";
  description = none;
  logo_url = none;
  phone = none;
  address = none;
  hours = none;
}

create_of_newcomer_example :
    (slug : Text) × (Restaurants.create env defaults 2 second_bar with_bob ≡ (
      ok (RestaurantRows.new_restaurant defaults 2 slug second_bar),
      record with_bob {
        db = with_restaurant with_bob.db (RestaurantRows.new_restaurant defaults 2 slug second_bar);
      },
    ))
    × Distinct same_slug
        (with_restaurant with_bob.db
          (RestaurantRows.new_restaurant defaults 2 slug second_bar)).restaurants
unfolding RestaurantRows.get_by_owner_id
create_of_newcomer_example =
    create_of_newcomer env defaults 2 second_bar with_bob (refl, tt) refl refl refl
