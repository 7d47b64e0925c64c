-- ===== src/Services/Dishes/Accepted.antt =====
-- The methods of api/app/services/dish_service.py when the checks pass.
use proyecto_1_back.Prelude.{◌≡◌, refl, not, Option, some, ==_refl}
use proyecto_1_back.Http.{ok}
use proyecto_1_back.Models.{Uuid, Time, Dish, Db, Defaults}
use proyecto_1_back.Schemas.{DishCreate}
use proyecto_1_back.App.{World}
use proyecto_1_back.Repositories.Dishes as Rows
use proyecto_1_back.Services.Settled.{forgotten}
use proyecto_1_back.Services.Dishes.{
  create, delete, toggle_availability, get_dish, verify_category_ownership, is_stranger,
}
use proyecto_1_back.Services.Dishes.Ownership.{Owns, OwnsDish}

module _ (w : World) (owner_user_id : Uuid) where
  verified :
      (category_id : Option Uuid)
      → Owns w.db owner_user_id category_id
      → verify_category_ownership category_id owner_user_id w ≡ (ok tt, w)
  unfolding verify_category_ownership is_stranger
  verified category_id o =
      rw o.category_found (rw o.restaurant_found (rw o.owner (rw (==_refl owner_user_id) refl)))

  dish_got :
      (dish_id : Uuid) (o : OwnsDish w.db owner_user_id dish_id)
      → get_dish dish_id owner_user_id w ≡ (ok o.dish, w)
  unfolding get_dish
  dish_got dish_id o = rw o.dish_found (rw (verified (some o.dish.category_id) o.owns) refl)

  -- The owner of a dish that is not deleted can toggle it: the response is the dish with the other
  -- availability, which is stored, and no menu stays cached.
  pub toggle_availability_of_owner :
      (stamp : Time) (dish_id : Uuid) (o : OwnsDish w.db owner_user_id dish_id)
      → toggle_availability stamp dish_id owner_user_id w ≡ (
        ok (record o.dish { available = not o.dish.available; updated_at = stamp }),
        forgotten w (
            Rows.write_back
              (record o.dish { available = not o.dish.available; updated_at = stamp })
              w.db),
      )
  unfolding toggle_availability Rows.toggle_availability
  toggle_availability_of_owner stamp dish_id o = rw (dish_got dish_id o) refl

  -- The owner of a dish can delete it: the row stays, marked as deleted, and no menu stays cached.
  pub delete_of_owner :
      (now stamp : Time) (dish_id : Uuid) (o : OwnsDish w.db owner_user_id dish_id)
      → delete now stamp dish_id owner_user_id w ≡ (
        ok (record o.dish { deleted_at = some now; updated_at = stamp }),
        forgotten w
            (Rows.write_back (record o.dish { deleted_at = some now; updated_at = stamp }) w.db),
      )
  unfolding delete Rows.soft_delete
  delete_of_owner now stamp dish_id o = rw (dish_got dish_id o) refl

  pub create_when_checked :
      (d : Defaults) (body : DishCreate)
      → Owns w.db owner_user_id (some body.category_id)
      → (dish : Dish) (db : Db) → Rows.create d body Option.none w.db ≡ ok (dish, db)
      → create d owner_user_id body w ≡ (ok dish, forgotten w db)
  unfolding create
  create_when_checked d body o dish db h = rw (verified (some body.category_id) o) (rw h refl)
