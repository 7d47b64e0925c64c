-- ===== src/Services/Categories/Accepted.antt =====
-- The methods of api/app/services/category_service.py when the checks of their queries pass.
use proyecto_1_back.Prelude.{ℕ, ◌≡◌, refl, List, [], ◌∷◌, All, ◌==◌, ==_refl}
use proyecto_1_back.Http.{ok}
use proyecto_1_back.Models.{Uuid, Time}
use proyecto_1_back.Sql.{delete_where}
use proyecto_1_back.App.{World}
use proyecto_1_back.Repositories.Categories as Rows
use proyecto_1_back.Services.Settled.{forgotten}
use proyecto_1_back.Services.Restaurants.{get_by_owner}
use proyecto_1_back.Services.Categories.{
  delete, reorder, owned_category, verify_all, verify_restaurant_ownership, is_foreign,
}
use proyecto_1_back.Services.Categories.Ownership.{OwnCategory, IsOf}
use proyecto_1_back.Services.Categories.Outcomes.{Deleting, Reordering}

module _ (w : World) (owner_user_id : Uuid) where
  category_got :
      (category_id : Uuid) (o : OwnCategory w.db owner_user_id category_id)
      → owned_category category_id owner_user_id w ≡ (ok o.category, w)
  unfolding owned_category verify_restaurant_ownership
  category_got category_id o =
      rw o.category_found (rw o.restaurant_found (rw o.owner (rw (==_refl owner_user_id) refl)))

  pub delete_when_checked :
      (category_id : Uuid) (o : Deleting w.db owner_user_id category_id)
      → delete category_id owner_user_id w ≡ (
        ok tt,
        forgotten w (record w.db {
          categories = delete_where (λ c. c.id == o.own.category.id) w.db.categories;
          dishes = delete_where (λ d. d.category_id == o.own.category.id) w.db.dishes;
        }),
      )
  unfolding delete Rows.delete
  delete_when_checked category_id o = rw (category_got category_id o.own) (rw o.empty refl)

  All-verified :
      (restaurant_id : Uuid) (ids : List Uuid)
      → All (IsOf w.db restaurant_id) ids
      → verify_all restaurant_id ids w ≡ (ok tt, w)
  unfolding verify_all is_foreign
  All-verified restaurant_id [] h = refl
  All-verified restaurant_id (id ∷ ids) h =
      rw h.0.found (rw h.0.inside (rw (==_refl restaurant_id) (All-verified restaurant_id ids h.1)))

  pub reorder_when_checked :
      (clock : ℕ → Time) (ids : List Uuid) (o : Reordering w.db owner_user_id ids)
      → reorder clock owner_user_id ids w ≡ (
        ok tt,
        forgotten w (record w.db {
          categories = Rows.place_from clock 0 o.own.restaurant.id ids w.db.categories;
        }),
      )
  unfolding reorder get_by_owner Rows.reorder_categories
  reorder_when_checked clock ids o =
      rw o.own.found (rw (All-verified o.own.restaurant.id ids o.inside) refl)
