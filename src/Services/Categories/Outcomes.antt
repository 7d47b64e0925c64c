-- ===== src/Services/Categories/Outcomes.antt =====
-- How each method of api/app/services/category_service.py ends.
use proyecto_1_back.Prelude.{ℕ, ◌≡◌, false, Option, none, List, All}
use proyecto_1_back.Http.{conflict}
use proyecto_1_back.Models.{Uuid, Time, Db, Defaults}
use proyecto_1_back.Schemas.{CategoryCreate, CategoryUpdate}
use proyecto_1_back.App.{World, raise_if}
use proyecto_1_back.App.Steps.{raise_if-Reading}
use proyecto_1_back.Repositories.Categories as Rows
use proyecto_1_back.Services.Settled.{Settled, Settled-through, commit_forget, commit_then_forget}
use proyecto_1_back.Services.Restaurants.{get_by_owner}
use proyecto_1_back.Services.Restaurants.Outcomes.{OwnRestaurant, get_by_owner-Reading}
use proyecto_1_back.Services.Categories.{
  create, update, delete, reorder, owned_category, verify_all,
}
use proyecto_1_back.Services.Categories.Ownership.{
  OwnCategory, IsOf, owned_category-Reading, verify_all-Reading,
}

-- a restaurant of the user, and every id names one of its categories
pub record Reordering (db : Db) (owner_user_id : Uuid) (ids : List Uuid) : Type 0 where
  pub own : OwnRestaurant db owner_user_id
  pub inside : All (IsOf db own.restaurant.id) ids

-- a category of the user, and it has no dish that is not deleted
pub record Deleting (db : Db) (owner_user_id category_id : Uuid) : Type 0 where
  pub own : OwnCategory db owner_user_id category_id
  pub empty : Rows.has_active_dishes category_id db ≡ false

module _ (w : World) (owner_user_id : Uuid) where
  pub create_category-Settled :
      (d : Defaults) (body : CategoryCreate)
      → Settled w
          (OwnRestaurant w.db owner_user_id)
          (λ g. Rows.create d g.restaurant.id body.name body.description none body.active)
          (create d owner_user_id body w)
  unfolding create
  create_category-Settled d body =
      let t = λ (g : OwnRestaurant w.db owner_user_id).
        Rows.create d g.restaurant.id body.name body.description none body.active in
      Settled-through t (get_by_owner owner_user_id) _ w (get_by_owner-Reading w owner_user_id)
        λ r found. commit_forget t (record { restaurant = r; found = found }) w

  pub update_category-Settled :
      (stamp : Option Time) (category_id : Uuid) (body : CategoryUpdate)
      → Settled w
          (OwnCategory w.db owner_user_id category_id)
          (λ g. Rows.update stamp g.category body)
          (update stamp category_id owner_user_id body w)
  unfolding update
  update_category-Settled stamp category_id body =
      Settled-through (λ g. Rows.update stamp g.category body)
        (owned_category category_id owner_user_id) _ w
        (owned_category-Reading w category_id owner_user_id)
        λ c (g, same). rw (← same) (commit_forget (λ g. Rows.update stamp g.category body) g w)

  pub delete_category-Settled :
      (category_id : Uuid)
      → Settled w
          (Deleting w.db owner_user_id category_id)
          (λ g. Rows.delete g.own.category)
          (delete category_id owner_user_id w)
  unfolding delete
  delete_category-Settled category_id =
      Settled-through (λ g. Rows.delete g.own.category) (owned_category category_id owner_user_id) _
        w (owned_category-Reading w category_id owner_user_id)
        λ c (g, same).
          let active = Rows.has_active_dishes category_id w.db in
          Settled-through (λ g. Rows.delete g.own.category)
            (raise_if active (conflict "Cannot delete category with active dishes")) _ w
            (raise_if-Reading active (conflict "Cannot delete category with active dishes") w)
            λ _ empty. rw (← same) (
              commit_then_forget (λ g. Rows.delete g.own.category)
                (record { own = g; empty = empty }) w)

  -- `reorder` raises and changes nothing, or every id is a category of the user's restaurant, the
  -- positions were written, and no menu stays cached.
  pub reorder-Settled :
      (clock : ℕ → Time) (ids : List Uuid)
      → Settled w
          (Reordering w.db owner_user_id ids)
          (λ g. Rows.reorder_categories clock g.own.restaurant.id ids)
          (reorder clock owner_user_id ids w)
  unfolding reorder
  reorder-Settled clock ids =
      let t = λ (g : Reordering w.db owner_user_id ids).
        Rows.reorder_categories clock g.own.restaurant.id ids in
      Settled-through t (get_by_owner owner_user_id) _ w (get_by_owner-Reading w owner_user_id)
        λ r found.
          Settled-through t (verify_all r.id ids) _ w (verify_all-Reading w r.id ids) λ _ all.
            commit_then_forget t
              (record { own = record { restaurant = r; found = found }; inside = all }) w
