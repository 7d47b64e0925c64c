-- ===== src/Services/Dishes/Outcomes.antt =====
-- How each method of api/app/services/dish_service.py ends.
use proyecto_1_back.Prelude.{Option}
use proyecto_1_back.Models.{Uuid, Time, Defaults}
use proyecto_1_back.Schemas.{DishCreate, DishUpdate}
use proyecto_1_back.App.{World}
use proyecto_1_back.Repositories.Dishes as Rows
use proyecto_1_back.Services.Settled.{Settled, Settled-through, commit_forget}
use proyecto_1_back.Services.Dishes.{
  create, update, delete, toggle_availability, get_dish, verify_target, verify_category_ownership,
}
use proyecto_1_back.Services.Dishes.Ownership.{
  Owns, OwnsDish, OwnsTarget, verify-Reading, get_dish-Reading, verify_target-Reading,
}

module _ (w : World) (owner_user_id : Uuid) where
  -- `create` of a dish raises and changes nothing, or the user owns the category, the dish was inserted,
  -- and no menu stays cached.
  pub create_dish-Settled :
      (d : Defaults) (body : DishCreate)
      → Settled w
          (Owns w.db owner_user_id (Option.some body.category_id))
          (λ _. Rows.create d body Option.none)
          (create d owner_user_id body w)
  unfolding create
  create_dish-Settled d body =
      Settled-through (λ _. Rows.create d body Option.none)
        (verify_category_ownership (Option.some body.category_id) owner_user_id) _ w
        (verify-Reading w owner_user_id (Option.some body.category_id))
        λ _ owns. commit_forget (λ _. Rows.create d body Option.none) owns w

  -- `update` of a dish raises and changes nothing, or the user owns the dish that is not deleted and the
  -- category that the body moves it to, the row was changed, and no menu stays cached.
  pub update_dish-Settled :
      (stamp : Option Time) (dish_id : Uuid) (body : DishUpdate)
      → Settled w
          (OwnsDish w.db owner_user_id dish_id × OwnsTarget w.db owner_user_id body.category_id)
          (λ g. Rows.update stamp g.0.dish body)
          (update stamp dish_id owner_user_id body w)
  unfolding update
  update_dish-Settled stamp dish_id body =
      Settled-through (λ g. Rows.update stamp g.0.dish body) (get_dish dish_id owner_user_id) _ w
        (get_dish-Reading w owner_user_id dish_id)
        λ dish found.
          Settled-through (λ g. Rows.update stamp g.0.dish body)
            (verify_target body.category_id owner_user_id) _ w
            (verify_target-Reading w owner_user_id body.category_id)
            λ _ target.
              commit_forget (λ g. Rows.update stamp g.0.dish body)
                (record { dish = dish; dish_found = found.0; owns = found.1 }, target) w

  pub delete_dish-Settled :
      (now stamp : Time) (dish_id : Uuid)
      → Settled w
          (OwnsDish w.db owner_user_id dish_id)
          (λ g. Rows.soft_delete now stamp g.dish)
          (delete now stamp dish_id owner_user_id w)
  unfolding delete
  delete_dish-Settled now stamp dish_id =
      Settled-through (λ g. Rows.soft_delete now stamp g.dish) (get_dish dish_id owner_user_id) _ w
        (get_dish-Reading w owner_user_id dish_id)
        λ dish found.
          commit_forget (λ g. Rows.soft_delete now stamp g.dish)
            (record { dish = dish; dish_found = found.0; owns = found.1 }) w

  pub toggle_availability-Settled :
      (stamp : Time) (dish_id : Uuid)
      → Settled w
          (OwnsDish w.db owner_user_id dish_id)
          (λ g. Rows.toggle_availability stamp g.dish)
          (toggle_availability stamp dish_id owner_user_id w)
  unfolding toggle_availability
  toggle_availability-Settled stamp dish_id =
      Settled-through (λ g. Rows.toggle_availability stamp g.dish) (get_dish dish_id owner_user_id)
        _ w (get_dish-Reading w owner_user_id dish_id)
        λ dish found.
          commit_forget (λ g. Rows.toggle_availability stamp g.dish)
            (record { dish = dish; dish_found = found.0; owns = found.1 }) w
