-- ===== src/Trace/Requests.antt =====
-- Every request of api/app/api/routers/ as steps, and every sequence of requests.
use proyecto_1_back.Prelude.{false, ◌≡◌, true, none, some, List, [], ◌∷◌, any, ◌==◌}
use proyecto_1_back.Env.{Env}
use proyecto_1_back.Models.{Uuid, Db}
use proyecto_1_back.App.{World}
use proyecto_1_back.Sql.Laws.{scalar_some, any-of_filter}
use proyecto_1_back.Repositories.Restaurants as Rows
use proyecto_1_back.Repositories.Categories as CategoryRows
use proyecto_1_back.Repositories.Dishes as DishRows
use proyecto_1_back.Services.Auth
use proyecto_1_back.Services.Restaurants
use proyecto_1_back.Services.Restaurants.Outcomes as Shops
use proyecto_1_back.Services.Categories
use proyecto_1_back.Services.Categories.Outcomes as Sections
use proyecto_1_back.Services.Dishes
use proyecto_1_back.Services.Dishes.Outcomes as Plates
use proyecto_1_back.Services.Dishes.Ownership.{Owns, get_dish-Reading}
use proyecto_1_back.Api.{
  Request, register, login, refresh, logout, get_restaurant, create_restaurant, update_restaurant,
  delete_restaurant, list_categories, create_category, update_category, delete_category,
  reorder_categories, list_dishes, get_dish, create_dish, update_dish, delete_dish,
  toggle_dish_availability, get_menu, handle, run,
}
use proyecto_1_back.Trace.{Reach, here, Reach-trans}
use proyecto_1_back.Trace.Made.{
  restaurant_changed_made, restaurant_removed_made, category_made, category_changed_made,
  category_removed_made, categories_placed_made, dish_made, dish_changed_made, soft_delete_made,
  toggle_made,
}
use proyecto_1_back.Trace.Rules.{Reaches-of_Reading, Reaches-as_user, Settled-Reach}
use proyecto_1_back.Trace.Methods.{
  register-Reaches, login-Reaches, refresh-Reaches, logout-Reaches, get_by_owner-Reaches,
  create_restaurant-Reaches, list_categories-Reaches, list_dishes-Reaches, get_menu-Reaches,
}

-- the category of a dish that the user owns is a row
owned_category_there :
    (db : Db) (u : Uuid) (category_id : Uuid)
    → Owns db u (some category_id)
    → any (λ c. c.id == category_id) db.categories ≡ true
unfolding Dishes.category_by CategoryRows.get_by_id
owned_category_there db u category_id o =
    any-of_filter (λ c. c.id == category_id) db.categories o.category
      (scalar_some (CategoryRows.rows_by_id category_id db) o.category o.category_found)

-- The state that a request leaves, refused or not, is reached by steps.
pub handle-Reach : (env : Env) (r : Request) (w : World) → Reach w (handle env r w)
unfolding handle
handle-Reach env (register salt d i email password) = register-Reaches env salt d i email password
handle-Reach env (login i email password) = login-Reaches env i email password
handle-Reach env (refresh r token) = refresh-Reaches env r token
handle-Reach env (logout b now) = Reaches-as_user env b (Auth.logout now) (logout-Reaches now)
handle-Reach env (get_restaurant b) =
    Reaches-as_user env b Restaurants.get_by_owner get_by_owner-Reaches
handle-Reach env (create_restaurant b d body) =
    Reaches-as_user env b (λ u. Restaurants.create env d u body)
      (λ u. create_restaurant-Reaches env d u body)
handle-Reach env (update_restaurant b stamp body) =
    Reaches-as_user env b (λ u. Restaurants.update env stamp u body)
      λ u w.
        Settled-Reach w (λ g. Rows.update stamp g.own.restaurant body g.slug) _
          (λ g a db. restaurant_changed_made stamp g.own.restaurant body g.slug w.db a db)
          (Shops.update_restaurant-Settled w u env stamp body)
handle-Reach env (delete_restaurant b) = Reaches-as_user env b Restaurants.delete λ u w.
    Settled-Reach w (λ g. Rows.delete g.restaurant) _
      (λ g a db. restaurant_removed_made g.restaurant w.db a db)
      (Shops.delete_restaurant-Settled w u)
handle-Reach env (list_categories b) =
    Reaches-as_user env b (λ u. Categories.list_categories u false)
      (λ u. list_categories-Reaches u false)
handle-Reach env (create_category b d body) =
    Reaches-as_user env b (λ u. Categories.create d u body)
      λ u w.
        Settled-Reach w
          (λ g. CategoryRows.create d g.restaurant.id body.name body.description none body.active) _
          (λ g a db.
            category_made d g.restaurant.id body.name body.description none body.active w.db a db)
          (Sections.create_category-Settled w u d body)
handle-Reach env (update_category b stamp id body) =
    Reaches-as_user env b (λ u. Categories.update stamp id u body)
      λ u w.
        Settled-Reach w (λ g. CategoryRows.update stamp g.category body) _
          (λ g a db. category_changed_made stamp g.category body w.db a db)
          (Sections.update_category-Settled w u stamp id body)
handle-Reach env (delete_category b id) = Reaches-as_user env b (Categories.delete id) λ u w.
    Settled-Reach w (λ g. CategoryRows.delete g.own.category) _
      (λ g a db. category_removed_made g.own.category w.db a db)
      (Sections.delete_category-Settled w u id)
handle-Reach env (reorder_categories b clock ids) =
    Reaches-as_user env b (λ u. Categories.reorder clock u ids)
      λ u w.
        Settled-Reach w (λ g. CategoryRows.reorder_categories clock g.own.restaurant.id ids) _
          (λ g a db. categories_placed_made clock g.own.restaurant.id ids w.db a db)
          (Sections.reorder-Settled w u clock ids)
handle-Reach env (list_dishes b f limit offset) =
    Reaches-as_user env b (λ u. Dishes.list_dishes env u f limit offset)
      (λ u. list_dishes-Reaches env u f limit offset)
handle-Reach env (get_dish b id) =
    Reaches-as_user env b (Dishes.get_dish id)
      (λ u. Reaches-of_Reading (Dishes.get_dish id u) (λ w. get_dish-Reading w u id))
handle-Reach env (create_dish b d body) =
    Reaches-as_user env b (λ u. Dishes.create d u body)
      λ u w.
        Settled-Reach w (λ _. DishRows.create d body none) _
          (λ _ a db. dish_made d body none w.db a db) (Plates.create_dish-Settled w u d body)
handle-Reach env (update_dish b stamp id body) =
    Reaches-as_user env b (λ u. Dishes.update stamp id u body)
      λ u w.
        Settled-Reach w (λ g. DishRows.update stamp g.0.dish body) _
          (λ g a db. dish_changed_made stamp g.0.dish body w.db a db)
          (Plates.update_dish-Settled w u stamp id body)
handle-Reach env (delete_dish b now stamp id) =
    Reaches-as_user env b (Dishes.delete now stamp id) λ u w.
      Settled-Reach w (λ g. DishRows.soft_delete now stamp g.dish) _
        (λ g a db.
          soft_delete_made g.dish w.db (owned_category_there w.db u g.dish.category_id g.owns) now
            stamp a db)
        (Plates.delete_dish-Settled w u now stamp id)
handle-Reach env (toggle_dish_availability b stamp id) =
    Reaches-as_user env b (Dishes.toggle_availability stamp id) λ u w.
      Settled-Reach w (λ g. DishRows.toggle_availability stamp g.dish) _
        (λ g a db.
          toggle_made g.dish w.db (owned_category_there w.db u g.dish.category_id g.owns) stamp a
            db)
        (Plates.toggle_availability-Settled w u stamp id)
handle-Reach env (get_menu read_at stored_at scan slug) =
    get_menu-Reaches read_at stored_at scan slug

pub run-Reach : (env : Env) (requests : List Request) (w : World) → Reach w (run env requests w)
unfolding run
run-Reach env [] w = here
run-Reach env (r ∷ requests) w =
    Reach-trans (handle-Reach env r w) (run-Reach env requests (handle env r w))
