-- ===== src/Api.antt =====
-- api/app/api/routers/: the endpoints as requests, and a run of the service over a sequence of them.
-- An endpoint with a `CurrentUserId` takes the bearer token and the clock that decodes it.
pub mod Coherence
pub mod Uploads
pub mod Responses
pub mod Routes
pub mod Pages
pub mod Reports
use proyecto_1_back.Prelude.{false, ℕ, Bool, Option, List, [], ◌∷◌}
use proyecto_1_back.Text.{Text}
use proyecto_1_back.Env.{Env}
use proyecto_1_back.Models.{Uuid, Time, Defaults}
use proyecto_1_back.Schemas.{
  RestaurantCreate, RestaurantUpdate, CategoryCreate, CategoryUpdate, DishCreate, DishUpdate,
}
use proyecto_1_back.App.{World, Exec, lift, ◌>>=◌}
use proyecto_1_back.Security.{get_current_user_id}
use proyecto_1_back.Repositories.Dishes.{DishFilter}
use proyecto_1_back.Services.Auth
use proyecto_1_back.Services.Auth.{Issue, RefreshReads}
use proyecto_1_back.Services.Restaurants
use proyecto_1_back.Services.Categories
use proyecto_1_back.Services.Dishes
use proyecto_1_back.Services.Menu
use proyecto_1_back.Services.Menu.{Scan}

-- the header and the clock of an authenticated request
pub record Bearer : Type 0 where
  pub at : Time
  pub token : Text

pub data Request : Type 0 where
  register : Text → Defaults → Issue → Text → Text → Request
  login : Issue → Text → Text → Request
  refresh : RefreshReads → Text → Request
  logout : Bearer → Time → Request
  get_restaurant : Bearer → Request
  create_restaurant : Bearer → Defaults → RestaurantCreate → Request
  update_restaurant : Bearer → Option Time → RestaurantUpdate → Request
  delete_restaurant : Bearer → Request
  list_categories : Bearer → Request
  create_category : Bearer → Defaults → CategoryCreate → Request
  update_category : Bearer → Option Time → Uuid → CategoryUpdate → Request
  delete_category : Bearer → Uuid → Request
  reorder_categories : Bearer → (ℕ → Time) → List Uuid → Request
  list_dishes : Bearer → DishFilter → ℕ → ℕ → Request
  get_dish : Bearer → Uuid → Request
  create_dish : Bearer → Defaults → DishCreate → Request
  update_dish : Bearer → Option Time → Uuid → DishUpdate → Request
  delete_dish : Bearer → Time → Time → Uuid → Request
  toggle_dish_availability : Bearer → Time → Uuid → Request
  get_menu : Time → Time → Scan → Text → Request

module _ (env : Env) where
  -- `user_id: CurrentUserId`
  unfoldable pub as_user : {A : Type 0} → Bearer → (Uuid → Exec A) → Exec A
  as_user b f = do user_id ← lift (get_current_user_id env b.at b.token); f user_id

  -- The state that a request leaves, whatever its response.
  unfoldable pub handle : Request → World → World
  unfolding as_user
  handle (register salt d i email password) w = (Auth.register env salt d i email password w).1
  handle (login i email password) w = (Auth.login env i email password w).1
  handle (refresh r token) w = (Auth.refresh env r token w).1
  handle (logout b now) w = (as_user b (Auth.logout now) w).1
  handle (get_restaurant b) w = (as_user b Restaurants.get_by_owner w).1
  handle (create_restaurant b d body) w = (as_user b (λ u. Restaurants.create env d u body) w).1
  handle (update_restaurant b stamp body) w =
      (as_user b (λ u. Restaurants.update env stamp u body) w).1
  handle (delete_restaurant b) w = (as_user b Restaurants.delete w).1
  handle (list_categories b) w = (as_user b (λ u. Categories.list_categories u false) w).1
  handle (create_category b d body) w = (as_user b (λ u. Categories.create d u body) w).1
  handle (update_category b stamp id body) w =
      (as_user b (λ u. Categories.update stamp id u body) w).1
  handle (delete_category b id) w = (as_user b (Categories.delete id) w).1
  handle (reorder_categories b clock ids) w = (as_user b (λ u. Categories.reorder clock u ids) w).1
  handle (list_dishes b f limit offset) w =
      (as_user b (λ u. Dishes.list_dishes env u f limit offset) w).1
  handle (get_dish b id) w = (as_user b (Dishes.get_dish id) w).1
  handle (create_dish b d body) w = (as_user b (λ u. Dishes.create d u body) w).1
  handle (update_dish b stamp id body) w = (as_user b (λ u. Dishes.update stamp id u body) w).1
  handle (delete_dish b now stamp id) w = (as_user b (Dishes.delete now stamp id) w).1
  handle (toggle_dish_availability b stamp id) w =
      (as_user b (Dishes.toggle_availability stamp id) w).1
  handle (get_menu read_at stored_at scan slug) w = (Menu.get_menu read_at stored_at scan slug w).1

  unfoldable pub run : List Request → World → World
  run [] w = w
  run (r ∷ requests) w = run requests (handle r w)
