-- ===== src/Api/Routes.antt =====
-- api/app/api/routers/: auth.py, restaurant.py, categories.py, dishes.py and menu.py, a function per route,
-- and the response to a request.
pub mod Atomic
pub mod States
use proyecto_1_back.Prelude.{false, ℕ, Bool, Option, List, [], ◌∷◌, map}
use proyecto_1_back.Text.{Text}
use proyecto_1_back.Env.{Env}
use proyecto_1_back.Models.{Uuid, Time, Defaults}
use proyecto_1_back.Schemas.{
  RestaurantCreate, RestaurantUpdate, CategoryCreate, CategoryUpdate, DishCreate, DishUpdate,
}
use proyecto_1_back.App.{World}
use proyecto_1_back.Repositories.Dishes.{DishFilter}
use proyecto_1_back.Services.Auth
use proyecto_1_back.Services.Auth.{Issue, RefreshReads}
use proyecto_1_back.Services.Restaurants
use proyecto_1_back.Services.Categories
use proyecto_1_back.Services.Dishes
use proyecto_1_back.Services.Menu
use proyecto_1_back.Services.Menu.{Scan}
use proyecto_1_back.Api.{Bearer, Request, as_user}
use proyecto_1_back.Api.Responses.{
  Times, Body, no_content, category, categories, dishes, menu, Response, answer, tokens_body,
  auth_body, restaurant_body, category_response, dish_body,
}

module _ (times : Times) (env : Env) (id : Text) where
  unfoldable pub register : Text → Defaults → Issue → Text → Text → World → Response × World
  unfolding auth_body
  register salt d i email password w =
      answer id 201 (auth_body times) (Auth.register env salt d i email password w)

  unfoldable pub login : Issue → Text → Text → World → Response × World
  unfolding auth_body
  login i email password w = answer id 200 (auth_body times) (Auth.login env i email password w)

  unfoldable pub refresh : RefreshReads → Text → World → Response × World
  refresh r token w = answer id 200 tokens_body (Auth.refresh env r token w)

  unfoldable pub logout : Bearer → Time → World → Response × World
  unfolding as_user
  logout b now w = answer id 204 (λ _. no_content) (as_user env b (Auth.logout now) w)

  unfoldable pub get_restaurant : Bearer → World → Response × World
  unfolding as_user restaurant_body
  get_restaurant b w =
      answer id 200 (restaurant_body times) (as_user env b Restaurants.get_by_owner w)

  unfoldable pub create_restaurant : Bearer → Defaults → RestaurantCreate → World → Response × World
  unfolding as_user restaurant_body
  create_restaurant b d body w =
      answer id 201 (restaurant_body times) (as_user env b (λ u. Restaurants.create env d u body) w)

  unfoldable pub update_restaurant :
      Bearer → Option Time → RestaurantUpdate → World → Response × World
  unfolding as_user restaurant_body
  update_restaurant b stamp body w =
      answer id 200 (restaurant_body times)
        (as_user env b (λ u. Restaurants.update env stamp u body) w)

  unfoldable pub delete_restaurant : Bearer → World → Response × World
  unfolding as_user
  delete_restaurant b w = answer id 204 (λ _. no_content) (as_user env b Restaurants.delete w)

  unfoldable pub list_categories : Bearer → World → Response × World
  unfolding as_user category_response
  list_categories b w =
      answer id 200 (λ cats. categories (map (category_response times) cats))
        (as_user env b (λ u. Categories.list_categories u false) w)

  unfoldable pub create_category : Bearer → Defaults → CategoryCreate → World → Response × World
  unfolding as_user category_response
  create_category b d body w =
      answer id 201 (λ cat. category ((category_response times) cat))
        (as_user env b (λ u. Categories.create d u body) w)

  unfoldable pub update_category :
      Bearer → Option Time → Uuid → CategoryUpdate → World → Response × World
  unfolding as_user category_response
  update_category b stamp category_id body w =
      answer id 200 (λ cat. category ((category_response times) cat))
        (as_user env b (λ u. Categories.update stamp category_id u body) w)

  unfoldable pub delete_category : Bearer → Uuid → World → Response × World
  unfolding as_user
  delete_category b category_id w =
      answer id 204 (λ _. no_content) (as_user env b (Categories.delete category_id) w)

  unfoldable pub reorder_categories : Bearer → (ℕ → Time) → List Uuid → World → Response × World
  unfolding as_user
  reorder_categories b clock ids w =
      answer id 204 (λ _. no_content) (as_user env b (λ u. Categories.reorder clock u ids) w)

  unfoldable pub list_dishes : Bearer → DishFilter → ℕ → ℕ → World → Response × World
  unfolding as_user
  list_dishes b f limit offset w =
      answer id 200 dishes (as_user env b (λ u. Dishes.list_dishes env u f limit offset) w)

  unfoldable pub get_dish : Bearer → Uuid → World → Response × World
  unfolding as_user dish_body
  get_dish b dish_id w = answer id 200 (dish_body times) (as_user env b (Dishes.get_dish dish_id) w)

  unfoldable pub create_dish : Bearer → Defaults → DishCreate → World → Response × World
  unfolding as_user dish_body
  create_dish b d body w =
      answer id 201 (dish_body times) (as_user env b (λ u. Dishes.create d u body) w)

  unfoldable pub update_dish : Bearer → Option Time → Uuid → DishUpdate → World → Response × World
  unfolding as_user dish_body
  update_dish b stamp dish_id body w =
      answer id 200 (dish_body times) (as_user env b (λ u. Dishes.update stamp dish_id u body) w)

  unfoldable pub delete_dish : Bearer → Time → Time → Uuid → World → Response × World
  unfolding as_user dish_body
  delete_dish b now stamp dish_id w =
      answer id 200 (dish_body times) (as_user env b (Dishes.delete now stamp dish_id) w)

  unfoldable pub toggle_dish_availability : Bearer → Time → Uuid → World → Response × World
  unfolding as_user dish_body
  toggle_dish_availability b stamp dish_id w =
      answer id 200 (dish_body times) (as_user env b (Dishes.toggle_availability stamp dish_id) w)

  unfoldable pub get_menu : Time → Time → Scan → Text → World → Response × World
  get_menu read_at stored_at scan slug w =
      answer id 200 menu (Menu.get_menu read_at stored_at scan slug w)

  -- A request with its request id; `handle` of Api is the state alone.
  unfoldable pub respond : Request → World → Response × World
  unfolding register login refresh logout get_restaurant create_restaurant update_restaurant
      delete_restaurant list_categories create_category update_category delete_category
      reorder_categories list_dishes get_dish create_dish update_dish delete_dish
      toggle_dish_availability get_menu
  respond (Request.register salt d i email password) w = register salt d i email password w
  respond (Request.login i email password) w = login i email password w
  respond (Request.refresh r token) w = refresh r token w
  respond (Request.logout b now) w = logout b now w
  respond (Request.get_restaurant b) w = get_restaurant b w
  respond (Request.create_restaurant b d body) w = create_restaurant b d body w
  respond (Request.update_restaurant b stamp body) w = update_restaurant b stamp body w
  respond (Request.delete_restaurant b) w = delete_restaurant b w
  respond (Request.list_categories b) w = list_categories b w
  respond (Request.create_category b d body) w = create_category b d body w
  respond (Request.update_category b stamp category_id body) w =
      update_category b stamp category_id body w
  respond (Request.delete_category b category_id) w = delete_category b category_id w
  respond (Request.reorder_categories b clock ids) w = reorder_categories b clock ids w
  respond (Request.list_dishes b f limit offset) w = list_dishes b f limit offset w
  respond (Request.get_dish b dish_id) w = get_dish b dish_id w
  respond (Request.create_dish b d body) w = create_dish b d body w
  respond (Request.update_dish b stamp dish_id body) w = update_dish b stamp dish_id body w
  respond (Request.delete_dish b now stamp dish_id) w = delete_dish b now stamp dish_id w
  respond (Request.toggle_dish_availability b stamp dish_id) w =
      toggle_dish_availability b stamp dish_id w
  respond (Request.get_menu read_at stored_at scan slug) w = get_menu read_at stored_at scan slug w
