-- ===== src/Cacheless/Catalogue.antt =====
-- The methods on restaurants and dishes of api/app/services/ that do not look into the cache.
use proyecto_1_back.Prelude.{ℕ, false, Option, none, some, List, refl}
use proyecto_1_back.Http.{Result, ok, err, not_found, conflict, require, attribute_error}
use proyecto_1_back.Text.{Text}
use proyecto_1_back.Env.{Env}
use proyecto_1_back.Models.{Uuid, Time, Defaults, Db, Restaurant, Dish}
use proyecto_1_back.Schemas.{
  Patch, unset, null, set, RestaurantCreate, RestaurantUpdate, DishCreate, DishUpdate,
  DishListResponse,
}
use proyecto_1_back.Slug.{generate_slug}
use proyecto_1_back.App.{Exec, pure, query, commit, ◌>>=◌}
use proyecto_1_back.Repositories.Users.{is_some}
use proyecto_1_back.Repositories.Restaurants as Shops
use proyecto_1_back.Repositories.Dishes as Plates
use proyecto_1_back.Services.Restaurants
use proyecto_1_back.Services.Restaurants.FreeSlug.{ensure_unique_slug}
use proyecto_1_back.Services.Restaurants.{forget_menus, slug_length}
use proyecto_1_back.Services.Dishes
use proyecto_1_back.Cacheless.Blind.{Blind, lift-Blind, commit-Blind, bind-Blind}
use proyecto_1_back.Cacheless.Methods.{
  after-query, after-lift, after-raise_if, changing-Blind, removing-Blind, get_by_owner-Blind,
}

pub create_restaurant-Blind :
    (env : Env) (d : Defaults) (u : Uuid) (body : RestaurantCreate)
    → Blind (Restaurants.create env d u body)
unfolding Restaurants.create
create_restaurant-Blind env d u body = after-query (Shops.get_by_owner_id u) _ λ existing.
    let named =
      query (ensure_unique_slug (generate_slug env.wide body.name slug_length) none) >>= λ slug.
      commit (Shops.create d u slug body) in
    after-raise_if (is_some existing) (conflict "User already has a restaurant") named (
      after-query (ensure_unique_slug (generate_slug env.wide body.name slug_length) none) _
        λ slug. commit-Blind (Shops.create d u slug body))

new_slug-Blind :
    (env : Env) (id : Uuid) (name : Patch Text) → Blind (Restaurants.new_slug env id name)
unfolding Restaurants.new_slug
new_slug-Blind env id unset = lift-Blind (ok unset)
new_slug-Blind env id null = lift-Blind (err attribute_error)
new_slug-Blind env id (set name) =
    after-query (ensure_unique_slug (generate_slug env.wide name slug_length) (some id)) _
      λ slug. lift-Blind (ok (set slug))

pub update_restaurant-Blind :
    (env : Env) (stamp : Option Time) (u : Uuid) (body : RestaurantUpdate)
    → Blind (Restaurants.update env stamp u body)
unfolding Restaurants.update
update_restaurant-Blind env stamp u body =
    bind-Blind (Restaurants.get_by_owner u) _ (get_by_owner-Blind u) λ r.
      bind-Blind (Restaurants.new_slug env r.id body.name) _ (new_slug-Blind env r.id body.name)
        λ slug. changing-Blind (Shops.update stamp r body slug)

pub delete_restaurant-Blind : (u : Uuid) → Blind (Restaurants.delete u)
unfolding Restaurants.delete
delete_restaurant-Blind u =
    bind-Blind (Restaurants.get_by_owner u) _ (get_by_owner-Blind u)
      λ r. removing-Blind (Shops.delete r)

verify_category_ownership-Blind :
    (id : Option Uuid) (u : Uuid) → Blind (Dishes.verify_category_ownership id u)
unfolding Dishes.verify_category_ownership
verify_category_ownership-Blind id u = after-query (Dishes.category_by id) _ λ o.
    after-lift (require o (not_found "Category not found")) _
      λ c. after-query (Shops.get_by_id c.restaurant_id) _ λ r w w' h. (refl, h)

verify_filter-Blind : (id : Option Uuid) (u : Uuid) → Blind (Dishes.verify_filter id u)
unfolding Dishes.verify_filter
verify_filter-Blind none u = lift-Blind (ok tt)
verify_filter-Blind (some id) u = verify_category_ownership-Blind (some id) u

pub list_dishes-Blind :
    (env : Env) (u : Uuid) (f : Plates.DishFilter) (limit offset : ℕ)
    → Blind (Dishes.list_dishes env u f limit offset)
unfolding Dishes.list_dishes
list_dishes-Blind env u f limit offset =
    bind-Blind (Restaurants.get_by_owner u) _ (get_by_owner-Blind u) λ r.
      bind-Blind (Dishes.verify_filter f.category_id u) (λ _. page r)
        (verify_filter-Blind f.category_id u) (λ _. page-Blind r)
  where
    rows : Restaurant → Db → Result (List Dish × ℕ)
    rows r db = ok (
        Plates.list_dishes env (record f { restaurant_id = some r.id; include_deleted = false })
          limit offset db)

    shown : List Dish × ℕ → Exec DishListResponse
    shown found = pure (record { items = found.0; total = found.1; limit = limit; offset = offset })

    page : Restaurant → Exec DishListResponse
    page r = query (rows r) >>= shown

    page-Blind : (r : Restaurant) → Blind (page r)
    page-Blind r = after-query (rows r) shown λ found w w' h. (refl, h)

pub get_dish-Blind : (id u : Uuid) → Blind (Dishes.get_dish id u)
unfolding Dishes.get_dish
get_dish-Blind id u = after-query (Plates.get_by_id id false) _ λ o.
    after-lift (require o (not_found "Dish not found")) _ λ d.
      bind-Blind (Dishes.verify_category_ownership (some d.category_id) u) _
        (verify_category_ownership-Blind (some d.category_id) u) λ v w w' h. (refl, h)

pub create_dish-Blind :
    (d : Defaults) (u : Uuid) (body : DishCreate) → Blind (Dishes.create d u body)
unfolding Dishes.create
create_dish-Blind d u body =
    bind-Blind (Dishes.verify_category_ownership (some body.category_id) u) _
      (verify_category_ownership-Blind (some body.category_id) u)
      λ v. changing-Blind (Plates.create d body none)

verify_target-Blind : (id : Patch Uuid) (u : Uuid) → Blind (Dishes.verify_target id u)
unfolding Dishes.verify_target
verify_target-Blind unset u = lift-Blind (ok tt)
verify_target-Blind null u = verify_category_ownership-Blind none u
verify_target-Blind (set id) u = verify_category_ownership-Blind (some id) u

pub update_dish-Blind :
    (stamp : Option Time) (id u : Uuid) (body : DishUpdate) → Blind (Dishes.update stamp id u body)
unfolding Dishes.update
update_dish-Blind stamp id u body = bind-Blind (Dishes.get_dish id u) _ (get_dish-Blind id u) λ d.
    bind-Blind (Dishes.verify_target body.category_id u) _ (verify_target-Blind body.category_id u)
      λ v. changing-Blind (Plates.update stamp d body)

pub delete_dish-Blind : (now stamp : Time) (id u : Uuid) → Blind (Dishes.delete now stamp id u)
unfolding Dishes.delete
delete_dish-Blind now stamp id u =
    bind-Blind (Dishes.get_dish id u) _ (get_dish-Blind id u)
      λ d. changing-Blind (Plates.soft_delete now stamp d)

pub toggle_availability-Blind :
    (stamp : Time) (id u : Uuid) → Blind (Dishes.toggle_availability stamp id u)
unfolding Dishes.toggle_availability
toggle_availability-Blind stamp id u =
    bind-Blind (Dishes.get_dish id u) _ (get_dish-Blind id u)
      λ d. changing-Blind (Plates.toggle_availability stamp d)
