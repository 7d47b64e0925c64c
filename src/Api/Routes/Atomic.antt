-- ===== src/Api/Routes/Atomic.antt =====
-- Error responses of api/app/api/routers/ and the state that they leave.
use proyecto_1_back.Prelude.{
  ℕ, ◌≤◌, ◌<◌, ◌≡◌, refl, ◌⊎◌, inl, inr, Bool, true, false, none, arith, if◌then◌else◌,
}
use proyecto_1_back.Http.{Exc, Result, Result-cases, ok, err, require, not_found, conflict}
use proyecto_1_back.Text.{Text}
use proyecto_1_back.Env.{Env}
use proyecto_1_back.Models.{Uuid, Time, Defaults, Db}
use proyecto_1_back.Schemas.{RestaurantCreate}
use proyecto_1_back.Slug.{generate_slug}
use proyecto_1_back.App.{World, Exec, query, lift, raise_if, commit, ◌>>=◌, ◌>>◌}
use proyecto_1_back.App.Steps.{Reading, through, query-Reading, lift-Reading}
use proyecto_1_back.Security.{get_current_user_id}
use proyecto_1_back.Repositories.Users.{is_some}
use proyecto_1_back.Repositories.RefreshTokens
use proyecto_1_back.Repositories.Restaurants as Shops
use proyecto_1_back.Repositories.Categories as Sections
use proyecto_1_back.Repositories.Dishes as Plates
use proyecto_1_back.Services.Settled.{Settled}
use proyecto_1_back.Services.Auth
use proyecto_1_back.Services.Restaurants
use proyecto_1_back.Services.Restaurants.{slug_length}
use proyecto_1_back.Services.Restaurants.FreeSlug.{ensure_unique_slug}
use proyecto_1_back.Services.Restaurants.Outcomes as ShopOutcomes
use proyecto_1_back.Services.Categories
use proyecto_1_back.Services.Categories.Outcomes as SectionOutcomes
use proyecto_1_back.Services.Dishes
use proyecto_1_back.Services.Dishes.Outcomes as PlateOutcomes
use proyecto_1_back.Services.Dishes.Ownership.{get_dish-Reading, verify_filter-Reading}
use proyecto_1_back.Api.{
  Bearer, Request, register, login, refresh, logout, get_restaurant, create_restaurant,
  update_restaurant, delete_restaurant, list_categories, create_category, update_category,
  delete_category, reorder_categories, list_dishes, get_dish, create_dish, update_dish, delete_dish,
  toggle_dish_availability, get_menu, as_user,
}
use proyecto_1_back.Api.Responses.{Times, Body, answer}
use proyecto_1_back.Api.Routes
use proyecto_1_back.Api.Routes.{respond}

-- it raises and leaves the state as it was, or it returns
abbrev Whole : {A : Type 0} → World → Result A × World → Type 0
Whole {A} w x = ((e : Exc) × (x ≡ (err e, w))) ⊎ ((a : A) × (w' : World) × (x ≡ (ok a, w')))

abbrev Atomic : {A : Type 0} → Exec A → Type 0
Atomic m = (w : World) → Whole w (m w)

module _ {A : Type 0} where
  commit-Atomic : (t : Db → Result (A × Db)) → Atomic (commit t)
  commit-Atomic t w = elim (Result-cases (t w.db)) [
    | inl (e, h) ↦ rw h (inl (e, refl))
    | inr ((a, db), h) ↦ rw h (inr (a, record w { db = db }, refl))
  ]

  lift-Atomic : (r : Result A) → Atomic (lift r)
  lift-Atomic (ok a) w = inr (a, w, refl)
  lift-Atomic (err e) w = inl (e, refl)

  of_Settled :
      {Granted : Type 0} (t : Granted → Db → Result (A × Db)) (w : World) (x : Result A × World)
      → Settled w Granted t x
      → Whole w x
  of_Settled t w x (inl refused) = inl refused
  of_Settled t w x (inr (g, a, db, _, is)) = inr (a, _, is)

  of_Reading : {R : A → Type 0} (m : Exec A) (w : World) → Reading m w R → Whole w (m w)
  of_Reading m w (inl refused) = inl refused
  of_Reading m w (inr (a, is, _)) = inr (a, w, is)

module _ {A B : Type 0} where
  -- a step that only reads, and the rest
  reading_first :
      {R : A → Type 0} (m : Exec A) (f : A → Exec B) (w : World)
      → Reading m w R
      → ((a : A) → Whole w (f a w))
      → Whole w ((m >>= f) w)
  reading_first m f w r rest = through m f w (Whole w) r (λ e. inl (e, refl)) (λ a _. rest a)

  after-query :
      (q : Db → Result A) (f : A → Exec B) → ((a : A) → Atomic (f a)) → Atomic (query q >>= f)
  after-query q f rest w = reading_first (query q) f w (query-Reading q w) (λ a. rest a w)

  after-lift : (r : Result A) (f : A → Exec B) → ((a : A) → Atomic (f a)) → Atomic (lift r >>= f)
  after-lift r f rest w = reading_first (lift r) f w (lift-Reading r w) (λ a. rest a w)

as_user-Whole :
    {A : Type 0} (env : Env) (b : Bearer) (f : Uuid → Exec A) (w : World)
    → ((u : Uuid) → Whole w (f u w))
    → Whole w (as_user env b f w)
unfolding as_user
as_user-Whole env b f w rest =
    reading_first (lift (get_current_user_id env b.at b.token)) f w (lift-Reading _ w) rest

get_by_owner-Atomic : (u : Uuid) → Atomic (Restaurants.get_by_owner u)
unfolding Restaurants.get_by_owner
get_by_owner-Atomic u =
    after-query (Shops.get_by_owner_id u) _
      λ o. lift-Atomic (require o (not_found "Restaurant not found"))

create_restaurant-Atomic :
    (env : Env) (d : Defaults) (u : Uuid) (body : RestaurantCreate)
    → Atomic (Restaurants.create env d u body)
unfolding Restaurants.create
create_restaurant-Atomic env d u body =
    let free = ensure_unique_slug (generate_slug env.wide body.name slug_length) none in
    let named = query free >>= λ slug. commit (Shops.create d u slug body) in
    let refusal = conflict "User already has a restaurant" in
    after-query (Shops.get_by_owner_id u) (λ existing. raise_if (is_some existing) refusal >> named)
      λ existing.
        after-lift (if is_some existing then err refusal else ok tt) (λ _. named)
          λ _.
            after-query free (λ slug. commit (Shops.create d u slug body))
              λ slug. commit-Atomic (Shops.create d u slug body)

list_categories-Atomic :
    (u : Uuid) (active_only : Bool) → Atomic (Categories.list_categories u active_only)
unfolding Categories.list_categories
list_categories-Atomic u active_only w =
    reading_first (Restaurants.get_by_owner u) _ w (ShopOutcomes.get_by_owner-Reading w u)
      λ r. inr (Sections.list_by_restaurant r.id active_only w.db, w, refl)

list_dishes-Atomic :
    (env : Env) (u : Uuid) (f : Plates.DishFilter) (limit offset : ℕ)
    → Atomic (Dishes.list_dishes env u f limit offset)
unfolding Dishes.list_dishes
list_dishes-Atomic env u f limit offset w =
    reading_first (Restaurants.get_by_owner u) _ w (ShopOutcomes.get_by_owner-Reading w u) λ r.
      reading_first (Dishes.verify_filter f.category_id u) _ w
        (verify_filter-Reading w u f.category_id) λ _. inr (_, w, refl)

logout-Atomic : (now : Time) (u : Uuid) → Atomic (Auth.logout now u)
unfolding Auth.logout
logout-Atomic now u = commit-Atomic (RefreshTokens.revoke_all_for_user now u)

-- The requests that commit at most once: not the ones that issue tokens or show a menu.
unfoldable pub commits_once : Request → Bool
commits_once (register salt d i email password) = false
commits_once (login i email password) = false
commits_once (refresh r token) = false
commits_once (get_menu read_at stored_at scan slug) = false
commits_once _ = true

module _ {A : Type 0} (id : Text) (status_code : ℕ) (shown : A → Body) where
  answer-Whole :
      (w : World) (x : Result A × World)
      → Whole w x
      → status_code < 400
      → 400 ≤ (answer id status_code shown x).0.status_code
      → (answer id status_code shown x).1 ≡ w
  answer-Whole w x (inl (e, is)) fine refused = rw is refl
  answer-Whole w x (inr (a, w', is)) fine refused = absurd (omega (arith, rw is at refused))

module _ (env : Env) (id : Text) where
  user-Whole :
      {A : Type 0} (b : Bearer) (f : Uuid → Exec A) (status_code : ℕ) (shown : A → Body) (w : World)
      → ((u : Uuid) → Whole w (f u w))
      → status_code < 400
      → 400 ≤ (answer id status_code shown (as_user env b f w)).0.status_code
      → (answer id status_code shown (as_user env b f w)).1 ≡ w
  user-Whole b f status_code shown w whole =
      answer-Whole id status_code shown w (as_user env b f w) (as_user-Whole env b f w whole)

-- A request that commits at most once and is answered with an error, by whichever route, leaves the whole
-- state as it was, the database and the cache.
pub error_changes_nothing :
    (times : Times) (env : Env) (id : Text) (r : Request) (w : World)
    → commits_once r ≡ true
    → 400 ≤ (respond times env id r w).0.status_code
    → (respond times env id r w).1 ≡ w
unfolding respond commits_once Routes.register Routes.login Routes.refresh Routes.logout
    Routes.get_restaurant Routes.create_restaurant Routes.update_restaurant Routes.delete_restaurant
    Routes.list_categories Routes.create_category Routes.update_category Routes.delete_category
    Routes.reorder_categories Routes.list_dishes Routes.get_dish Routes.create_dish
    Routes.update_dish Routes.delete_dish Routes.toggle_dish_availability Routes.get_menu
error_changes_nothing times env id (register salt d i email password) w h refused = absurd (cc h)
error_changes_nothing times env id (login i email password) w h refused = absurd (cc h)
error_changes_nothing times env id (refresh r token) w h refused = absurd (cc h)
error_changes_nothing times env id (get_menu read_at stored_at scan slug) w h refused =
    absurd (cc h)
error_changes_nothing times env id (logout b now) w h refused =
    user-Whole env id b (Auth.logout now) 204 _ w (λ u. logout-Atomic now u w) (omega arith) refused
error_changes_nothing times env id (get_restaurant b) w h refused =
    user-Whole env id b (Restaurants.get_by_owner) 200 _ w (λ u. get_by_owner-Atomic u w)
      (omega arith) refused
error_changes_nothing times env id (create_restaurant b d body) w h refused =
    user-Whole env id b (λ u. Restaurants.create env d u body) 201 _ w
      (λ u. create_restaurant-Atomic env d u body w) (omega arith) refused
error_changes_nothing times env id (update_restaurant b stamp body) w h refused =
    user-Whole env id b (λ u. Restaurants.update env stamp u body) 200 _ w
      (λ u.
        of_Settled (λ g. Shops.update stamp g.own.restaurant body g.slug) w _
          (ShopOutcomes.update_restaurant-Settled w u env stamp body))
      (omega arith) refused
error_changes_nothing times env id (delete_restaurant b) w h refused =
    user-Whole env id b (Restaurants.delete) 204 _ w
      (λ u.
        of_Settled (λ g. Shops.delete g.restaurant) w _
          (ShopOutcomes.delete_restaurant-Settled w u))
      (omega arith) refused
error_changes_nothing times env id (list_categories b) w h refused =
    user-Whole env id b (λ u. Categories.list_categories u false) 200 _ w
      (λ u. list_categories-Atomic u false w) (omega arith) refused
error_changes_nothing times env id (create_category b d body) w h refused =
    user-Whole env id b (λ u. Categories.create d u body) 201 _ w
      (λ u.
        of_Settled
          (λ g. Sections.create d g.restaurant.id body.name body.description none body.active) w _
          (SectionOutcomes.create_category-Settled w u d body))
      (omega arith) refused
error_changes_nothing times env id (update_category b stamp category_id body) w h refused =
    user-Whole env id b (λ u. Categories.update stamp category_id u body) 200 _ w
      (λ u.
        of_Settled (λ g. Sections.update stamp g.category body) w _
          (SectionOutcomes.update_category-Settled w u stamp category_id body))
      (omega arith) refused
error_changes_nothing times env id (delete_category b category_id) w h refused =
    user-Whole env id b (Categories.delete category_id) 204 _ w
      (λ u.
        of_Settled (λ g. Sections.delete g.own.category) w _
          (SectionOutcomes.delete_category-Settled w u category_id))
      (omega arith) refused
error_changes_nothing times env id (reorder_categories b clock ids) w h refused =
    user-Whole env id b (λ u. Categories.reorder clock u ids) 204 _ w
      (λ u.
        of_Settled (λ g. Sections.reorder_categories clock g.own.restaurant.id ids) w _
          (SectionOutcomes.reorder-Settled w u clock ids))
      (omega arith) refused
error_changes_nothing times env id (list_dishes b f limit offset) w h refused =
    user-Whole env id b (λ u. Dishes.list_dishes env u f limit offset) 200 _ w
      (λ u. list_dishes-Atomic env u f limit offset w) (omega arith) refused
error_changes_nothing times env id (get_dish b dish_id) w h refused =
    user-Whole env id b (Dishes.get_dish dish_id) 200 _ w
      (λ u. of_Reading (Dishes.get_dish dish_id u) w (get_dish-Reading w u dish_id)) (omega arith)
      refused
error_changes_nothing times env id (create_dish b d body) w h refused =
    user-Whole env id b (λ u. Dishes.create d u body) 201 _ w
      (λ u.
        of_Settled (λ _. Plates.create d body none) w _
          (PlateOutcomes.create_dish-Settled w u d body))
      (omega arith) refused
error_changes_nothing times env id (update_dish b stamp dish_id body) w h refused =
    user-Whole env id b (λ u. Dishes.update stamp dish_id u body) 200 _ w
      (λ u.
        of_Settled (λ g. Plates.update stamp g.0.dish body) w _
          (PlateOutcomes.update_dish-Settled w u stamp dish_id body))
      (omega arith) refused
error_changes_nothing times env id (delete_dish b now stamp dish_id) w h refused =
    user-Whole env id b (Dishes.delete now stamp dish_id) 200 _ w
      (λ u.
        of_Settled (λ g. Plates.soft_delete now stamp g.dish) w _
          (PlateOutcomes.delete_dish-Settled w u now stamp dish_id))
      (omega arith) refused
error_changes_nothing times env id (toggle_dish_availability b stamp dish_id) w h refused =
    user-Whole env id b (Dishes.toggle_availability stamp dish_id) 200 _ w
      (λ u.
        of_Settled (λ g. Plates.toggle_availability stamp g.dish) w _
          (PlateOutcomes.toggle_availability-Settled w u stamp dish_id))
      (omega arith) refused
