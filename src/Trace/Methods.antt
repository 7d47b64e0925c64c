-- ===== src/Trace/Methods.antt =====
-- The methods of api/app/services/ that are more than one commit with the menus forgotten, as steps.
use proyecto_1_back.Prelude.{ℕ, ◌≡◌, refl, inl, inr, not, Bool, none, some, Option}
use proyecto_1_back.Http.{Result, ok, err, conflict, key_error, Result-cases, unauthorized}
use proyecto_1_back.Text.{Text}
use proyecto_1_back.Env.{Env}
use proyecto_1_back.Models.{Uuid, Time, Defaults}
use proyecto_1_back.Schemas.{RestaurantCreate, MenuResponse}
use proyecto_1_back.Cache.{cache_get}
use proyecto_1_back.App.{World, pure, commit, or_raise}
use proyecto_1_back.Slug.{generate_slug}
use proyecto_1_back.Security.{verify_refresh_token, subject}
use proyecto_1_back.Repositories.Users
use proyecto_1_back.Repositories.Users.{is_some}
use proyecto_1_back.Repositories.RefreshTokens
use proyecto_1_back.Repositories.Restaurants as Rows
use proyecto_1_back.Repositories.Dishes.{DishFilter}
use proyecto_1_back.Repositories.Inserts.{restaurant_insert}
use proyecto_1_back.Services.Auth
use proyecto_1_back.Services.Auth.{Issue, RefreshReads}
use proyecto_1_back.Services.Restaurants
use proyecto_1_back.Services.Restaurants.FreeSlug.{ensure_unique_slug}
use proyecto_1_back.Services.Restaurants.Outcomes as Shops
use proyecto_1_back.Services.Categories
use proyecto_1_back.Services.Dishes
use proyecto_1_back.Services.Dishes.Ownership.{verify_filter-Reading}
use proyecto_1_back.Services.Menu
use proyecto_1_back.Services.Menu.{cache_key}
use proyecto_1_back.Services.Menu.Build.{fresh_menu}
use proyecto_1_back.Trace.{Step, Reach, here, next, Reach-trans}
use proyecto_1_back.Trace.Made.{user_made, token_made, revoke_made, revoke_all_made, scan_made}
use proyecto_1_back.Trace.Rules.{
  Reaches, Reaches-bind, after-query, after-lift, after-raise_if, Reaches-of_Reading,
  Reaches-account,
}

pub get_by_owner-Reaches : (u : Uuid) → Reaches (Restaurants.get_by_owner u)
get_by_owner-Reaches u =
    Reaches-of_Reading {R = λ w r. Rows.get_by_owner_id u w.db ≡ ok (some r)}
      (Restaurants.get_by_owner u) (λ w. Shops.get_by_owner-Reading w u)

module _ (env : Env) where
  issue_tokens-Reaches :
      (i : Issue) (u : Uuid) (email : Text) → Reaches (Auth.issue_tokens env i u email)
  unfolding Auth.issue_tokens
  issue_tokens-Reaches i u email =
      Reaches-bind
        (commit (RefreshTokens.create env i.row i.stored_at u _ env.jwt_refresh_ttl_days)) _
        (Reaches-account _ (token_made env i.row i.stored_at u _ env.jwt_refresh_ttl_days))
        λ _ w. here

  pub register-Reaches :
      (salt : Text) (d : Defaults) (i : Issue) (email password : Text)
      → Reaches (Auth.register env salt d i email password)
  unfolding Auth.register
  register-Reaches salt d i email password =
      after-query (Users.exists_by_email env email) _ λ taken.
        after-raise_if taken (conflict "Email already registered") _ λ _.
          Reaches-bind (commit (Users.create env d email (env.bcrypt_hash salt password))) _
            (Reaches-account _ (user_made env d email (env.bcrypt_hash salt password)))
            λ user.
              Reaches-bind (Auth.issue_tokens env i user.id user.email) _
                (issue_tokens-Reaches i user.id user.email) λ _ w. here

  pub login-Reaches :
      (i : Issue) (email password : Text) → Reaches (Auth.login env i email password)
  unfolding Auth.login
  login-Reaches i email password = after-query (Users.get_by_email env email) _ λ found.
      after-lift (Auth.checked_user env password found) _ λ user.
        Reaches-bind (Auth.issue_tokens env i user.id user.email) _
          (issue_tokens-Reaches i user.id user.email) λ _ w. here

  rotate-Reaches : (r : RefreshReads) (token : Text) → Reaches (Auth.rotate env r token)
  unfolding Auth.rotate
  rotate-Reaches r token = after-lift (verify_refresh_token env r.decoded_at token) _ λ payload.
      after-lift (subject env payload) _ λ user_id.
        Reaches-bind (or_raise payload.email key_error) _ (λ w. here)
          λ email. after-query (RefreshTokens.is_valid env r.checked_at token) _ λ valid.
            after-raise_if (not valid) (unauthorized "Invalid or expired refresh token") _ λ _.
              Reaches-bind (commit (RefreshTokens.revoke env r.revoked_at token)) _
                (Reaches-account _ (revoke_made env r.revoked_at token))
                λ _. issue_tokens-Reaches r.issue user_id email

  pub refresh-Reaches : (r : RefreshReads) (token : Text) → Reaches (Auth.refresh env r token)
  unfolding Auth.refresh
  refresh-Reaches r token w = go (Auth.rotate env r token w) (rotate-Reaches r token w)
    where
      go : (x : Result (Text × Text) × World) → Reach w x.1 → Reach w (Auth.reraised x).1
      go (ok a, w') h = h
      go (err e, w') h = h

  pub create_restaurant-Reaches :
      (d : Defaults) (u : Uuid) (body : RestaurantCreate)
      → Reaches (Restaurants.create env d u body)
  unfolding Restaurants.create
  create_restaurant-Reaches d u body = after-query (Rows.get_by_owner_id u) _ λ existing.
      after-raise_if (is_some existing) (conflict "User already has a restaurant") _ λ _.
        after-query
          (ensure_unique_slug (generate_slug env.wide body.name Restaurants.slug_length) none) _
          λ slug w. elim (Result-cases (Rows.create d u slug body w.db)) [
            | inl (e, h) ↦ rw h here
            | inr ((r, db), h) ↦ rw h (
                next here
                  (Step.restaurant_added r db (restaurant_insert d u slug body w.db r db h).1 refl))
          ]

  pub list_dishes-Reaches :
      (u : Uuid) (f : DishFilter) (limit offset : ℕ)
      → Reaches (Dishes.list_dishes env u f limit offset)
  unfolding Dishes.list_dishes
  list_dishes-Reaches u f limit offset =
      Reaches-bind (Restaurants.get_by_owner u) _ (get_by_owner-Reaches u) λ _.
        Reaches-bind (Dishes.verify_filter f.category_id u) _
          (Reaches-of_Reading (Dishes.verify_filter f.category_id u)
            (λ w. verify_filter-Reading w u f.category_id))
          λ _ w. here

pub logout-Reaches : (now : Time) (u : Uuid) → Reaches (Auth.logout now u)
unfolding Auth.logout
logout-Reaches now u = Reaches-account _ (revoke_all_made now u)

menu_or_build-Reaches :
    (now : Time) (slug : Text) (o : Option MenuResponse) → Reaches (Menu.menu_or_build now slug o)
unfolding Menu.menu_or_build
menu_or_build-Reaches now slug (some menu) w = here
menu_or_build-Reaches now slug none w = elim (Result-cases (fresh_menu slug w.db)) [
  | inl (e, h) ↦ rw h here
  | inr (menu, h) ↦ rw h (next here (Step.menu_kept now slug menu h refl))
]

get_menu_by_slug-Reaches :
    (read_at stored_at : Time) (slug : Text)
    → Reaches (Menu.get_menu_by_slug read_at stored_at slug)
unfolding Menu.get_menu_by_slug
get_menu_by_slug-Reaches read_at stored_at slug w =
    Reach-trans (next here (Step.looked_up read_at slug refl)) (
      menu_or_build-Reaches stored_at slug (cache_get read_at (cache_key slug) w.cache).0
        (record w { cache = (cache_get read_at (cache_key slug) w.cache).1 }))

pub get_menu-Reaches :
    (read_at stored_at : Time) (scan : Menu.Scan) (slug : Text)
    → Reaches (Menu.get_menu read_at stored_at scan slug)
unfolding Menu.get_menu
get_menu-Reaches read_at stored_at scan slug =
    Reaches-bind (Menu.get_menu_by_slug read_at stored_at slug) _
      (get_menu_by_slug-Reaches read_at stored_at slug)
      λ menu.
        Reaches-bind {B = MenuResponse}
          (Menu.best_effort (commit (Menu.add_scan (Menu.event_of scan menu.restaurant_id))))
          (λ _. pure menu) (Reaches-account _ (scan_made (Menu.event_of scan menu.restaurant_id)))
          λ _ w. here

pub list_categories-Reaches :
    (u : Uuid) (active_only : Bool) → Reaches (Categories.list_categories u active_only)
unfolding Categories.list_categories
list_categories-Reaches u active_only =
    Reaches-bind (Restaurants.get_by_owner u) _ (get_by_owner-Reaches u) λ _ w. here
