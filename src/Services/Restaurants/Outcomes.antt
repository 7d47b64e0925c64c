-- ===== src/Services/Restaurants/Outcomes.antt =====
-- How `update` and `delete` of the restaurant service end, and what `get_by_owner` returns.
use proyecto_1_back.Prelude.{◌≡◌, refl, ap, ◌∙◌, Option, some, inl, inr}
use proyecto_1_back.Http.{ok, not_found, attribute_error}
use proyecto_1_back.Text.{Text}
use proyecto_1_back.Env.{Env}
use proyecto_1_back.Models.{Uuid, Time, Restaurant, Db}
use proyecto_1_back.Schemas.{Patch, unset, null, set, RestaurantUpdate}
use proyecto_1_back.App.{World, or_raise}
use proyecto_1_back.App.Steps.{Reading, after_query, weaken-Reading, or_raise-Reading}
use proyecto_1_back.Slug.{generate_slug}
use proyecto_1_back.Repositories.Restaurants as Rows
use proyecto_1_back.Services.Restaurants.{get_by_owner, new_slug, update, delete, slug_length}
use proyecto_1_back.Services.Restaurants.FreeSlug.{ensure_unique_slug}
use proyecto_1_back.Services.Settled.{Settled, Settled-through, commit_forget, commit_then_forget}

-- The user's restaurant, as a query finds it.
pub record OwnRestaurant (db : Db) (owner_user_id : Uuid) : Type 0 where
  pub restaurant : Restaurant
  pub found : Rows.get_by_owner_id owner_user_id db ≡ ok (some restaurant)

module _ (w : World) (owner_user_id : Uuid) where
  pub get_by_owner-Reading :
      Reading
        (get_by_owner owner_user_id)
        w
        (λ r. Rows.get_by_owner_id owner_user_id w.db ≡ ok (some r))
  unfolding get_by_owner
  get_by_owner-Reading = after_query (Rows.get_by_owner_id owner_user_id) _ w λ found e.
      weaken-Reading (λ r. Rows.get_by_owner_id owner_user_id w.db ≡ ok (some r))
        (or_raise found (not_found "Restaurant not found")) w
        (or_raise-Reading found (not_found "Restaurant not found") w) λ r is. e ∙ ap ok is

-- what the slug patch of an update is
abbrev pub IsNewSlug : Env → Db → Uuid → Patch Text → Patch Text → Type 0
IsNewSlug env db restaurant_id unset p = p ≡ unset
IsNewSlug env db restaurant_id null p = ⊥
IsNewSlug env db restaurant_id (set name) p =
    (slug : Text) × (ensure_unique_slug (generate_slug env.wide name slug_length)
        (some restaurant_id) db
      ≡ ok slug)
    × (p ≡ set slug)

module _ (env : Env) (w : World) where
  pub new_slug-Reading :
      (restaurant_id : Uuid) (name : Patch Text)
      → Reading (new_slug env restaurant_id name) w (IsNewSlug env w.db restaurant_id name)
  unfolding new_slug
  new_slug-Reading restaurant_id unset = inr (unset, refl, refl)
  new_slug-Reading restaurant_id null = inl (attribute_error, refl)
  new_slug-Reading restaurant_id (set name) =
      after_query
        (ensure_unique_slug (generate_slug env.wide name slug_length) (some restaurant_id)) _ w
        λ slug e. inr (set slug, refl, (slug, e, refl))

-- the restaurant that an update is granted, with its new slug
pub record Renaming (env : Env) (db : Db) (owner_user_id : Uuid) (name : Patch Text) : Type 0 where
  pub own : OwnRestaurant db owner_user_id
  pub slug : Patch Text
  pub is_new : IsNewSlug env db own.restaurant.id name slug

module _ (w : World) (owner_user_id : Uuid) where
  pub update_restaurant-Settled :
      (env : Env) (stamp : Option Time) (body : RestaurantUpdate)
      → Settled w
          (Renaming env w.db owner_user_id body.name)
          (λ g. Rows.update stamp g.own.restaurant body g.slug)
          (update env stamp owner_user_id body w)
  unfolding update
  update_restaurant-Settled env stamp body =
      Settled-through (λ g. Rows.update stamp g.own.restaurant body g.slug)
        (get_by_owner owner_user_id) _ w (get_by_owner-Reading w owner_user_id)
        λ r found.
          Settled-through (λ g. Rows.update stamp g.own.restaurant body g.slug)
            (new_slug env r.id body.name) _ w (new_slug-Reading env w r.id body.name)
            λ slug is.
              commit_forget (λ g. Rows.update stamp g.own.restaurant body g.slug)
                (record {
                  own = record { restaurant = r; found = found };
                  slug = slug;
                  is_new = is;
                })
                w

  pub delete_restaurant-Settled :
      Settled w
        (OwnRestaurant w.db owner_user_id)
        (λ g. Rows.delete g.restaurant)
        (delete owner_user_id w)
  unfolding delete
  delete_restaurant-Settled =
      Settled-through (λ g. Rows.delete g.restaurant) (get_by_owner owner_user_id) _ w
        (get_by_owner-Reading w owner_user_id)
        λ r found.
          commit_then_forget (λ g. Rows.delete g.restaurant)
            (record { restaurant = r; found = found }) w
