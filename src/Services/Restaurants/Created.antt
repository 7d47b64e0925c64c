-- ===== src/Services/Restaurants/Created.antt =====
-- `create` of api/app/services/restaurant_service.py for a user who has no restaurant yet.
use proyecto_1_back.Prelude.{
  ◌≡◌, refl, ap, ◌∙◌, Bool, true, false, Option, none, some, List, [], ◌∷◌, ◌++◌, filter, any, ◌==◌,
  Bool-cases, inl, inr,
}
use proyecto_1_back.Http.{ok}
use proyecto_1_back.Text.{Text, text_eq}
use proyecto_1_back.Env.{Env}
use proyecto_1_back.Models.{Uuid, Restaurant, Db, Defaults}
use proyecto_1_back.Schemas.{RestaurantCreate}
use proyecto_1_back.App.{World}
use proyecto_1_back.Slug.{generate_slug}
use proyecto_1_back.Sql.Laws.{scalar_none}
use proyecto_1_back.Sql.Distinct.{Distinct, Distinct-insert}
use proyecto_1_back.Repositories.Restaurants as Rows
use proyecto_1_back.Services.Restaurants.{create, slug_length}
use proyecto_1_back.Services.Restaurants.FreeSlug.{is_usable}
use proyecto_1_back.Services.Restaurants.FreeSlug.Terminates.{ensure_unique_slug-Finds, same_slug}

module _ {A : Type 0} where
  any-of_none : (p : A → Bool) (xs : List A) → filter p xs ≡ [] → any p xs ≡ false
  any-of_none p [] h = refl
  any-of_none p (x ∷ xs) h = elim (Bool-cases (p x)) [
    | inl e ↦ absurd (cc (rw e at h))
    | inr e ↦ rw e (any-of_none p xs (rw e at h))
  ]

usable_none : (found : Option Restaurant) → is_usable none found ≡ true → found ≡ none
unfolding is_usable
usable_none none h = refl
usable_none (some r) h = absurd (cc h)

slug_free :
    (slug : Text) (db : Db)
    → Rows.get_by_slug slug db ≡ ok none
    → any (λ r. text_eq r.slug slug) db.restaurants ≡ false
unfolding Rows.get_by_slug
slug_free slug db h =
    any-of_none (λ r. text_eq r.slug slug) db.restaurants
      (scalar_none (Rows.rows_by_slug slug db) h)

owner_free :
    (u : Uuid) (db : Db)
    → Rows.get_by_owner_id u db ≡ ok none
    → any (λ r. r.owner_user_id == u) db.restaurants ≡ false
unfolding Rows.get_by_owner_id
owner_free u db h =
    any-of_none (λ r. r.owner_user_id == u) db.restaurants (scalar_none (Rows.rows_by_owner u db) h)

-- the database with the new restaurant
abbrev pub with_restaurant : Db → Restaurant → Db
with_restaurant db r = record db { restaurants = db.restaurants ++ r ∷ [] }

module _ (env : Env) (d : Defaults) (owner_user_id : Uuid) (body : RestaurantCreate)
    (w : World) where
  -- A user of the database who has no restaurant can create one, when the slugs are distinct and the
  -- new id is fresh: the restaurant is stored under a slug, and the slugs are distinct again.
  pub create_of_newcomer :
      Distinct same_slug w.db.restaurants
      → Rows.get_by_owner_id owner_user_id w.db ≡ ok none
      → any (λ u. u.id == owner_user_id) w.db.users ≡ true
      → any (λ r. r.id == d.id) w.db.restaurants ≡ false
      → (slug : Text) × (create env d owner_user_id body w ≡ (
        ok (Rows.new_restaurant d owner_user_id slug body),
        record w { db = with_restaurant w.db (Rows.new_restaurant d owner_user_id slug body) },
      ))
        × Distinct same_slug
            (with_restaurant w.db (Rows.new_restaurant d owner_user_id slug body)).restaurants
  unfolding create Rows.create
  create_of_newcomer distinct newcomer known fresh =
      let base = generate_slug env.wide body.name slug_length in
      let (slug, found, is, got, usable) = ensure_unique_slug-Finds base none w.db distinct in
      let free = slug_free slug w.db (got ∙ ap ok (usable_none found usable)) in
      (
        slug,
        rw newcomer (
            rw is
              (rw fresh (rw (owner_free owner_user_id w.db newcomer) (rw free (rw known refl))))),
        Distinct-insert same_slug w.db.restaurants (Rows.new_restaurant d owner_user_id slug body)
            free distinct,
      )
