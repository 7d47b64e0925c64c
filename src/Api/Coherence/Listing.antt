-- ===== src/Api/Coherence/Listing.antt =====
-- The commit of a new restaurant, api/app/services/restaurant_service.py, beside the menu cache.
use proyecto_1_back.Prelude.{
  ◌≡◌, ap, ◌∙◌, false, List, [], ◌∷◌, ◌++◌, any, filter, Bool-cases, inl, inr,
}
use proyecto_1_back.Http.{ok}
use proyecto_1_back.Text.{Text, text_eq, text_eq_iff}
use proyecto_1_back.Models.{Restaurant, Db}
use proyecto_1_back.Schemas.{MenuResponse}
use proyecto_1_back.Sql.Laws.{filter-append, filter_none}
use proyecto_1_back.App.{World}
use proyecto_1_back.Repositories.Restaurants as Rows
use proyecto_1_back.Repositories.Inserts.{RestaurantInsert}
use proyecto_1_back.Services.Menu.Build.{fresh_menu}
use proyecto_1_back.Services.Menu.Coherence.{IsCoherent}

-- a slug that no restaurant has shows no menu
fresh_menu-absent :
    (slug : Text) (db : Db) (menu : MenuResponse)
    → any (λ r. text_eq r.slug slug) db.restaurants ≡ false
    → fresh_menu slug db ≡ ok menu
    → ⊥
unfolding fresh_menu Rows.get_by_slug
fresh_menu-absent slug db menu absent h =
    cc (rw (filter_none (λ r. text_eq r.slug slug) db.restaurants absent) at h)

append-nil_of : {A : Type 0} (xs ys : List A) → ys ≡ [] → xs ++ ys ≡ xs
append-nil_of [] ys h = h
append-nil_of (x ∷ xs) ys h = ap (λ (zs : List _). x ∷ zs) (append-nil_of xs ys h)

module _ (db : Db) (r : Restaurant) where
  abbrev with_restaurant : Db
  with_restaurant = record db { restaurants = db.restaurants ++ r ∷ [] }

  fresh_menu-append :
      (slug : Text)
      → text_eq r.slug slug ≡ false
      → fresh_menu slug with_restaurant ≡ fresh_menu slug db
  unfolding fresh_menu Rows.get_by_slug
  fresh_menu-append slug other =
      let rows = Rows.rows_by_slug slug db in
      let same : Rows.rows_by_slug slug with_restaurant ≡ rows =
        filter-append (λ s. text_eq s.slug slug) db.restaurants (r ∷ [])
        ∙ append-nil_of rows (filter (λ s. text_eq s.slug slug) (r ∷ [])) (rw other) in
      rw same

  pub with_restaurant-keeps :
      (slug : Text) (menu : MenuResponse)
      → any (λ s. text_eq s.slug r.slug) db.restaurants ≡ false
      → fresh_menu slug db ≡ ok menu
      → fresh_menu slug with_restaurant ≡ ok menu
  with_restaurant-keeps slug menu free h = elim (Bool-cases (text_eq r.slug slug)) [
    | inl e ↦ absurd (fresh_menu-absent slug db menu (rw ((text_eq_iff r.slug slug).0 e) at free) h)
    | inr e ↦ fresh_menu-append slug e ∙ h
  ]

-- A new restaurant keeps the cached menus current.
pub restaurant_added-IsCoherent :
    (w : World) (r : Restaurant) (db : Db)
    → RestaurantInsert w.db r db
    → IsCoherent w
    → IsCoherent (record w { db = db })
restaurant_added-IsCoherent w r db insert c = rw insert.stored (record {
  at_slug =
      λ s e found. with_restaurant-keeps w.db r s e.value insert.slug_free (c.at_slug s e found);
})
