-- ===== src/Trace/Made.antt =====
-- The commits of api/app/repositories/ and of api/app/api/routers/menu.py, when they are not refused,
-- as changes.
use proyecto_1_back.Prelude.{
  ℕ, ◌≡◌, refl, sym, ap, Bool, true, false, not, ◌||◌, Option, none, some, List, [], ◌∷◌, any, ◌==◌,
  inl, inr,
}
use proyecto_1_back.Prelude.Int.{ℤ}
use proyecto_1_back.Http.{Result, ok, Result-cases}
use proyecto_1_back.Text.{Text}
use proyecto_1_back.Env.{Env}
use proyecto_1_back.Models.{
  Uuid, Time, Restaurant, Category, Dish, ScanEvent, RefreshToken, Db, Defaults,
}
use proyecto_1_back.Schemas.{Patch, RestaurantUpdate, CategoryUpdate, DishCreate, DishUpdate}
use proyecto_1_back.Sql.{update_where}
use proyecto_1_back.Repositories.Users
use proyecto_1_back.Repositories.RefreshTokens
use proyecto_1_back.Repositories.Restaurants
use proyecto_1_back.Repositories.Categories
use proyecto_1_back.Repositories.Dishes
use proyecto_1_back.Repositories.Inserts.{
  unless_violated_ok, unless_violated_holds, or_false, not-false, user_insert, token_insert,
  category_insert, dish_insert,
}
use proyecto_1_back.Services.Menu.{add_scan}
use proyecto_1_back.Trace.Change.{AccountChange, CatalogueChange}

-- the database of a commit
pub db_of : {A : Type 0} (x y : A × Db) → ◌≡◌ {A = Result (A × Db)} (ok x) (ok y) → x.1 ≡ y.1
db_of {A} x y h = ap (λ (z : A × Db). z.1) (inner h)
  where
    inner : ◌≡◌ {A = Result (A × Db)} (ok x) (ok y) → x ≡ y
    inner h = cc

update_nothing : {A : Type 0} (f : A → A) (xs : List A) → xs ≡ update_where (λ _. false) f xs
update_nothing f [] = refl
update_nothing f (x ∷ xs) = ap (λ (ys : List _). x ∷ ys) (update_nothing f xs)

-- A commit, when it is not refused, is a change.
abbrev pub Makes : {A : Type 0} → (Db → Db → Type 0) → (Db → Result (A × Db)) → Type 0
Makes {A} C t = (db : Db) (a : A) (db' : Db) → t db ≡ ok (a, db') → C db db'

module _ (env : Env) where
  pub user_made :
      (d : Defaults) (email hash : Text) → Makes AccountChange (Users.create env d email hash)
  user_made d email hash db u db' h =
      AccountChange.user_added u (user_insert env d email hash db u db' h).1

  pub token_made :
      (d : Defaults) (now : Time) (user_id : Uuid) (token : Text) (days : ℕ)
      → Makes AccountChange (RefreshTokens.create env d now user_id token days)
  token_made d now user_id token days db t db' h =
      AccountChange.token_added t (token_insert env d now user_id token days db t db' h).1

  revoke_found_made :
      (now : Time) (o : Option RefreshToken) (db : Db)
      → AccountChange db (RefreshTokens.revoke_found now o db)
  unfolding RefreshTokens.revoke_found
  revoke_found_made now none db =
      AccountChange.tokens_revoked (λ _. false) now
        (ap (λ (ts : List RefreshToken). record db { refresh_tokens = ts })
          (update_nothing (RefreshTokens.revoke_row now) db.refresh_tokens))
  revoke_found_made now (some t) db = AccountChange.tokens_revoked (λ row. row.id == t.id) now refl

  pub revoke_made :
      (now : Time) (token : Text) → Makes AccountChange (RefreshTokens.revoke env now token)
  unfolding RefreshTokens.revoke
  revoke_made now token db a db' h = elim (Result-cases (RefreshTokens.get_by_token env token db)) [
    | inl (e, r) ↦ absurd (cc (rw r at h))
    | inr (o, r) ↦
        rw⁻¹ (db_of (tt, RefreshTokens.revoke_found now o db) (a, db') (rw r at h))
          (revoke_found_made now o db)
  ]

pub revoke_all_made :
    (now : Time) (user_id : Uuid)
    → Makes AccountChange (RefreshTokens.revoke_all_for_user now user_id)
unfolding RefreshTokens.revoke_all_for_user
revoke_all_made now user_id db a db' h =
    AccountChange.tokens_revoked (RefreshTokens.revocable user_id) now (sym (db_of _ (a, db') h))

pub scan_made : (event : ScanEvent) → Makes AccountChange (add_scan event)
unfolding add_scan
scan_made event db a db' h =
    let taken : Bool = any (λ e. e.id == event.id) db.scan_events in
    let there : Bool = any (λ r. r.id == event.restaurant_id) db.restaurants in
    let (p, q) = or_false taken (not there) (unless_violated_holds (taken || not there) _ _ h) in
    AccountChange.scan_added event (record {
      id_free = p;
      restaurant_there = not-false there q;
      stored =
          sym (ap (λ (z : Unit {0} × Db). z.1) (unless_violated_ok (taken || not there) _ _ h));
    })

pub restaurant_changed_made :
    (stamp : Option Time) (r : Restaurant) (u : RestaurantUpdate) (slug : Patch Text)
    → Makes CatalogueChange (Restaurants.update stamp r u slug)
unfolding Restaurants.update
restaurant_changed_made stamp restaurant u slug db a db' h =
    elim (Result-cases (Restaurants.changed stamp u slug restaurant)) [
      | inl (e, g) ↦ absurd (cc (rw g at h))
      | inr (r, g) ↦
          let h' = rw g at h in
          CatalogueChange.restaurant_changed r
            (unless_violated_holds (Restaurants.slug_clash r db) _ _ h')
            (sym (
              ap (λ (z : Restaurant × Db). z.1)
                (unless_violated_ok (Restaurants.slug_clash r db) _ _ h')))
    ]

pub restaurant_removed_made : (r : Restaurant) → Makes CatalogueChange (Restaurants.delete r)
restaurant_removed_made r db a db' h = CatalogueChange.restaurant_removed r h

pub category_made :
    (d : Defaults) (restaurant_id : Uuid) (name : Text) (description : Option Text)
    (position : Option ℤ) (active : Bool)
    → Makes CatalogueChange (Categories.create d restaurant_id name description position active)
category_made d restaurant_id name description position active db c db' h =
    CatalogueChange.category_added c
      (category_insert d restaurant_id name description position active db c db' h).1

pub category_changed_made :
    (stamp : Option Time) (c : Category) (u : CategoryUpdate)
    → Makes CatalogueChange (Categories.update stamp c u)
unfolding Categories.update
category_changed_made stamp category u db a db' h =
    elim (Result-cases (Categories.changed stamp u category)) [
      | inl (e, g) ↦ absurd (cc (rw g at h))
      | inr (c, g) ↦ CatalogueChange.category_changed c (sym (db_of _ (a, db') (rw g at h)))
    ]

pub category_removed_made : (c : Category) → Makes CatalogueChange (Categories.delete c)
category_removed_made c db a db' h = CatalogueChange.category_removed c h

pub categories_placed_made :
    (clock : ℕ → Time) (restaurant_id : Uuid) (ids : List Uuid)
    → Makes CatalogueChange (Categories.reorder_categories clock restaurant_id ids)
unfolding Categories.reorder_categories
categories_placed_made clock restaurant_id ids db a db' h =
    CatalogueChange.categories_placed clock restaurant_id ids (sym (db_of _ (a, db') h))

pub dish_made :
    (d : Defaults) (body : DishCreate) (position : Option ℤ)
    → Makes CatalogueChange (Dishes.create d body position)
dish_made d body position db x db' h =
    CatalogueChange.dish_added x (dish_insert d body position db x db' h).1

pub dish_changed_made :
    (stamp : Option Time) (dish : Dish) (u : DishUpdate)
    → Makes CatalogueChange (Dishes.update stamp dish u)
unfolding Dishes.update
dish_changed_made stamp dish u db a db' h = elim (Result-cases (Dishes.changed stamp u dish)) [
  | inl (e, g) ↦ absurd (cc (rw g at h))
  | inr (d, g) ↦
      let h' = rw g at h in
      let there : Bool = any (λ c. c.id == d.category_id) db.categories in
      CatalogueChange.dish_changed d (not-false there (unless_violated_holds (not there) _ _ h'))
        (sym (ap (λ (z : Dish × Db). z.1) (unless_violated_ok (not there) _ _ h')))
]

-- a row of a dish that is found has its category
module _ (dish : Dish) (db : Db)
    (there : any (λ c. c.id == dish.category_id) db.categories ≡ true) where
  pub soft_delete_made :
      (now stamp : Time) (a : Dish) (db' : Db)
      → Dishes.soft_delete now stamp dish db ≡ ok (a, db')
      → CatalogueChange db db'
  unfolding Dishes.soft_delete
  soft_delete_made now stamp a db' h =
      CatalogueChange.dish_changed (record dish { deleted_at = some now; updated_at = stamp }) there
        (sym (db_of _ (a, db') h))

  pub toggle_made :
      (stamp : Time) (a : Dish) (db' : Db)
      → Dishes.toggle_availability stamp dish db ≡ ok (a, db')
      → CatalogueChange db db'
  unfolding Dishes.toggle_availability
  toggle_made stamp a db' h =
      CatalogueChange.dish_changed
        (record dish { available = not dish.available; updated_at = stamp }) there
        (sym (db_of _ (a, db') h))
