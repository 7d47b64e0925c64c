-- ===== src/Services/Restaurants/Removed.antt =====
-- `delete` of api/app/services/restaurant_service.py, on the rows of the tables.
use proyecto_1_back.Prelude.{
  ◌≡◌, refl, ◌⊎◌, inl, inr, ◌&&◌, Bool, true, some, List, any, ◌==◌, ==_refl, arith, Bool-cases,
}
use mathlib.Core.List.{Memᴰ}
use proyecto_1_back.Http.{Exc, Result, ok, err}
use proyecto_1_back.Models.{Uuid, Restaurant, Category, Dish, ScanEvent, Db}
use proyecto_1_back.Sql.{delete_where}
use proyecto_1_back.Sql.Laws.{scalar_some}
use proyecto_1_back.Sql.Members.{
  Mem-delete_where, Mem-kept, Mem-any, any-Mem, found_row, unique_row,
}
use proyecto_1_back.Consistency.{UniqueId}
use proyecto_1_back.App.{World}
use proyecto_1_back.Repositories.Restaurants as Rows
use proyecto_1_back.Services.Settled.{forgotten}
use proyecto_1_back.Services.Restaurants.{delete, get_by_owner}
use proyecto_1_back.Services.Restaurants.Outcomes.{delete_restaurant-Settled}

-- the dish stands in a category of the restaurant
abbrev pub ServedAt : Db → Restaurant → Dish → Type 0
ServedAt db r d =
    (c : Category) × Memᴰ c db.categories × (c.id ≡ d.category_id) × (c.restaurant_id ≡ r.id)

-- The tables without a restaurant, its categories, their dishes, and its scans: every other row is kept,
-- and no row is added.
pub record Removed (r : Restaurant) (db db' : Db) : Type 0 where
  pub restaurants :
      (x : Restaurant)
      → (Memᴰ x db'.restaurants → Memᴰ x db.restaurants × ¬ (x.id ≡ r.id))
        × (Memᴰ x db.restaurants → ¬ (x.id ≡ r.id) → Memᴰ x db'.restaurants)
  pub categories :
      (c : Category)
      → (Memᴰ c db'.categories → Memᴰ c db.categories × ¬ (c.restaurant_id ≡ r.id))
        × (Memᴰ c db.categories → ¬ (c.restaurant_id ≡ r.id) → Memᴰ c db'.categories)
  pub dishes :
      (d : Dish)
      → (Memᴰ d db'.dishes → Memᴰ d db.dishes × ¬ ServedAt db r d)
        × (Memᴰ d db.dishes → ¬ ServedAt db r d → Memᴰ d db'.dishes)
  pub scans :
      (e : ScanEvent)
      → (Memᴰ e db'.scan_events → Memᴰ e db.scan_events × ¬ (e.restaurant_id ≡ r.id))
        × (Memᴰ e db.scan_events → ¬ (e.restaurant_id ≡ r.id) → Memᴰ e db'.scan_events)
  pub users : db'.users ≡ db.users
  pub refresh_tokens : db'.refresh_tokens ≡ db.refresh_tokens

-- a DELETE by a test that says whether `P`
module _ {A : Type 0} (p : A → Bool) (P : A → Type 0) (x : A) (xs : List A) where
  deleted_by :
      (P x → p x ≡ true)
      → (p x ≡ true → P x)
      → (Memᴰ x (delete_where p xs) → Memᴰ x xs × ¬ P x)
        × (Memᴰ x xs → ¬ P x → Memᴰ x (delete_where p xs))
  deleted_by to from = (
    λ m. let (there, not_p) = Mem-delete_where p x xs m in (there, λ h. cc (to h, not_p)),
    λ m no_p. elim (Bool-cases (p x)) [
      | inl e ↦ absurd (no_p (from e))
      | inr e ↦ Mem-kept p x xs m e
    ],
  )

served :
    (db : Db) (r : Restaurant) (d : Dish)
    → ServedAt db r d
    → any (λ c. c.id == d.category_id && Rows.belongs_to r.id c) db.categories ≡ true
served db r d (c, there, is, inside) =
    Mem-any (λ x. x.id == d.category_id && Rows.belongs_to r.id x) c db.categories there
      (rw is (rw inside (rw (==_refl d.category_id) (rw (==_refl r.id) refl))))

served_back :
    (db : Db) (r : Restaurant) (d : Dish)
    → any (λ c. c.id == d.category_id && Rows.belongs_to r.id c) db.categories ≡ true
    → ServedAt db r d
served_back db r d h =
    let (c, there, passed) =
      any-Mem (λ x. x.id == d.category_id && Rows.belongs_to r.id x) db.categories h in
    (c, there, ground (arith, passed), ground (arith, passed))

delete-Removed : (r : Restaurant) (db db' : Db) → Rows.delete r db ≡ ok (tt, db') → Removed r db db'
unfolding Rows.delete
delete-Removed r db db' h =
    let db'_is = stored h in
    rw⁻¹ db'_is (record {
      restaurants = λ x.
          deleted_by (λ y. y.id == r.id) (λ y. y.id ≡ r.id) x db.restaurants
            (λ e. ground (arith, e)) (λ e. ground (arith, e));
      categories = λ c.
          deleted_by (Rows.belongs_to r.id) (λ y. y.restaurant_id ≡ r.id) c db.categories
            (λ e. ground (arith, e)) (λ e. ground (arith, e));
      dishes = λ d.
          deleted_by (λ y. any (λ c. c.id == y.category_id && Rows.belongs_to r.id c) db.categories)
            (ServedAt db r) d db.dishes (served db r d) (served_back db r d);
      scans = λ e.
          deleted_by (λ y. y.restaurant_id == r.id) (λ y. y.restaurant_id ≡ r.id) e db.scan_events
            (λ e. ground (arith, e)) (λ e. ground (arith, e));
      users = refl;
      refresh_tokens = refl;
    })
  where
    stored : {a b : Db} → ◌≡◌ {A = Result (Unit {0} × Db)} (ok (tt, a)) (ok (tt, b)) → a ≡ b
    stored h = cc h

found_owner :
    (db : Db) (owner_user_id : Uuid) (r : Restaurant)
    → Rows.get_by_owner_id owner_user_id db ≡ ok (some r)
    → Memᴰ r db.restaurants × (r.owner_user_id ≡ owner_user_id)
unfolding Rows.get_by_owner_id
found_owner db owner_user_id r h =
    found_row (λ x. x.owner_user_id) owner_user_id r db.restaurants (scalar_some _ r h)

-- `delete` of a restaurant raises and changes nothing, or it removes a restaurant of the user, its
-- categories, their dishes and its scans, keeps every other row, and no menu stays cached.
pub delete_restaurant_ends :
    (w : World) (owner_user_id : Uuid)
    → ((e : Exc) × (delete owner_user_id w ≡ (err e, w)))
      ⊎ ((r : Restaurant) × (db : Db) × Memᴰ r w.db.restaurants
          × (r.owner_user_id ≡ owner_user_id)
          × Removed r w.db db
          × (delete owner_user_id w ≡ (ok tt, forgotten w db)))
delete_restaurant_ends w owner_user_id = elim (delete_restaurant-Settled w owner_user_id) [
  | inl refused ↦ inl refused
  | inr (g, _, db, done, is) ↦
      let (there, mine) = found_owner w.db owner_user_id g.restaurant g.found in
      inr (g.restaurant, db, there, mine, delete-Removed g.restaurant w.db db done, is)
]

-- With one restaurant for each owner, the owner of a restaurant can delete it: exactly the restaurant,
-- its categories, their dishes and its scans are removed, and no menu stays cached.
pub delete_of_restaurant_owner :
    (w : World) (r : Restaurant)
    → UniqueId (λ x. x.owner_user_id) w.db.restaurants
    → Memᴰ r w.db.restaurants
    → (db : Db) × Removed r w.db db × (delete r.owner_user_id w ≡ (ok tt, forgotten w db))
unfolding delete get_by_owner Rows.get_by_owner_id Rows.delete
delete_of_restaurant_owner w r owners there =
    let one =
      unique_row (λ x. x.owner_user_id) r.owner_user_id r w.db.restaurants owners there refl in
    (_, delete-Removed r w.db _ refl, rw one refl)
