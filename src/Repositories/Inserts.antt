-- ===== src/Repositories/Inserts.antt =====
-- What an insert that was not refused says of the database: the constraints that it met, and the row.
use proyecto_1_back.Prelude.{
  ℕ, ◌≡◌, refl, sym, ap, Bool, true, false, not, ◌||◌, Option, [], ◌∷◌, ◌++◌, any, ◌==◌, arith,
}
use proyecto_1_back.Prelude.Int.{ℤ}
use proyecto_1_back.Http.{ok}
use proyecto_1_back.Text.{Text, text_eq}
use proyecto_1_back.Env.{Env}
use proyecto_1_back.Models.{
  Uuid, Time, User, Restaurant, Category, Dish, RefreshToken, Db, Defaults,
}
use proyecto_1_back.Schemas.{RestaurantCreate, DishCreate}
use proyecto_1_back.Sql.{unless_violated}
use proyecto_1_back.Repositories.Users
use proyecto_1_back.Repositories.RefreshTokens
use proyecto_1_back.Repositories.Restaurants
use proyecto_1_back.Repositories.Categories
use proyecto_1_back.Repositories.Dishes

module _ {A : Type 0} where
  pub unless_violated_ok : (b : Bool) (a : A) (r : A) → unless_violated b a ≡ ok r → a ≡ r
  unless_violated_ok true a r h = cc
  unless_violated_ok false a r h = cc

  pub unless_violated_holds : (b : Bool) (a : A) (r : A) → unless_violated b a ≡ ok r → b ≡ false
  unless_violated_holds true a r h = cc
  unless_violated_holds false a r h = refl

pub or_false : (a b : Bool) → (a || b) ≡ false → (a ≡ false) × (b ≡ false)
or_false a b h = ground arith

pub not-false : (a : Bool) → not a ≡ false → a ≡ true
not-false true h = refl
not-false false h = cc

pub record UserInsert (db : Db) (u : User) (db' : Db) : Type 0 where
  pub id_free : any (λ x. x.id == u.id) db.users ≡ false
  pub email_free : any (λ x. text_eq x.email u.email) db.users ≡ false
  pub stored : db' ≡ record db { users = db.users ++ u ∷ [] }

pub record TokenInsert (db : Db) (t : RefreshToken) (db' : Db) : Type 0 where
  pub id_free : any (λ x. x.id == t.id) db.refresh_tokens ≡ false
  pub hash_free : any (λ x. text_eq x.token_hash t.token_hash) db.refresh_tokens ≡ false
  pub user_there : any (λ u. u.id == t.user_id) db.users ≡ true
  pub stored : db' ≡ record db { refresh_tokens = db.refresh_tokens ++ t ∷ [] }

pub record RestaurantInsert (db : Db) (r : Restaurant) (db' : Db) : Type 0 where
  pub id_free : any (λ x. x.id == r.id) db.restaurants ≡ false
  pub owner_free : any (λ x. x.owner_user_id == r.owner_user_id) db.restaurants ≡ false
  pub slug_free : any (λ x. text_eq x.slug r.slug) db.restaurants ≡ false
  pub owner_there : any (λ u. u.id == r.owner_user_id) db.users ≡ true
  pub stored : db' ≡ record db { restaurants = db.restaurants ++ r ∷ [] }

pub record CategoryInsert (db : Db) (c : Category) (db' : Db) : Type 0 where
  pub id_free : any (λ x. x.id == c.id) db.categories ≡ false
  pub restaurant_there : any (λ r. r.id == c.restaurant_id) db.restaurants ≡ true
  pub stored : db' ≡ record db { categories = db.categories ++ c ∷ [] }

pub record DishInsert (db : Db) (d : Dish) (db' : Db) : Type 0 where
  pub id_free : any (λ x. x.id == d.id) db.dishes ≡ false
  pub category_there : any (λ c. c.id == d.category_id) db.categories ≡ true
  pub stored : db' ≡ record db { dishes = db.dishes ++ d ∷ [] }

pub user_insert :
    (env : Env) (d : Defaults) (email hash : Text) (db : Db) (u : User) (db' : Db)
    → Users.create env d email hash db ≡ ok (u, db')
    → (u ≡ Users.new_user env d email hash) × UserInsert db u db'
unfolding Users.create
user_insert env d email hash db u db' h =
    let row : User = Users.new_user env d email hash in
    let a : Bool = any (λ x. x.id == row.id) db.users in
    let b : Bool = any (λ x. text_eq x.email row.email) db.users in
    let stored : User × Db = (row, record db { users = db.users ++ row ∷ [] }) in
    let is = unless_violated_ok (a || b) stored (u, db') h in
    let (p, q) = or_false a b (unless_violated_holds (a || b) stored (u, db') h) in
    rw (sym (ap (λ (z : User × Db). z.0) is))
      (refl, record { id_free = p; email_free = q; stored = sym (ap (λ (z : User × Db). z.1) is) })

pub token_insert :
    (env : Env) (d : Defaults) (now : Time) (user_id : Uuid) (token : Text) (days : ℕ) (db : Db)
    (t : RefreshToken) (db' : Db)
    → RefreshTokens.create env d now user_id token days db ≡ ok (t, db')
    → (t ≡ RefreshTokens.new_token env d now user_id token days) × TokenInsert db t db'
unfolding RefreshTokens.create
token_insert env d now user_id token days db t db' h =
    let row : RefreshToken = RefreshTokens.new_token env d now user_id token days in
    let a : Bool = any (λ x. x.id == row.id) db.refresh_tokens in
    let b : Bool = any (λ x. text_eq x.token_hash row.token_hash) db.refresh_tokens in
    let c : Bool = any (λ u. u.id == row.user_id) db.users in
    let stored : RefreshToken × Db =
      (row, record db { refresh_tokens = db.refresh_tokens ++ row ∷ [] }) in
    let is = unless_violated_ok (a || b || not c) stored (t, db') h in
    let (pq, r) =
      or_false (a || b) (not c) (unless_violated_holds (a || b || not c) stored (t, db') h) in
    let (p, q) = or_false a b pq in
    rw (sym (ap (λ (z : RefreshToken × Db). z.0) is)) (
      refl,
      record {
        id_free = p;
        hash_free = q;
        user_there = not-false c r;
        stored = sym (ap (λ (z : RefreshToken × Db). z.1) is);
      },
    )

pub restaurant_insert :
    (d : Defaults) (owner_user_id : Uuid) (slug : Text) (body : RestaurantCreate) (db : Db)
    (r : Restaurant) (db' : Db)
    → Restaurants.create d owner_user_id slug body db ≡ ok (r, db')
    → (r ≡ Restaurants.new_restaurant d owner_user_id slug body) × RestaurantInsert db r db'
unfolding Restaurants.create
restaurant_insert d owner_user_id slug body db r db' h =
    let row : Restaurant = Restaurants.new_restaurant d owner_user_id slug body in
    let a : Bool = any (λ x. x.id == row.id) db.restaurants in
    let b : Bool = any (λ x. x.owner_user_id == row.owner_user_id) db.restaurants in
    let c : Bool = any (λ x. text_eq x.slug row.slug) db.restaurants in
    let e : Bool = any (λ u. u.id == row.owner_user_id) db.users in
    let stored : Restaurant × Db = (row, record db { restaurants = db.restaurants ++ row ∷ [] }) in
    let is = unless_violated_ok (a || b || c || not e) stored (r, db') h in
    let (pqs, t) =
      or_false (a || b || c) (not e)
        (unless_violated_holds (a || b || c || not e) stored (r, db') h) in
    let (pq, s) = or_false (a || b) c pqs in
    let (p, q) = or_false a b pq in
    rw (sym (ap (λ (z : Restaurant × Db). z.0) is)) (
      refl,
      record {
        id_free = p;
        owner_free = q;
        slug_free = s;
        owner_there = not-false e t;
        stored = sym (ap (λ (z : Restaurant × Db). z.1) is);
      },
    )

pub category_insert :
    (d : Defaults) (restaurant_id : Uuid) (name : Text) (description : Option Text)
    (position : Option ℤ) (active : Bool) (db : Db) (c : Category) (db' : Db)
    → Categories.create d restaurant_id name description position active db ≡ ok (c, db')
    → (c
        ≡ Categories.new_category d restaurant_id name description
            (Categories.position_or_next position restaurant_id db)
            active)
      × CategoryInsert db c db'
unfolding Categories.create
category_insert d restaurant_id name description position active db c db' h =
    let row : Category =
      Categories.new_category d restaurant_id name description
        (Categories.position_or_next position restaurant_id db) active in
    let a : Bool = any (λ x. x.id == row.id) db.categories in
    let b : Bool = any (λ r. r.id == row.restaurant_id) db.restaurants in
    let stored : Category × Db = (row, record db { categories = db.categories ++ row ∷ [] }) in
    let is = unless_violated_ok (a || not b) stored (c, db') h in
    let (p, q) = or_false a (not b) (unless_violated_holds (a || not b) stored (c, db') h) in
    rw (sym (ap (λ (z : Category × Db). z.0) is)) (
      refl,
      record {
        id_free = p;
        restaurant_there = not-false b q;
        stored = sym (ap (λ (z : Category × Db). z.1) is);
      },
    )

pub dish_insert :
    (d : Defaults) (body : DishCreate) (position : Option ℤ) (db : Db) (x : Dish) (db' : Db)
    → Dishes.create d body position db ≡ ok (x, db')
    → (x ≡ Dishes.new_dish d body (Dishes.position_or_next position body.category_id db))
      × DishInsert db x db'
unfolding Dishes.create
dish_insert d body position db x db' h =
    let row : Dish =
      Dishes.new_dish d body (Dishes.position_or_next position body.category_id db) in
    let a : Bool = any (λ y. y.id == row.id) db.dishes in
    let b : Bool = any (λ c. c.id == row.category_id) db.categories in
    let stored : Dish × Db = (row, record db { dishes = db.dishes ++ row ∷ [] }) in
    let is = unless_violated_ok (a || not b) stored (x, db') h in
    let (p, q) = or_false a (not b) (unless_violated_holds (a || not b) stored (x, db') h) in
    rw (sym (ap (λ (z : Dish × Db). z.0) is)) (
      refl,
      record {
        id_free = p;
        category_there = not-false b q;
        stored = sym (ap (λ (z : Dish × Db). z.1) is);
      },
    )
