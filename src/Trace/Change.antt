-- ===== src/Trace/Change.antt =====
-- The commits of api/app/repositories/, each with what the database has checked, as relations between
-- the tables before and after.
use proyecto_1_back.Prelude.{ℕ, ◌≡◌, Bool, true, false, List, [], ◌∷◌, ◌++◌, any, ◌==◌}
use proyecto_1_back.Http.{ok}
use proyecto_1_back.Models.{
  Uuid, Time, User, Restaurant, Category, Dish, ScanEvent, RefreshToken, Db,
}
use proyecto_1_back.Sql.{update_where}
use proyecto_1_back.Repositories.RefreshTokens.{revoke_row}
use proyecto_1_back.Repositories.Restaurants
use proyecto_1_back.Repositories.Categories
use proyecto_1_back.Repositories.Dishes
use proyecto_1_back.Repositories.Inserts.{UserInsert, TokenInsert, CategoryInsert, DishInsert}

pub record ScanInsert (db : Db) (e : ScanEvent) (db' : Db) : Type 0 where
  pub id_free : any (λ x. x.id == e.id) db.scan_events ≡ false
  pub restaurant_there : any (λ r. r.id == e.restaurant_id) db.restaurants ≡ true
  pub stored : db' ≡ record db { scan_events = db.scan_events ++ e ∷ [] }

-- the tables of accounts and scans
pub data AccountChange (db db' : Db) : Type 0 where
  user_added : (u : User) → UserInsert db u db' → AccountChange db db'
  token_added : (t : RefreshToken) → TokenInsert db t db' → AccountChange db db'
  tokens_revoked :
      (test : RefreshToken → Bool) (now : Time)
      → db' ≡ record db { refresh_tokens = update_where test (revoke_row now) db.refresh_tokens }
      → AccountChange db db'
  scan_added : (e : ScanEvent) → ScanInsert db e db' → AccountChange db db'

-- the tables of restaurants, categories and dishes
pub data CatalogueChange (db db' : Db) : Type 0 where
  restaurant_changed :
      (r : Restaurant)
      → Restaurants.slug_clash r db ≡ false
      → db' ≡ record db {
        restaurants = update_where (λ s. s.id == r.id) (Restaurants.written r) db.restaurants;
      }
      → CatalogueChange db db'
  restaurant_removed :
      (r : Restaurant) → Restaurants.delete r db ≡ ok (tt, db') → CatalogueChange db db'
  category_added : (c : Category) → CategoryInsert db c db' → CatalogueChange db db'
  category_changed :
      (c : Category)
      → db' ≡ record db {
        categories = update_where (λ x. x.id == c.id) (Categories.written c) db.categories;
      }
      → CatalogueChange db db'
  category_removed : (c : Category) → Categories.delete c db ≡ ok (tt, db') → CatalogueChange db db'
  categories_placed :
      (clock : ℕ → Time) (restaurant_id : Uuid) (ids : List Uuid)
      → db'
        ≡ record db { categories = Categories.place_from clock 0 restaurant_id ids db.categories }
      → CatalogueChange db db'
  dish_added : (d : Dish) → DishInsert db d db' → CatalogueChange db db'
  dish_changed :
      (d : Dish)
      → any (λ c. c.id == d.category_id) db.categories ≡ true
      → db' ≡ Dishes.write_back d db
      → CatalogueChange db db'
