-- ===== src/Consistency/Catalogue.antt =====
-- The changes of the tables of restaurants, categories and dishes, and the constraints.
use proyecto_1_back.Prelude.{
  ℕ, suc, ◌≡◌, ◌∙◌, refl, Bool, true, false, ◌&&◌, List, [], ◌∷◌, any, ◌==◌, arith,
}
use proyecto_1_back.Prelude.{All-filter}
use proyecto_1_back.Prelude.Int.{pos}
use proyecto_1_back.Http.{ok}
use proyecto_1_back.Text.{text_eq}
use proyecto_1_back.Models.{Uuid, Time, Restaurant, Category, Db}
use proyecto_1_back.Sql.{update_where}
use proyecto_1_back.Sql.Laws.{any-update_where}
use proyecto_1_back.Sql.Distinct.{Distinct-insert, Distinct-filter}
use proyecto_1_back.Repositories.Restaurants
use proyecto_1_back.Repositories.Categories
use proyecto_1_back.Repositories.Dishes
use proyecto_1_back.Repositories.Inserts.{RestaurantInsert}
use proyecto_1_back.Trace.Change.{
  CatalogueChange, restaurant_changed, restaurant_removed, category_added, category_changed,
  category_removed, categories_placed, dish_added, dish_changed,
}
use proyecto_1_back.Trace.Made.{db_of}
use proyecto_1_back.Consistency.{IsConsistent}
use proyecto_1_back.Consistency.Tables.{
  any-insert_old, Refers-parents, Refers-insert, Refers-delete, Distinct-update_where,
  All-update_where, UniqueText-update,
}

-- An UPDATE of categories that leaves their ids and their restaurants keeps the constraints.
update_categories-IsConsistent :
    (test : Category → Bool) (change : Category → Category) (db : Db)
    → ((c : Category) → (change c).id ≡ c.id)
    → ((c : Category) → (change c).restaurant_id ≡ c.restaurant_id)
    → IsConsistent db
    → IsConsistent (record db { categories = update_where test change db.categories })
update_categories-IsConsistent test change db same_id same_restaurant c = record {
  users = c.users;
  tokens = c.tokens;
  restaurants = c.restaurants;
  categories = record {
    ids = Distinct-update_where test change (λ c. c.id) ◌==◌ db.categories same_id c.categories.ids;
    inside =
        All-update_where test change (λ c. any (λ r. r.id == c.restaurant_id) db.restaurants ≡ true)
          db.categories (λ x h. rw (same_restaurant x) h) c.categories.inside;
  };
  dishes = record {
    ids = c.dishes.ids;
    inside =
        Refers-parents (λ d. d.category_id) (λ c. c.id) db.dishes db.categories _
          (λ k h.
            any-update_where (λ c. c.id == k) test change db.categories (λ x. rw (same_id x) refl)
            ∙ h)
          c.dishes.inside;
  };
  scans = c.scans;
}

place_from-IsConsistent :
    (clock : ℕ → Time) (p : ℕ) (restaurant_id : Uuid) (ids : List Uuid) (rows : List Category)
    (db : Db)
    → IsConsistent (record db { categories = rows })
    → IsConsistent (record db { categories = Categories.place_from clock p restaurant_id ids rows })
unfolding Categories.place_from
place_from-IsConsistent clock p restaurant_id [] rows db c = c
place_from-IsConsistent clock p restaurant_id (id ∷ ids) rows db c =
    place_from-IsConsistent clock (suc p) restaurant_id ids _ db (
      update_categories-IsConsistent (Categories.is_target restaurant_id id)
        (Categories.moved_to (clock p) (pos p)) (record db { categories = rows }) (λ _. refl)
        (λ _. refl) c)

-- a row of a table whose key differs from a deleted key does not refer to it
other_key :
    {B : Type 0} (key : B → ℕ) (rows : List B) (k dead : ℕ)
    → (k == dead) ≡ false
    → any (λ y. key y == k && key y == dead) rows ≡ false
other_key key [] k dead ne = refl
other_key key (y ∷ rows) k dead ne = ground (arith, other_key key rows k dead, ne)

delete_restaurant-IsConsistent :
    (r : Restaurant) (db : Db) (db' : Db)
    → Restaurants.delete r db ≡ ok (tt, db')
    → IsConsistent db
    → IsConsistent db'
unfolding Restaurants.delete
delete_restaurant-IsConsistent r db db' h c = rw⁻¹ (db_of _ (tt, db') h) (record {
  users = c.users;
  tokens = c.tokens;
  restaurants = record {
    ids = Distinct-filter (λ x y. x.id == y.id) _ db.restaurants c.restaurants.ids;
    owners =
        Distinct-filter (λ x y. x.owner_user_id == y.owner_user_id) _ db.restaurants
          c.restaurants.owners;
    slugs = Distinct-filter (λ x y. text_eq x.slug y.slug) _ db.restaurants c.restaurants.slugs;
    owned =
        All-filter (λ x. any (λ u. u.id == x.owner_user_id) db.users ≡ true) _ db.restaurants
          c.restaurants.owned;
  };
  categories = record {
    ids = Distinct-filter (λ x y. x.id == y.id) _ db.categories c.categories.ids;
    inside =
        Refers-delete (λ x. x.restaurant_id) (λ y. y.id) (Restaurants.belongs_to r.id)
          (λ x. x.id == r.id) db.categories db.restaurants
          (λ x kept. other_key (λ y. y.id) db.restaurants x.restaurant_id r.id kept)
          c.categories.inside;
  };
  dishes = record {
    ids = Distinct-filter (λ x y. x.id == y.id) _ db.dishes c.dishes.ids;
    inside =
        Refers-delete (λ d. d.category_id) (λ y. y.id)
          (λ d. any (λ c. c.id == d.category_id && Restaurants.belongs_to r.id c) db.categories)
          (Restaurants.belongs_to r.id) db.dishes db.categories (λ _ kept. kept) c.dishes.inside;
  };
  scans = record {
    ids = Distinct-filter (λ x y. x.id == y.id) _ db.scan_events c.scans.ids;
    inside =
        Refers-delete (λ x. x.restaurant_id) (λ y. y.id) (λ e. e.restaurant_id == r.id)
          (λ x. x.id == r.id) db.scan_events db.restaurants
          (λ x kept. other_key (λ y. y.id) db.restaurants x.restaurant_id r.id kept) c.scans.inside;
  };
})

delete_category-IsConsistent :
    (x : Category) (db : Db) (db' : Db)
    → Categories.delete x db ≡ ok (tt, db')
    → IsConsistent db
    → IsConsistent db'
unfolding Categories.delete
delete_category-IsConsistent x db db' h c = rw⁻¹ (db_of _ (tt, db') h) (record {
  users = c.users;
  tokens = c.tokens;
  restaurants = c.restaurants;
  categories = record {
    ids = Distinct-filter (λ x y. x.id == y.id) _ db.categories c.categories.ids;
    inside =
        All-filter (λ c. any (λ r. r.id == c.restaurant_id) db.restaurants ≡ true) _ db.categories
          c.categories.inside;
  };
  dishes = record {
    ids = Distinct-filter (λ x y. x.id == y.id) _ db.dishes c.dishes.ids;
    inside =
        Refers-delete (λ d. d.category_id) (λ y. y.id) (λ d. d.category_id == x.id)
          (λ c. c.id == x.id) db.dishes db.categories
          (λ d kept. other_key (λ y. y.id) db.categories d.category_id x.id kept) c.dishes.inside;
  };
  scans = c.scans;
})

-- A new restaurant keeps the constraints.
pub restaurant_added-IsConsistent :
    (r : Restaurant) (db db' : Db) → RestaurantInsert db r db' → IsConsistent db → IsConsistent db'
restaurant_added-IsConsistent r db db' i c =
    let old = λ (k : ℕ) (h : any (λ x. x.id == k) db.restaurants ≡ true).
      any-insert_old (λ x. x.id == k) db.restaurants r h in
    rw i.stored (record {
      users = c.users;
      tokens = c.tokens;
      restaurants = record {
        ids = Distinct-insert (λ x y. x.id == y.id) db.restaurants r i.id_free c.restaurants.ids;
        owners =
            Distinct-insert (λ x y. x.owner_user_id == y.owner_user_id) db.restaurants r
              i.owner_free c.restaurants.owners;
        slugs =
            Distinct-insert (λ x y. text_eq x.slug y.slug) db.restaurants r i.slug_free
              c.restaurants.slugs;
        owned =
            Refers-insert (λ r. r.owner_user_id) (λ u. u.id) db.restaurants db.users r i.owner_there
              c.restaurants.owned;
      };
      categories = record {
        ids = c.categories.ids;
        inside =
            Refers-parents (λ c. c.restaurant_id) (λ r. r.id) db.categories db.restaurants _ old
              c.categories.inside;
      };
      dishes = c.dishes;
      scans = record {
        ids = c.scans.ids;
        inside =
            Refers-parents (λ e. e.restaurant_id) (λ r. r.id) db.scan_events db.restaurants _ old
              c.scans.inside;
      };
    })

change_restaurant-IsConsistent :
    (r : Restaurant) (db : Db)
    → Restaurants.slug_clash r db ≡ false
    → IsConsistent db
    → IsConsistent (record db {
      restaurants = update_where (λ s. s.id == r.id) (Restaurants.written r) db.restaurants;
    })
change_restaurant-IsConsistent r db clash c =
    let test = λ (s : Restaurant). s.id == r.id in
    let same = λ (k : ℕ) (h : any (λ x. x.id == k) db.restaurants ≡ true).
      any-update_where (λ x. x.id == k) test (Restaurants.written r) db.restaurants (λ _. refl)
      ∙ h in
    record {
      users = c.users;
      tokens = c.tokens;
      restaurants = record {
        ids =
            Distinct-update_where test (Restaurants.written r) (λ x. x.id) ◌==◌ db.restaurants
              (λ _. refl) c.restaurants.ids;
        owners =
            Distinct-update_where test (Restaurants.written r) (λ x. x.owner_user_id) ◌==◌
              db.restaurants (λ _. refl) c.restaurants.owners;
        slugs =
            UniqueText-update (λ x. x.id) (λ x. x.slug) (Restaurants.written r) r.id r.slug
              db.restaurants (λ _. refl) clash c.restaurants.ids c.restaurants.slugs;
        owned =
            All-update_where test (Restaurants.written r)
              (λ x. any (λ u. u.id == x.owner_user_id) db.users ≡ true) db.restaurants (λ _ h. h)
              c.restaurants.owned;
      };
      categories = record {
        ids = c.categories.ids;
        inside =
            Refers-parents (λ c. c.restaurant_id) (λ r. r.id) db.categories db.restaurants _ same
              c.categories.inside;
      };
      dishes = c.dishes;
      scans = record {
        ids = c.scans.ids;
        inside =
            Refers-parents (λ e. e.restaurant_id) (λ r. r.id) db.scan_events db.restaurants _ same
              c.scans.inside;
      };
    }

-- A commit to the tables of restaurants, categories and dishes keeps the constraints.
pub CatalogueChange-IsConsistent :
    (db db' : Db) → CatalogueChange db db' → IsConsistent db → IsConsistent db'
CatalogueChange-IsConsistent db db' (restaurant_changed r clash e) c =
    rw e (change_restaurant-IsConsistent r db clash c)
CatalogueChange-IsConsistent db db' (restaurant_removed r h) c =
    delete_restaurant-IsConsistent r db db' h c
CatalogueChange-IsConsistent db db' (category_added x i) c = rw i.stored (record {
  users = c.users;
  tokens = c.tokens;
  restaurants = c.restaurants;
  categories = record {
    ids = Distinct-insert (λ x y. x.id == y.id) db.categories x i.id_free c.categories.ids;
    inside =
        Refers-insert (λ c. c.restaurant_id) (λ r. r.id) db.categories db.restaurants x
          i.restaurant_there c.categories.inside;
  };
  dishes = record {
    ids = c.dishes.ids;
    inside =
        Refers-parents (λ d. d.category_id) (λ c. c.id) db.dishes db.categories _
          (λ k h. any-insert_old (λ c. c.id == k) db.categories x h) c.dishes.inside;
  };
  scans = c.scans;
})
CatalogueChange-IsConsistent db db' (category_changed x e) c = rw e (
    update_categories-IsConsistent (λ y. y.id == x.id) (Categories.written x) db (λ _. refl)
      (λ _. refl) c)
CatalogueChange-IsConsistent db db' (category_removed x h) c =
    delete_category-IsConsistent x db db' h c
CatalogueChange-IsConsistent db db' (categories_placed clock restaurant_id ids e) c =
    rw e (place_from-IsConsistent clock 0 restaurant_id ids db.categories db c)
CatalogueChange-IsConsistent db db' (dish_added d i) c = rw i.stored (record {
  users = c.users;
  tokens = c.tokens;
  restaurants = c.restaurants;
  categories = c.categories;
  dishes = record {
    ids = Distinct-insert (λ x y. x.id == y.id) db.dishes d i.id_free c.dishes.ids;
    inside =
        Refers-insert (λ d. d.category_id) (λ c. c.id) db.dishes db.categories d i.category_there
          c.dishes.inside;
  };
  scans = c.scans;
})
CatalogueChange-IsConsistent db db' (dish_changed d there e) c = rw e (record {
  users = c.users;
  tokens = c.tokens;
  restaurants = c.restaurants;
  categories = c.categories;
  dishes = record {
    ids =
        Distinct-update_where (λ x. x.id == d.id) (Dishes.written d) (λ x. x.id) ◌==◌ db.dishes
          (λ _. refl) c.dishes.ids;
    inside =
        All-update_where (λ x. x.id == d.id) (Dishes.written d)
          (λ x. any (λ c. c.id == x.category_id) db.categories ≡ true) db.dishes (λ _ _. there)
          c.dishes.inside;
  };
  scans = c.scans;
})
