-- ===== src/Repositories/Restaurants.antt =====
-- api/app/repositories/restaurant_repo.py
use proyecto_1_back.Prelude.{
  Bool, not, ◌&&◌, ◌||◌, Option, none, some, List, [], ◌∷◌, ◌++◌, filter, any, ◌==◌,
}
use proyecto_1_back.Http.{Result, ok, ◌>>=◌}
use proyecto_1_back.Text.{Text, text_eq}
use proyecto_1_back.Models.{Uuid, Time, Restaurant, Category, Db, Defaults}
use proyecto_1_back.Schemas.{
  Patch, RestaurantCreate, RestaurantUpdate, required_column, nullable_column,
}
use proyecto_1_back.Sql.{scalar_one_or_none, unless_violated, update_where, delete_where}
use proyecto_1_back.Repositories.Users.{is_some}

abbrev pub rows_by_id : Uuid → Db → List Restaurant
rows_by_id restaurant_id db = filter (λ r. r.id == restaurant_id) db.restaurants

abbrev pub rows_by_owner : Uuid → Db → List Restaurant
rows_by_owner owner_user_id db = filter (λ r. r.owner_user_id == owner_user_id) db.restaurants

abbrev pub rows_by_slug : Text → Db → List Restaurant
rows_by_slug slug db = filter (λ r. text_eq r.slug slug) db.restaurants

unfoldable pub get_by_id : Uuid → Db → Result (Option Restaurant)
get_by_id restaurant_id db = scalar_one_or_none (rows_by_id restaurant_id db)

unfoldable pub get_by_owner_id : Uuid → Db → Result (Option Restaurant)
get_by_owner_id owner_user_id db = scalar_one_or_none (rows_by_owner owner_user_id db)

unfoldable pub get_by_slug : Text → Db → Result (Option Restaurant)
get_by_slug slug db = scalar_one_or_none (rows_by_slug slug db)

unfoldable pub slug_exists : Text → Db → Result Bool
slug_exists slug db = do restaurant ← get_by_slug slug db; ok (is_some restaurant)

abbrev pub new_restaurant : Defaults → Uuid → Text → RestaurantCreate → Restaurant
new_restaurant d owner_user_id slug body = record {
  id = d.id;
  owner_user_id = owner_user_id;
  name = body.name;
  slug = slug;
  description = body.description;
  logo_url = body.logo_url;
  phone = body.phone;
  address = body.address;
  hours = body.hours;
  created_at = d.created_at;
  updated_at = d.updated_at;
}

-- the primary key, one restaurant per owner, the unique slug, and the foreign key to `users`
unfoldable pub create : Defaults → Uuid → Text → RestaurantCreate → Db → Result (Restaurant × Db)
create d owner_user_id slug body db =
    unless_violated
      (any (λ r. r.id == d.id) db.restaurants
        || any (λ r. r.owner_user_id == owner_user_id) db.restaurants
        || any (λ r. text_eq r.slug slug) db.restaurants
        || not (any (λ u. u.id == owner_user_id) db.users))
      (
        new_restaurant d owner_user_id slug body,
        record db { restaurants = db.restaurants ++ new_restaurant d owner_user_id slug body ∷ [] },
      )

-- `stamp` is what the column's `onupdate` writes: nothing when no column has changed.
abbrev pub stamped : Option Time → Time → Time
stamped none old = old
stamped (some now) old = now

-- the attributes after the loop of `setattr`, if every NOT NULL column has a value
unfoldable pub changed :
    Option Time → RestaurantUpdate → Patch Text → Restaurant → Result Restaurant
changed stamp u slug r = do
  name ← required_column u.name r.name
  new_slug ← required_column slug r.slug
  ok (record r {
    name = name;
    slug = new_slug;
    description = nullable_column u.description r.description;
    logo_url = nullable_column u.logo_url r.logo_url;
    phone = nullable_column u.phone r.phone;
    address = nullable_column u.address r.address;
    hours = nullable_column u.hours r.hours;
    updated_at = stamped stamp r.updated_at;
  })

-- the columns that UPDATE writes
abbrev pub written : Restaurant → Restaurant → Restaurant
written r row = record row {
  name = r.name;
  slug = r.slug;
  description = r.description;
  logo_url = r.logo_url;
  phone = r.phone;
  address = r.address;
  hours = r.hours;
  updated_at = r.updated_at;
}

-- another restaurant has this slug
abbrev pub slug_clash : Restaurant → Db → Bool
slug_clash r db = any (λ s. text_eq s.slug r.slug && not (s.id == r.id)) db.restaurants

unfoldable pub update :
    Option Time → Restaurant → RestaurantUpdate → Patch Text → Db → Result (Restaurant × Db)
update stamp restaurant u slug db = do
  r ← changed stamp u slug restaurant
  unless_violated (slug_clash r db)
      (r, record db { restaurants = update_where (λ s. s.id == r.id) (written r) db.restaurants })

-- the rows that `cascade="all, delete-orphan"` and ON DELETE CASCADE take along
abbrev pub belongs_to : Uuid → Category → Bool
belongs_to restaurant_id c = c.restaurant_id == restaurant_id

unfoldable pub delete : Restaurant → Db → Result (Unit {0} × Db)
delete restaurant db = ok (
  tt,
  record db {
    restaurants = delete_where (λ r. r.id == restaurant.id) db.restaurants;
    categories = delete_where (belongs_to restaurant.id) db.categories;
    dishes =
        delete_where
          (λ d. any (λ c. c.id == d.category_id && belongs_to restaurant.id c) db.categories)
          db.dishes;
    scan_events = delete_where (λ e. e.restaurant_id == restaurant.id) db.scan_events;
  },
)
