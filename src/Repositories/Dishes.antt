-- ===== src/Repositories/Dishes.antt =====
-- api/app/repositories/dish_repo.py
pub mod Pages
pub mod Wanted
use proyecto_1_back.Prelude.{
  ℕ, Bool, true, false, not, ◌&&◌, ◌||◌, Option, none, some, List, [], ◌∷◌, ◌++◌, map, filter, any,
  leb, length, ◌==◌, if◌then◌else◌,
}
use proyecto_1_back.Prelude.Int.{ℤ, ltb_ℤ, eqb_ℤ}
use proyecto_1_back.Http.{Result, ok, err, integrity_error, ◌>>=◌}
use proyecto_1_back.Text.{Text, text_eq}
use proyecto_1_back.Env.{Env}
use proyecto_1_back.Models.{Uuid, Time, Price, Category, Dish, Db, Defaults}
use proyecto_1_back.Schemas.{DishCreate, DishUpdate, required_column, nullable_column}
use proyecto_1_back.Sql.{
  scalar_one_or_none, unless_violated, update_where, order_by, page_of, max_of,
}
use proyecto_1_back.Repositories.Restaurants.{stamped, belongs_to}
use proyecto_1_back.Repositories.Categories.{after_max, is_kept}

unfoldable pub get_next_position : Uuid → Db → ℤ
get_next_position category_id db = after_max (
    max_of (
      map (λ (d : Dish). d.position)
        (filter (λ d. d.category_id == category_id && is_kept d) db.dishes)))

abbrev pub new_dish : Defaults → DishCreate → ℤ → Dish
new_dish d body position = record {
  id = d.id;
  category_id = body.category_id;
  name = body.name;
  description = body.description;
  price = body.price;
  sale_price = body.sale_price;
  image_url = body.image_url;
  available = body.available;
  featured = body.featured;
  tags = body.tags;
  position = position;
  created_at = d.created_at;
  updated_at = d.updated_at;
  deleted_at = none;
}

abbrev pub position_or_next : Option ℤ → Uuid → Db → ℤ
position_or_next none category_id db = get_next_position category_id db
position_or_next (some p) category_id db = p

-- the primary key and the foreign key to `categories`
unfoldable pub create : Defaults → DishCreate → Option ℤ → Db → Result (Dish × Db)
create d body position db =
    let dish : Dish = new_dish d body (position_or_next position body.category_id db) in
    unless_violated
      (any (λ x. x.id == d.id) db.dishes || not (any (λ c. c.id == body.category_id) db.categories))
      (dish, record db { dishes = db.dishes ++ dish ∷ [] })

unfoldable pub get_by_id : Uuid → Bool → Db → Result (Option Dish)
get_by_id dish_id include_deleted db =
    scalar_one_or_none (filter (λ d. d.id == dish_id && (include_deleted || is_kept d)) db.dishes)

-- The query parameters of `list_dishes`; an empty search text or tag is no filter.
pub record DishFilter : Type 0 where
  pub restaurant_id : Option Uuid
  pub category_id : Option Uuid
  pub available : Option Bool
  pub featured : Option Bool
  pub search_query : Option Text
  pub tag : Option Text
  pub min_price : Option Price
  pub max_price : Option Price
  pub include_deleted : Bool

-- a filter that is left out lets every row through
abbrev pub unless_given : {A : Type 0} → Option A → (A → Bool) → Bool
unless_given none test = true
unless_given (some a) test = test a

-- `if search_query:`, `if tag:`
abbrev pub unless_filled : Option Text → (Text → Bool) → Bool
unless_filled none test = true
unless_filled (some []) test = true
unless_filled (some (c ∷ s)) test = test (c ∷ s)

abbrev pub same_bool : Bool → Bool → Bool
same_bool true b = b
same_bool false b = not b

-- a test on a column that may be NULL
abbrev pub on_value : {A : Type 0} → Option A → (A → Bool) → Bool
on_value none test = false
on_value (some a) test = test a

-- ORDER BY position ASC, created_at DESC
abbrev pub dish_before : Dish → Dish → Bool
dish_before a b =
    ltb_ℤ a.position b.position || (eqb_ℤ a.position b.position && leb b.created_at a.created_at)

module _ (env : Env) where
  -- `search_filter`
  abbrev pub search_filter : Text → Dish → Bool
  search_filter q d =
      env.ilike d.name (37 ∷ q ++ 37 ∷ [])
      || on_value d.description (λ s. env.ilike s (37 ∷ q ++ 37 ∷ []))

  -- The WHERE clause of `query`. The JOIN on the primary key of `categories` finds at most one category
  -- for a dish.
  unfoldable pub matches : DishFilter → Db → Dish → Bool
  matches f db d =
      unless_given f.restaurant_id
        (λ r. any (λ c. c.id == d.category_id && belongs_to r c) db.categories)
      && (f.include_deleted || is_kept d)
      && unless_given f.category_id (λ c. d.category_id == c)
      && unless_given f.available (λ b. same_bool b d.available)
      && unless_given f.featured (λ b. same_bool b d.featured)
      && unless_filled f.search_query (λ q. search_filter q d)
      && unless_filled f.tag (λ t. on_value d.tags (any (text_eq t)))
      && unless_given f.min_price (λ p. leb p d.price)
      && unless_given f.max_price (λ p. leb d.price p)

  -- The WHERE clause of `count_query`, which the source builds beside the other one.
  unfoldable pub counted : DishFilter → Db → Dish → Bool
  counted f db d =
      unless_given f.restaurant_id
        (λ r. any (λ c. c.id == d.category_id && belongs_to r c) db.categories)
      && (f.include_deleted || is_kept d)
      && unless_given f.category_id (λ c. d.category_id == c)
      && unless_given f.available (λ b. same_bool b d.available)
      && unless_given f.featured (λ b. same_bool b d.featured)
      && unless_filled f.search_query (λ q. search_filter q d)
      && unless_filled f.tag (λ t. on_value d.tags (any (text_eq t)))
      && unless_given f.min_price (λ p. leb p d.price)
      && unless_given f.max_price (λ p. leb d.price p)

  unfoldable pub list_dishes : DishFilter → ℕ → ℕ → Db → List Dish × ℕ
  unfolding matches counted
  list_dishes f limit offset db = (
    page_of limit offset (order_by dish_before (filter (matches f db) db.dishes)),
    length (filter (counted f db) db.dishes),
  )

unfoldable pub changed : Option Time → DishUpdate → Dish → Result Dish
changed stamp u d = do
  category_id ← required_column u.category_id d.category_id
  name ← required_column u.name d.name
  price ← required_column u.price d.price
  available ← required_column u.available d.available
  featured ← required_column u.featured d.featured
  position ← required_column u.position d.position
  ok (record d {
    category_id = category_id;
    name = name;
    description = nullable_column u.description d.description;
    price = price;
    sale_price = nullable_column u.sale_price d.sale_price;
    image_url = nullable_column u.image_url d.image_url;
    available = available;
    featured = featured;
    tags = nullable_column u.tags d.tags;
    position = position;
    updated_at = stamped stamp d.updated_at;
  })

-- the columns that UPDATE writes
abbrev pub written : Dish → Dish → Dish
written d row = record row {
  category_id = d.category_id;
  name = d.name;
  description = d.description;
  price = d.price;
  sale_price = d.sale_price;
  image_url = d.image_url;
  available = d.available;
  featured = d.featured;
  tags = d.tags;
  position = d.position;
  updated_at = d.updated_at;
  deleted_at = d.deleted_at;
}

-- the row written back under its primary key
abbrev pub write_back : Dish → Db → Db
write_back dish db = record db {
  dishes = update_where (λ x. x.id == dish.id) (written dish) db.dishes;
}

unfoldable pub update : Option Time → Dish → DishUpdate → Db → Result (Dish × Db)
update stamp dish u db = do
  d ← changed stamp u dish
  unless_violated (not (any (λ c. c.id == d.category_id) db.categories)) (d, write_back d db)

unfoldable pub soft_delete : Time → Time → Dish → Db → Result (Dish × Db)
soft_delete now stamp dish db =
    let d : Dish = record dish { deleted_at = some now; updated_at = stamp } in
    ok (d, write_back d db)

unfoldable pub toggle_availability : Time → Dish → Db → Result (Dish × Db)
toggle_availability stamp dish db =
    let d : Dish = record dish { available = not dish.available; updated_at = stamp } in
    ok (d, write_back d db)
