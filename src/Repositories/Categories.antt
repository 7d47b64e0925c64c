-- ===== src/Repositories/Categories.antt =====
-- api/app/repositories/category_repo.py
pub mod Positions
pub mod Reorder
use proyecto_1_back.Prelude.{
  ℕ, zero, suc, Bool, true, false, not, ◌&&◌, ◌||◌, Option, none, some, List, [], ◌∷◌, ◌++◌, map,
  filter, any, leb, ltb, length, ◌==◌, if◌then◌else◌,
}
use proyecto_1_back.Prelude.Int.{ℤ, pos, negsuc, ◌+ℤ◌, ltb_ℤ, eqb_ℤ}
use proyecto_1_back.Http.{Result, ok, err, integrity_error, ◌>>=◌}
use proyecto_1_back.Text.{Text}
use proyecto_1_back.Models.{Uuid, Time, Category, Dish, Db, Defaults}
use proyecto_1_back.Schemas.{CategoryUpdate, required_column, nullable_column}
use proyecto_1_back.Sql.{
  scalar_one_or_none, unless_violated, update_where, delete_where, order_by, max_of,
}
use proyecto_1_back.Repositories.Restaurants.{stamped, belongs_to}

-- `(max_position or -1) + 1`: both NULL and 0 are falsy
unfoldable pub after_max : Option ℤ → ℤ
after_max none = negsuc 0 +ℤ pos 1
after_max (some p) = (if eqb_ℤ p (pos 0) then negsuc 0 else p) +ℤ pos 1

abbrev pub positions_of : Uuid → Db → List ℤ
positions_of restaurant_id db =
    map (λ (c : Category). c.position) (filter (belongs_to restaurant_id) db.categories)

unfoldable pub get_next_position : Uuid → Db → ℤ
get_next_position restaurant_id db = after_max (max_of (positions_of restaurant_id db))

abbrev pub new_category : Defaults → Uuid → Text → Option Text → ℤ → Bool → Category
new_category d restaurant_id name description position active = record {
  id = d.id;
  restaurant_id = restaurant_id;
  name = name;
  description = description;
  position = position;
  active = active;
  created_at = d.created_at;
  updated_at = d.updated_at;
}

-- `position if position is not None else get_next_position(restaurant_id)`
abbrev pub position_or_next : Option ℤ → Uuid → Db → ℤ
position_or_next none restaurant_id db = get_next_position restaurant_id db
position_or_next (some p) restaurant_id db = p

-- the primary key and the foreign key to `restaurants`
unfoldable pub create :
    Defaults → Uuid → Text → Option Text → Option ℤ → Bool → Db → Result (Category × Db)
create d restaurant_id name description position active db =
    let category : Category =
      new_category d restaurant_id name description (position_or_next position restaurant_id db)
        active in
    unless_violated
      (any (λ c. c.id == d.id) db.categories
        || not (any (λ r. r.id == restaurant_id) db.restaurants))
      (category, record db { categories = db.categories ++ category ∷ [] })

abbrev pub rows_by_id : Uuid → Db → List Category
rows_by_id category_id db = filter (λ c. c.id == category_id) db.categories

unfoldable pub get_by_id : Uuid → Db → Result (Option Category)
get_by_id category_id db = scalar_one_or_none (rows_by_id category_id db)

-- ORDER BY position ASC, created_at ASC
abbrev pub category_before : Category → Category → Bool
category_before a b =
    ltb_ℤ a.position b.position || (eqb_ℤ a.position b.position && leb a.created_at b.created_at)

unfoldable pub list_by_restaurant : Uuid → Bool → Db → List Category
list_by_restaurant restaurant_id active_only db =
    order_by category_before
      (filter (λ c. belongs_to restaurant_id c && (not active_only || c.active)) db.categories)

unfoldable pub changed : Option Time → CategoryUpdate → Category → Result Category
changed stamp u c = do
  name ← required_column u.name c.name
  active ← required_column u.active c.active
  position ← required_column u.position c.position
  ok (record c {
    name = name;
    description = nullable_column u.description c.description;
    position = position;
    active = active;
    updated_at = stamped stamp c.updated_at;
  })

-- the columns that UPDATE writes
abbrev pub written : Category → Category → Category
written c row = record row {
  name = c.name;
  description = c.description;
  position = c.position;
  active = c.active;
  updated_at = c.updated_at;
}

unfoldable pub update : Option Time → Category → CategoryUpdate → Db → Result (Category × Db)
update stamp category u db = do
  c ← changed stamp u category
  ok (c, record db { categories = update_where (λ x. x.id == c.id) (written c) db.categories })

-- the dishes of the category go with it
unfoldable pub delete : Category → Db → Result (Unit {0} × Db)
delete category db = ok (
  tt,
  record db {
    categories = delete_where (λ c. c.id == category.id) db.categories;
    dishes = delete_where (λ d. d.category_id == category.id) db.dishes;
  },
)

-- `deleted_at IS NULL`
abbrev pub is_kept : Dish → Bool
is_kept d = elim d.deleted_at [ none ↦ true | some _ ↦ false ]

unfoldable pub has_active_dishes : Uuid → Db → Bool
has_active_dishes category_id db =
    ltb 0 (length (filter (λ d. d.category_id == category_id && is_kept d) db.dishes))

-- the row that one UPDATE of the loop leaves
abbrev pub moved_to : Time → ℤ → Category → Category
moved_to now position c = record c { position = position; updated_at = now }

abbrev pub is_target : Uuid → Uuid → Category → Bool
is_target restaurant_id category_id c = c.id == category_id && belongs_to restaurant_id c

-- the loop over `enumerate(ordered_ids)`, from a position on; `clock` gives the time of each UPDATE
unfoldable pub place_from : (ℕ → Time) → ℕ → Uuid → List Uuid → List Category → List Category
place_from clock position restaurant_id [] rows = rows
place_from clock position restaurant_id (category_id ∷ rest) rows =
    place_from clock (suc position) restaurant_id rest (
      update_where (is_target restaurant_id category_id) (moved_to (clock position) (pos position))
        rows)

unfoldable pub reorder_categories : (ℕ → Time) → Uuid → List Uuid → Db → Result (Unit {0} × Db)
unfolding place_from
reorder_categories clock restaurant_id ordered_ids db =
    ok (tt, record db { categories = place_from clock 0 restaurant_id ordered_ids db.categories })
