-- ===== src/Services/Menu/Build.antt =====
-- The menu that `get_menu_by_slug` builds when the cache has none: active categories in order, each
-- with its available dishes in order, without the empty ones.
use proyecto_1_back.Prelude.{Bool, ◌&&◌, ◌||◌, List, [], ◌∷◌, map, filter, leb, ◌==◌}
use proyecto_1_back.Prelude.Int.{ltb_ℤ, eqb_ℤ}
use proyecto_1_back.Http.{http, no_menu, Result, ok, require, ◌>>=◌}
use proyecto_1_back.Text.{Text}
use proyecto_1_back.Models.{Restaurant, Category, Dish, Db}
use proyecto_1_back.Schemas.{MenuDishResponse, MenuCategoryResponse, MenuResponse}
use proyecto_1_back.Sql.{order_by}
use proyecto_1_back.Repositories.Restaurants.{get_by_slug, belongs_to}
use proyecto_1_back.Repositories.Categories.{category_before, is_kept}

-- `sort(key=lambda d: (d.position, d.created_at))`
abbrev pub menu_before : Dish → Dish → Bool
menu_before a b =
    ltb_ℤ a.position b.position || (eqb_ℤ a.position b.position && leb a.created_at b.created_at)

-- a dish of the category that is available and not deleted
abbrev pub is_served : Category → Dish → Bool
is_served c d = d.category_id == c.id && d.available && is_kept d

unfoldable pub available_dishes : List Dish → Category → List Dish
available_dishes dishes c = order_by menu_before (filter (is_served c) dishes)

abbrev pub dish_response : Dish → MenuDishResponse
dish_response d = record {
  id = d.id;
  name = d.name;
  description = d.description;
  price = d.price;
  sale_price = d.sale_price;
  image_url = d.image_url;
  tags = d.tags;
  featured = d.featured;
  position = d.position;
}

abbrev pub category_response : Category → List MenuDishResponse → MenuCategoryResponse
category_response c dishes = record {
  id = c.id;
  name = c.name;
  description = c.description;
  position = c.position;
  dishes = dishes;
}

-- `if dish_responses: category_responses.append(…)`
abbrev pub unless_empty :
    Category → List MenuDishResponse → List MenuCategoryResponse → List MenuCategoryResponse
unless_empty c [] rest = rest
unless_empty c (d ∷ dishes) rest = category_response c (d ∷ dishes) ∷ rest

unfoldable pub category_responses : List Dish → List Category → List MenuCategoryResponse
unfolding available_dishes
category_responses dishes [] = []
category_responses dishes (c ∷ categories) =
    unless_empty c (map dish_response (available_dishes dishes c))
      (category_responses dishes categories)

unfoldable pub active_categories : Db → Restaurant → List Category
active_categories db r =
    order_by category_before (filter (λ c. belongs_to r.id c && c.active) db.categories)

unfoldable pub menu_of : Db → Restaurant → MenuResponse
unfolding category_responses active_categories
menu_of db r = record {
  restaurant_id = r.id;
  restaurant_name = r.name;
  restaurant_slug = r.slug;
  description = r.description;
  logo_url = r.logo_url;
  phone = r.phone;
  address = r.address;
  hours = r.hours;
  categories = category_responses db.dishes (active_categories db r);
}

unfoldable pub fresh_menu : Text → Db → Result MenuResponse
unfolding menu_of
fresh_menu slug db = do
  found ← get_by_slug slug db
  restaurant ← require found (http 404 (no_menu slug))
  ok (menu_of db restaurant)
