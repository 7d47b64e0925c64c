-- ===== src/Tests/Listings.antt =====
-- Calls of the slug functions, the cache, the dish list and the public menu.
use proyecto_1_back.Prelude.{
  ℕ, ◌&&◌, ◌≡◌, refl, true, false, none, some, List, [], ◌∷◌, length, take, drop, All, arith,
}
use proyecto_1_back.Text.{Text, codes}
use proyecto_1_back.Models.{Category, Dish}
use proyecto_1_back.Slug.{generate_slug, make_unique_slug, is_member}
use proyecto_1_back.Slug.Shape.{IsSlug, generate_slug-IsSlug}
use proyecto_1_back.Slug.Unique.{make_unique_slug-free}
use proyecto_1_back.Cache.{Cache, find, cache_get, cache_set, cache_invalidate_prefix}
use proyecto_1_back.Cache.Laws.{cache_get-set, cache_get-invalidate_prefix}
use proyecto_1_back.Repositories.Dishes.{DishFilter, list_dishes}
use proyecto_1_back.Repositories.Dishes.Pages.{Answer, list_dishes_page}
use proyecto_1_back.Services.Menu
use proyecto_1_back.Services.Menu.{Scan}
use proyecto_1_back.Services.Menu.Build.{fresh_menu, menu_of, dish_response}
use proyecto_1_back.Services.Menu.Shown.{
  menu_shows_served, menu_shows_only_served, section, ServedBy,
}
use proyecto_1_back.Repositories.Restaurants.{belongs_to}
use mathlib.Core.List.{Memᴰ}
use proyecto_1_back.Services.Menu.Coherence.{IsCoherent}
use proyecto_1_back.Api.{Request, run}
use proyecto_1_back.Api.Coherence.{menu_after_requests}
use proyecto_1_back.Tests.Sample.{bar, drinks, beer, env, world, stored}

generate_slug-IsSlug_example : IsSlug 8 (generate_slug env.wide (codes "  Café_El  -- Bar!") 8)
generate_slug-IsSlug_example = generate_slug-IsSlug env.wide (codes "  Café_El  -- Bar!") 8

casa : generate_slug env.wide (codes "La  Casa_1") 100 ≡ codes "la-casa-1"
unfolding generate_slug proyecto_1_back.Slug.truncate proyecto_1_back.Text.strip
    proyecto_1_back.Slug.collapse proyecto_1_back.Text.lower proyecto_1_back.Slug.is_slug_char
    proyecto_1_back.Slug.to_hyphen
casa = refl

make_unique_slug-free_example :
    is_member
      (make_unique_slug (codes "bar") (codes "bar" ∷ codes "bar-1" ∷ []) (codes "0a1b2c3d"))
      (codes "bar" ∷ codes "bar-1" ∷ [])
    ≡ false
make_unique_slug-free_example =
    make_unique_slug-free (codes "bar") (codes "bar" ∷ codes "bar-1" ∷ []) (codes "0a1b2c3d")
      (omega arith)

abbrev no_menus : Cache ℕ
no_menus = []

cache_get-set_example :
    (cache_get 4 (codes "a") (cache_set 3 (codes "a") 7 300 no_menus)).0 ≡ some 7
unfolding proyecto_1_back.Text.text_eq
cache_get-set_example = cache_get-set 3 4 (codes "a") (codes "a") 7 300 no_menus

cache_get-invalidate_prefix_example :
    (cache_get 4
      (codes "menu:bar")
      (cache_invalidate_prefix (codes "menu:") (cache_set 3 (codes "menu:bar") 7 300 no_menus))).0
    ≡ none
unfolding proyecto_1_back.Text.starts_with
cache_get-invalidate_prefix_example =
    cache_get-invalidate_prefix 4 (codes "menu:") (codes "menu:bar")
      (cache_set 3 (codes "menu:bar") 7 300 no_menus)

abbrev everything : DishFilter
everything = record {
  restaurant_id = some 10;
  category_id = none;
  available = some true;
  featured = none;
  search_query = none;
  tag = none;
  min_price = none;
  max_price = some 400;
  include_deleted = false;
}

list_dishes_page_example :
    (rows : List Dish) × Answer env everything stored rows
    × ((list_dishes env everything 20 0 stored).0 ≡ take 20 (drop 0 rows))
    × ((list_dishes env everything 20 0 stored).1 ≡ length rows)
list_dishes_page_example = list_dishes_page env everything 20 0 stored

-- nothing is cached
world-IsCoherent : IsCoherent world
unfolding find
world-IsCoherent = record { at_slug = λ slug e h. cc h }

abbrev scan : Scan
scan = record {
  id = 70;
  timestamp = 16;
  user_agent = codes "curl";
  ip_hash = codes "h";
  referrer = none;
}

-- a visitor looks at the menu, and then the owner takes the dish out
abbrev visits : List Request
visits =
    Request.get_menu 16 16 scan (codes "bar")
    ∷ Request.toggle_dish_availability (record { at = 17; token = 1 ∷ 101 ∷ codes "access" }) 18 30
    ∷ []

menu_after_requests_example :
    (Menu.get_menu_by_slug 19 19 (codes "bar") (run env visits world)).0
    ≡ fresh_menu (codes "bar") (run env visits world).db
menu_after_requests_example =
    menu_after_requests env visits world 19 19 (codes "bar") world-IsCoherent

menu_shows_served_example :
    Memᴰ (dish_response beer) (section stored.dishes drinks).dishes
    × Memᴰ (section stored.dishes drinks) (menu_of stored bar).categories
menu_shows_served_example =
    menu_shows_served stored bar drinks beer (Memᴰ.head refl) refl (Memᴰ.head refl) refl

menu_shows_only_served_example :
    All
      (λ s. (c : Category) × ((belongs_to 10 c && c.active) ≡ true) × ServedBy c s)
      (menu_of stored bar).categories
menu_shows_only_served_example = menu_shows_only_served stored bar
