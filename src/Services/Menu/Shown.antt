-- ===== src/Services/Menu/Shown.antt =====
-- What the menu of api/app/services/menu_service.py holds, category by category and dish by dish.
use proyecto_1_back.Prelude.{◌<◌, ◌≡◌, refl, All, length, arith, ap, true, List, [], ◌∷◌, map, ◌&&◌}
use mathlib.Core.List.{Memᴰ}
use proyecto_1_back.Models.{Restaurant, Category, Dish, Db}
use proyecto_1_back.Schemas.{MenuDishResponse, MenuCategoryResponse}
use proyecto_1_back.Sql.Laws.{filter_passes}
use proyecto_1_back.Sql.Members.{Mem-filter, Mem-order_by}
use proyecto_1_back.Sql.Sorted.{All-order_by}
use proyecto_1_back.Repositories.Restaurants.{belongs_to}
use proyecto_1_back.Repositories.Categories.{category_before}
use proyecto_1_back.Services.Menu.Build.{
  menu_before, is_served, available_dishes, dish_response, category_response, unless_empty,
  category_responses, active_categories, menu_of,
}

Mem-map : {A B : Type 0} (f : A → B) (x : A) (xs : List A) → Memᴰ x xs → Memᴰ (f x) (map f xs)
Mem-map f x [] m = elim m [ ]
Mem-map f x (y ∷ xs) (Memᴰ.head e) = Memᴰ.head (ap f e)
Mem-map f x (y ∷ xs) (Memᴰ.tail m) = Memᴰ.tail (Mem-map f x xs m)

-- a category with a dish is not left out
Mem-unless_empty_here :
    (c : Category) (x : MenuDishResponse) (xs : List MenuDishResponse)
    (rest : List MenuCategoryResponse)
    → Memᴰ x xs
    → Memᴰ (category_response c xs) (unless_empty c xs rest)
Mem-unless_empty_here c x [] rest m = elim m [ ]
Mem-unless_empty_here c x (y ∷ xs) rest m = Memᴰ.head refl

Mem-unless_empty :
    (c : Category) (r : MenuCategoryResponse) (xs : List MenuDishResponse)
    (rest : List MenuCategoryResponse)
    → Memᴰ r rest
    → Memᴰ r (unless_empty c xs rest)
Mem-unless_empty c r [] rest m = m
Mem-unless_empty c r (y ∷ xs) rest m = Memᴰ.tail m

-- the section of the menu for a category
abbrev pub section : List Dish → Category → MenuCategoryResponse
section dishes c = category_response c (map dish_response (available_dishes dishes c))

Mem-category_responses :
    (dishes : List Dish) (c : Category) (cs : List Category) (x : MenuDishResponse)
    → Memᴰ x (map dish_response (available_dishes dishes c))
    → Memᴰ c cs
    → Memᴰ (section dishes c) (category_responses dishes cs)
unfolding category_responses
Mem-category_responses dishes c [] x h m = elim m [ ]
Mem-category_responses dishes c (y ∷ cs) x h (Memᴰ.head e) =
    rw e (Mem-unless_empty_here y x _ _ (rw⁻¹ e h))
Mem-category_responses dishes c (y ∷ cs) x h (Memᴰ.tail m) =
    Mem-unless_empty y (section dishes c) _ _ (Mem-category_responses dishes c cs x h m)

module _ (db : Db) (r : Restaurant) (c : Category) (d : Dish) where
  -- A dish of the database that is available and not deleted, in an active category of the restaurant,
  -- is in the section of its category, and this section is in the menu of the restaurant.
  pub menu_shows_served :
      Memᴰ c db.categories
      → (belongs_to r.id c && c.active) ≡ true
      → Memᴰ d db.dishes
      → is_served c d ≡ true
      → Memᴰ (dish_response d) (section db.dishes c).dishes
        × Memᴰ (section db.dishes c) (menu_of db r).categories
  unfolding menu_of active_categories available_dishes
  menu_shows_served mc active md served =
      let there =
        Mem-map dish_response d (available_dishes db.dishes c)
          (Mem-order_by menu_before d _ (Mem-filter (is_served c) d db.dishes md served)) in
      (
        there,
        Mem-category_responses db.dishes c _ (dish_response d) there (
            Mem-order_by category_before c _
              (Mem-filter (λ x. belongs_to r.id x && x.active) c db.categories mc active)),
      )

-- dishes that the category serves, as responses, and at least one of them
abbrev pub ServedBy : Category → MenuCategoryResponse → Type 0
ServedBy c s =
    All (λ x. (d : Dish) × (x ≡ dish_response d) × (is_served c d ≡ true)) s.dishes
    × (0 < length s.dishes)

responses_served :
    (c : Category) (ds : List Dish)
    → All (λ d. is_served c d ≡ true) ds
    → All (λ x. (d : Dish) × (x ≡ dish_response d) × (is_served c d ≡ true)) (map dish_response ds)
responses_served c [] h = tt
responses_served c (d ∷ ds) h = ((d, refl, h.0), responses_served c ds h.1)

module _ (P : Category → Type 0) where
  abbrev Shown : MenuCategoryResponse → Type 0
  Shown s = (c : Category) × P c × ServedBy c s

  unless_empty-Shown :
      (c : Category) (xs : List MenuDishResponse) (rest : List MenuCategoryResponse)
      → P c
      → All (λ x. (d : Dish) × (x ≡ dish_response d) × (is_served c d ≡ true)) xs
      → All Shown rest
      → All Shown (unless_empty c xs rest)
  unless_empty-Shown c [] rest p h k = k
  unless_empty-Shown c (x ∷ xs) rest p h k = ((c, p, (h, omega arith)), k)

  category_responses-Shown :
      (dishes : List Dish) (cs : List Category)
      → All P cs
      → All Shown (category_responses dishes cs)
  unfolding category_responses available_dishes
  category_responses-Shown dishes [] h = tt
  category_responses-Shown dishes (c ∷ cs) h =
      unless_empty-Shown c _ _ h.0
        (responses_served c (available_dishes dishes c) (
          All-order_by menu_before (λ d. is_served c d ≡ true) _
            (filter_passes (is_served c) dishes)))
        (category_responses-Shown dishes cs h.1)

-- Every section of a menu belongs to an active category of the restaurant, is not empty, and shows
-- only dishes of this category that are available and not deleted.
pub menu_shows_only_served :
    (db : Db) (r : Restaurant)
    → All
        (λ s. (c : Category) × ((belongs_to r.id c && c.active) ≡ true) × ServedBy c s)
        (menu_of db r).categories
unfolding menu_of active_categories
menu_shows_only_served db r =
    let P = λ (c : Category). (belongs_to r.id c && c.active) ≡ true in
    category_responses-Shown P db.dishes (active_categories db r) (
      All-order_by category_before P _
        (filter_passes (λ c. belongs_to r.id c && c.active) db.categories))
