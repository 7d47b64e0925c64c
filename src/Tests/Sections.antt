-- ===== src/Tests/Sections.antt =====
-- Calls of the category service and its repository.
use proyecto_1_back.Prelude.{ℕ, ◌+◌, ◌≡◌, refl, ap, ◌⊎◌, true, none, List, [], ◌∷◌, All, arith}
use proyecto_1_back.Prelude.Int.{pos, ◌<ℤ◌}
use mathlib.Core.List.{Memᴰ}
use proyecto_1_back.Http.{Exc, ok, err}
use proyecto_1_back.Text.{codes}
use proyecto_1_back.Models.{Time, Category, Dish, Db}
use proyecto_1_back.Sql.{max_of}
use proyecto_1_back.Repositories.Categories as CategoryRows
use proyecto_1_back.Repositories.Categories.{positions_of, get_next_position, is_target}
use proyecto_1_back.Repositories.Categories.Positions.{
  get_next_position_above, create-AllAtZero, AllAtZero,
}
use proyecto_1_back.Repositories.Categories.Reorder.{reorder_categories_places}
use proyecto_1_back.Services.Settled.{Settled, forgotten}
use proyecto_1_back.Services.Categories
use proyecto_1_back.Services.Categories.Outcomes.{Reordering, reorder-Settled}
use proyecto_1_back.Services.Categories.Ownership.{Held}
use proyecto_1_back.Services.Categories.Deleted.{
  AllDeleted, Emptied, without_category, delete_category_ends, delete_of_category_owner,
}
use proyecto_1_back.Services.Categories.Reordered.{Placed, reorder_of_owner}
use proyecto_1_back.Tests.Sample.{world, stored, defaults, bar, drinks, snacks}

delete_category_ends_example :
    ((e : Exc) × (Categories.delete 21 1 world ≡ (err e, world)))
    ⊎ (Emptied stored 1 21
        × (Categories.delete 21 1 world ≡ (ok tt, forgotten world (without_category stored 21))))
delete_category_ends_example = delete_category_ends world 1 21

abbrev minutes : ℕ → Time
minutes n = 20 + n

reorder-Settled_example :
    Settled world
      (Reordering stored 1 (21 ∷ 20 ∷ []))
      (λ g. CategoryRows.reorder_categories minutes g.own.restaurant.id (21 ∷ 20 ∷ []))
      (Categories.reorder minutes 1 (21 ∷ 20 ∷ []) world)
reorder-Settled_example = reorder-Settled world 1 minutes (21 ∷ 20 ∷ [])

get_next_position_above_example : All (λ p. p <ℤ get_next_position 10 stored) (pos 0 ∷ pos 3 ∷ [])
unfolding max_of
get_next_position_above_example = get_next_position_above 10 stored (pos 3) refl refl

abbrev fresh_db : Db
fresh_db = record stored { categories = drinks ∷ [] }

abbrev desserts : Category
desserts = CategoryRows.new_category defaults 10 (codes "Desserts") none (pos 0) true

desserts_stored :
    CategoryRows.create defaults 10 (codes "Desserts") none none true fresh_db
    ≡ ok (desserts, record stored { categories = drinks ∷ desserts ∷ [] })
unfolding CategoryRows.create get_next_position CategoryRows.after_max max_of
desserts_stored = refl

create-AllAtZero_example :
    (desserts.position ≡ pos 0)
    × AllAtZero 10 (record stored { categories = drinks ∷ desserts ∷ [] })
create-AllAtZero_example =
    create-AllAtZero 10 defaults (codes "Desserts") none true fresh_db desserts
      (record stored { categories = drinks ∷ desserts ∷ [] }) (refl, tt) desserts_stored

abbrev reordered : Db
reordered = record stored {
  categories =
      CategoryRows.moved_to 21 (pos 1) drinks ∷ CategoryRows.moved_to 20 (pos 0) snacks ∷ [];
}

reordering : CategoryRows.reorder_categories minutes 10 (21 ∷ 20 ∷ []) stored ≡ ok (tt, reordered)
unfolding CategoryRows.reorder_categories
reordering = refl

reorder_categories_places_example :
    All (λ c. is_target 10 20 c ≡ true → c.position ≡ pos 1) reordered.categories
reorder_categories_places_example =
    reorder_categories_places minutes 10 (21 ∷ []) 20 [] stored reordered refl reordering

held : Held stored 1 21
held = record {
  category = snacks;
  restaurant = bar;
  there = Memᴰ.tail (Memᴰ.head refl);
  is = refl;
  restaurant_there = Memᴰ.head refl;
  inside = refl;
  owner = refl;
}

-- the only dish stands in the other category
emptied : Emptied stored 1 21
emptied = record { held = held; all_deleted = elsewhere }
  where
    elsewhere : AllDeleted stored 21
    elsewhere d (Memᴰ.head is) inside =
        absurd (omega (arith, inside, ap (λ (x : Dish). x.category_id) is))
    elsewhere d (Memᴰ.tail m) inside = elim m [ ]

delete_of_category_owner_example :
    Categories.delete 21 1 world
    ≡ (ok tt, forgotten world (record stored { categories = drinks ∷ [] }))
delete_of_category_owner_example =
    delete_of_category_owner world 1 21 (refl, (refl, tt)) (refl, tt) emptied

reorder_of_owner_example :
    (rows : List Category) × (Categories.reorder minutes 1 (21 ∷ 20 ∷ []) world
      ≡ (ok tt, forgotten world (record stored { categories = rows })))
    × Placed bar (21 ∷ 20 ∷ []) (drinks ∷ snacks ∷ []) rows
reorder_of_owner_example =
    reorder_of_owner world minutes (21 ∷ 20 ∷ []) bar (refl, (refl, tt)) (refl, tt) (Memᴰ.head refl)
      ((snacks, Memᴰ.tail (Memᴰ.head refl), refl, refl), ((drinks, Memᴰ.head refl, refl, refl), tt))
