-- ===== src/Repositories/Dishes/Pages.antt =====
-- `list_dishes` of api/app/repositories/dish_repo.py: the page and the total.
use proyecto_1_back.Prelude.{
  ℕ, ◌≡◌, refl, sym, ap, ◌∙◌, Bool, true, false, List, filter, take, drop, length, fun_ext, arith,
}
use mathlib.Core.List.{Memᴰ}
use proyecto_1_back.Env.{Env}
use proyecto_1_back.Models.{Dish, Db}
use proyecto_1_back.Sql.{order_by}
use proyecto_1_back.Sql.Members.{Mem-filter, Mem-of_filter, Mem-order_by, Mem-of_order_by}
use proyecto_1_back.Sql.Sorted.{length-order_by, Sorted, order_by-Sorted}
use proyecto_1_back.Repositories.Dishes.{DishFilter, matches, dish_before, list_dishes}
use proyecto_1_back.Repositories.Dishes.Wanted.{
  Wanted, matches-Wanted, Wanted-matches, counted-matches,
}

before_total : (x y : Dish) → dish_before x y ≡ false → dish_before y x ≡ true
before_total x y h = ground arith

before_trans :
    (x y z : Dish) → dish_before x y ≡ true → dish_before y z ≡ true → dish_before x z ≡ true
before_trans x y z h k = ground arith

-- All rows of the answer, in the order of ORDER BY, of which a page is a part.
pub record Answer (env : Env) (f : DishFilter) (db : Db) (rows : List Dish) : Type 0 where
  pub sorted : Sorted dish_before rows
  pub wanted : (d : Dish) → Memᴰ d rows → Memᴰ d db.dishes × Wanted env f db d
  pub complete : (d : Dish) → Memᴰ d db.dishes → Wanted env f db d → Memᴰ d rows

-- `list_dishes` returns the page, from the offset on and no longer than the limit, of the dishes that
-- answer the query parameters, all of them and no other one, in the order of ORDER BY; the total, from
-- a query of its own, is their number.
pub list_dishes_page :
    (env : Env) (f : DishFilter) (limit offset : ℕ) (db : Db)
    → (rows : List Dish) × Answer env f db rows
      × ((list_dishes env f limit offset db).0 ≡ take limit (drop offset rows))
      × ((list_dishes env f limit offset db).1 ≡ length rows)
unfolding list_dishes
list_dishes_page env f limit offset db =
    let rows = filter (matches env f db) db.dishes in
    (
      order_by dish_before rows,
      record {
        sorted = order_by-Sorted dish_before before_total before_trans rows;
        wanted = λ d m.
            let (there, passed) =
              Mem-of_filter (matches env f db) d db.dishes (Mem-of_order_by dish_before d rows m) in
            (there, matches-Wanted env f db d passed);
        complete = λ d m w.
            Mem-order_by dish_before d rows
              (Mem-filter (matches env f db) d db.dishes m (Wanted-matches env f db d w));
      },
      refl,
      ap (λ (p : Dish → Bool). length (filter p db.dishes))
            (fun_ext (λ (d : Dish). counted-matches env f db d))
          ∙ sym (length-order_by dish_before rows),
    )
