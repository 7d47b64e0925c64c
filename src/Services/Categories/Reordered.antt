-- ===== src/Services/Categories/Reordered.antt =====
-- `reorder` of api/app/services/category_service.py, on the rows of the tables.
use proyecto_1_back.Prelude.{
  ℕ, suc, ◌≡◌, refl, ap, ◌∙◌, true, false, List, [], ◌∷◌, ◌++◌, map, any, All, length, ◌==◌,
  ==_refl, arith, Bool, Bool-cases, inl, inr,
}
use proyecto_1_back.Prelude.Int.{pos}
use mathlib.Core.List.{Memᴰ}
use proyecto_1_back.Http.{ok}
use proyecto_1_back.Models.{Uuid, Time, Restaurant, Category, Db}
use proyecto_1_back.Sql.{scalar_one_or_none, update_where}
use proyecto_1_back.Sql.Members.{unique_row}
use proyecto_1_back.Consistency.{UniqueId}
use proyecto_1_back.App.{World}
use proyecto_1_back.Repositories.Categories as Rows
use proyecto_1_back.Repositories.Categories.Reorder.{reorder_categories_places}
use proyecto_1_back.Repositories.Restaurants
use proyecto_1_back.Services.Settled.{forgotten}
use proyecto_1_back.Services.Categories.{reorder}
use proyecto_1_back.Services.Categories.Ownership.{IsOf}
use proyecto_1_back.Services.Categories.Accepted.{reorder_when_checked}

-- the category of this id is one of the restaurant
abbrev pub Lists : Db → Restaurant → Uuid → Type 0
Lists db restaurant id =
    (c : Category) × Memᴰ c db.categories × (c.id ≡ id) × (c.restaurant_id ≡ restaurant.id)

-- What a list of ids makes of the categories: the ones that are listed stand at the index of their id,
-- the last one if it is repeated; a row that is not listed is kept, and every row has the columns that it
-- had but the position and the time of the update.
abbrev pub unplaced : Category → Category
unplaced c = record c { position = pos 0; updated_at = 0 }

pub record Placed (restaurant : Restaurant) (ids : List Uuid) (rows rows' : List Category)
    : Type 0 where
  pub at_index :
      (before : List Uuid) (id : Uuid) (after : List Uuid)
      → ids ≡ before ++ id ∷ after
      → any (λ other. id == other) after ≡ false
      → All
          (λ c. c.id ≡ id → c.restaurant_id ≡ restaurant.id → c.position ≡ pos (length before))
          rows'
  pub others : (c : Category) → Memᴰ c rows → any (λ id. id == c.id) ids ≡ false → Memᴰ c rows'
  pub same_columns : map unplaced rows' ≡ map unplaced rows

moved_columns :
    (restaurant_id id : Uuid) (t : Time) (p : ℕ) (rows : List Category)
    → map unplaced (update_where (Rows.is_target restaurant_id id) (Rows.moved_to t (pos p)) rows)
      ≡ map unplaced rows
moved_columns restaurant_id id t p [] = refl
moved_columns restaurant_id id t p (c ∷ rows) =
    elim (Bool-cases (Rows.is_target restaurant_id id c)) [
      | inl e ↦
          rw e
            (ap (λ (cs : List Category). unplaced c ∷ cs) (moved_columns restaurant_id id t p rows))
      | inr e ↦
          rw e
            (ap (λ (cs : List Category). unplaced c ∷ cs) (moved_columns restaurant_id id t p rows))
    ]

placed_columns :
    (clock : ℕ → Time) (p : ℕ) (restaurant_id : Uuid) (ids : List Uuid) (rows : List Category)
    → map unplaced (Rows.place_from clock p restaurant_id ids rows) ≡ map unplaced rows
unfolding Rows.place_from
placed_columns clock p restaurant_id [] rows = refl
placed_columns clock p restaurant_id (id ∷ ids) rows =
    placed_columns clock (suc p) restaurant_id ids _
    ∙ moved_columns restaurant_id id (clock p) p rows

targets :
    (restaurant : Restaurant) (id : Uuid) (p : ℕ) (rows : List Category)
    → All (λ c. Rows.is_target restaurant.id id c ≡ true → c.position ≡ pos p) rows
    → All (λ c. c.id ≡ id → c.restaurant_id ≡ restaurant.id → c.position ≡ pos p) rows
targets restaurant id p [] h = tt
targets restaurant id p (c ∷ rows) h = (
  λ is inside. h.0 (rw is (rw inside (rw (==_refl id) (rw (==_refl restaurant.id) refl)))),
  targets restaurant id p rows h.1,
)

Mem-update_where :
    (test : Category → Bool) (change : Category → Category) (c : Category) (rows : List Category)
    → Memᴰ c rows
    → test c ≡ false
    → Memᴰ c (update_where test change rows)
Mem-update_where test change c [] m h = elim m [ ]
Mem-update_where test change c (y ∷ rows) (Memᴰ.head e) h = Memᴰ.head (rw⁻¹ e (rw h refl))
Mem-update_where test change c (y ∷ rows) (Memᴰ.tail m) h =
    Memᴰ.tail (Mem-update_where test change c rows m h)

others_kept :
    (clock : ℕ → Time) (p : ℕ) (restaurant_id : Uuid) (ids : List Uuid) (rows : List Category)
    (c : Category)
    → Memᴰ c rows
    → any (λ id. id == c.id) ids ≡ false
    → Memᴰ c (Rows.place_from clock p restaurant_id ids rows)
unfolding Rows.place_from
others_kept clock p restaurant_id [] rows c m h = m
others_kept clock p restaurant_id (id ∷ ids) rows c m h =
    let test = Rows.is_target restaurant_id id in
    others_kept clock (suc p) restaurant_id ids _ c
      (Mem-update_where test (Rows.moved_to (clock p) (pos p)) c rows m (ground arith))
      (ground arith)

place_from-Placed :
    (clock : ℕ → Time) (restaurant : Restaurant) (ids : List Uuid) (db : Db)
    → Placed restaurant ids db.categories (Rows.place_from clock 0 restaurant.id ids db.categories)
unfolding Rows.reorder_categories
place_from-Placed clock restaurant ids db = record {
  at_index = λ before id after is last.
      targets restaurant id (length before) _
        (rw is (reorder_categories_places clock restaurant.id before id after db _ last refl));
  others = others_kept clock 0 restaurant.id ids db.categories;
  same_columns = placed_columns clock 0 restaurant.id ids db.categories;
}

All-IsOf :
    (db : Db) (restaurant : Restaurant) (ids : List Uuid)
    → UniqueId (λ c. c.id) db.categories
    → All (Lists db restaurant) ids
    → All (IsOf db restaurant.id) ids
unfolding Rows.get_by_id
All-IsOf db restaurant [] cs h = tt
All-IsOf db restaurant (id ∷ ids) cs h =
    let (c, there, is, inside) = h.0 in
    (
      record {
        category = c;
        found = ap scalar_one_or_none (unique_row (λ x. x.id) id c db.categories cs there is);
        inside = inside;
      },
      All-IsOf db restaurant ids cs h.1,
    )

-- With unique ids and one restaurant for each owner, a user whose restaurant has all the categories of
-- a list can reorder them: each one is moved to the index of its id in the list (the last one if it is
-- repeated), every other row is kept, no column changes but the position and the time of the update,
-- and no menu stays cached.
pub reorder_of_owner :
    (w : World) (clock : ℕ → Time) (ids : List Uuid) (restaurant : Restaurant)
    → UniqueId (λ c. c.id) w.db.categories
    → UniqueId (λ r. r.owner_user_id) w.db.restaurants
    → Memᴰ restaurant w.db.restaurants
    → All (Lists w.db restaurant) ids
    → (rows : List Category) × (reorder clock restaurant.owner_user_id ids w
        ≡ (ok tt, forgotten w (record w.db { categories = rows })))
      × Placed restaurant ids w.db.categories rows
unfolding Restaurants.get_by_owner_id
reorder_of_owner w clock ids restaurant cs rs there listed = (
  Rows.place_from clock 0 restaurant.id ids w.db.categories,
  reorder_when_checked w restaurant.owner_user_id clock ids (record {
    own = record {
      restaurant = restaurant;
      found = ap scalar_one_or_none (
          unique_row (λ r. r.owner_user_id) restaurant.owner_user_id restaurant w.db.restaurants rs
            there refl);
    };
    inside = All-IsOf w.db restaurant ids cs listed;
  }),
  place_from-Placed clock restaurant ids w.db,
)
