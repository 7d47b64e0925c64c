-- ===== src/Services/Categories/Deleted.antt =====
-- `delete` of api/app/services/category_service.py, on the rows of the tables.
use proyecto_1_back.Prelude.{
  ◌≡◌, refl, ◌⊎◌, inl, inr, Bool, true, false, Option, none, some, List, [], ◌∷◌, filter, length,
  ltb, ◌&&◌, ◌==◌, ==_refl, arith, ap, ◌∙◌, Bool-cases,
}
use mathlib.Core.List.{Memᴰ}
use proyecto_1_back.Http.{Exc, ok, err}
use proyecto_1_back.Models.{Uuid, Time, Dish, Db}
use proyecto_1_back.Sql.{delete_where}
use proyecto_1_back.Sql.Laws.{filter_none}
use proyecto_1_back.Sql.Members.{Mem-filter, any_none}
use proyecto_1_back.Consistency.{UniqueId}
use proyecto_1_back.App.{World}
use proyecto_1_back.Repositories.Categories as Rows
use proyecto_1_back.Services.Settled.{forgotten}
use proyecto_1_back.Services.Categories.{delete}
use proyecto_1_back.Services.Categories.Ownership.{
  Held, Held-OwnCategory, OwnCategory-Held, found_category,
}
use proyecto_1_back.Services.Categories.Outcomes.{Deleting, delete_category-Settled}
use proyecto_1_back.Services.Categories.Accepted.{delete_when_checked}

-- every dish of the category has been deleted before
abbrev pub AllDeleted : Db → Uuid → Type 0
AllDeleted db category_id =
    (d : Dish)
    → Memᴰ d db.dishes
    → d.category_id ≡ category_id
    → (t : Time) × (d.deleted_at ≡ some t)

-- The user owns the category, and no dish of it is left.
pub record Emptied (db : Db) (owner_user_id category_id : Uuid) : Type 0 where
  pub held : Held db owner_user_id category_id
  pub all_deleted : AllDeleted db category_id

-- the tables without the category and its dishes
abbrev pub without_category : Db → Uuid → Db
without_category db category_id = record db {
  categories = delete_where (λ c. c.id == category_id) db.categories;
  dishes = delete_where (λ d. d.category_id == category_id) db.dishes;
}

deleted_time :
    (o : Option Time)
    → ◌≡◌ {A = Bool} (elim o [ none ↦ true | some _ ↦ false ]) false
    → (t : Time) × (o ≡ some t)
deleted_time none h = cc
deleted_time (some t) h = (t, refl)

some_row : {A : Type 0} → (x : A) (xs : List A) → Memᴰ x xs → ltb 0 (length xs) ≡ true
some_row x [] m = elim m [ ]
some_row x (y ∷ xs) m = ground arith

module _ (db : Db) (category_id : Uuid) where
  -- `has_active_dishes` finds none when every dish of the category has been deleted, and only then
  inactive-AllDeleted : Rows.has_active_dishes category_id db ≡ false → AllDeleted db category_id
  unfolding Rows.has_active_dishes
  inactive-AllDeleted h d m e = elim (Bool-cases (Rows.is_kept d)) [
    | inl kept ↦
        let p = λ (x : Dish). x.category_id == category_id && Rows.is_kept x in
        let passed : p d ≡ true = rw e (rw (==_refl category_id) kept) in
        absurd (cc (some_row d (filter p db.dishes) (Mem-filter p d db.dishes m passed), h))
    | inr gone ↦ deleted_time d.deleted_at gone
  ]

  AllDeleted-inactive : AllDeleted db category_id → Rows.has_active_dishes category_id db ≡ false
  unfolding Rows.has_active_dishes
  AllDeleted-inactive all =
      let p = λ (x : Dish). x.category_id == category_id && Rows.is_kept x in
      rw
        (filter_none p db.dishes (
          any_none p db.dishes λ d m. elim (Bool-cases (p d)) [
            | inl e ↦
                let same : d.category_id ≡ category_id = ground (arith, e) in
                let (t, gone) = all d m same in
                let kept : Rows.is_kept d ≡ true = ground (arith, e) in
                absurd (cc (rw gone at kept))
            | inr e ↦ e
          ]))
        refl

module _ (w : World) (owner_user_id category_id : Uuid) where
  ends :
      Deleting w.db owner_user_id category_id
      → delete category_id owner_user_id w
        ≡ (ok tt, forgotten w (without_category w.db category_id))
  ends g =
      delete_when_checked w owner_user_id category_id g
      ∙ ap (λ id. (ok tt, forgotten w (without_category w.db id)))
          (found_category w.db category_id g.own.category g.own.category_found).1

  -- `delete` of a category raises and changes nothing, or the category is there, in a restaurant of the
  -- user, every dish of it was deleted before, exactly the category and its dishes are removed, and no
  -- menu stays cached.
  pub delete_category_ends :
      ((e : Exc) × (delete category_id owner_user_id w ≡ (err e, w)))
      ⊎ (Emptied w.db owner_user_id category_id
          × (delete category_id owner_user_id w
              ≡ (ok tt, forgotten w (without_category w.db category_id))))
  delete_category_ends = elim (delete_category-Settled w owner_user_id category_id) [
    | inl refused ↦ inl refused
    | inr (g, _, db, _, _) ↦ inr (
      record {
        held = OwnCategory-Held w.db owner_user_id category_id g.own;
        all_deleted = inactive-AllDeleted w.db category_id g.empty;
      },
      ends g,
    )
  ]

  -- With unique ids, the owner of a category whose dishes have all been deleted before can delete it:
  -- exactly the category and its dishes are removed, and no menu stays cached.
  pub delete_of_category_owner :
      UniqueId (λ c. c.id) w.db.categories
      → UniqueId (λ r. r.id) w.db.restaurants
      → Emptied w.db owner_user_id category_id
      → delete category_id owner_user_id w
        ≡ (ok tt, forgotten w (without_category w.db category_id))
  delete_of_category_owner cs rs e = ends (record {
    own = Held-OwnCategory w.db owner_user_id category_id cs rs e.held;
    empty = AllDeleted-inactive w.db category_id e.all_deleted;
  })
