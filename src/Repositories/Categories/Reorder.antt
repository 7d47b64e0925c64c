-- ===== src/Repositories/Categories/Reorder.antt =====
-- `reorder_categories` of api/app/repositories/category_repo.py: where the rows end.
use proyecto_1_back.Prelude.{
  ℕ, suc, ◌+◌, ◌≡◌, refl, ap, true, false, List, [], ◌∷◌, ◌++◌, any, All, length, ◌==◌, arith,
  Bool-cases, inl, inr, if◌then◌else◌,
}
use proyecto_1_back.Prelude.Int.{ℤ, pos}
use proyecto_1_back.Http.{Result, ok, err}
use proyecto_1_back.Models.{Uuid, Time, Category, Db}
use proyecto_1_back.Sql.{update_where}
use proyecto_1_back.Repositories.Categories.{is_target, moved_to, place_from, reorder_categories}

module _ (clock : ℕ → Time) (restaurant_id : Uuid) where
  -- every row of the category `id` of the restaurant stands at `q`
  abbrev At : Uuid → ℤ → List Category → Type 0
  At id q rows = All (λ c. is_target restaurant_id id c ≡ true → c.position ≡ q) rows

  moved-At :
      (id : Uuid) (t : Time) (q : ℤ) (rows : List Category)
      → At id q (update_where (is_target restaurant_id id) (moved_to t q) rows)
  moved-At id t q [] = tt
  moved-At id t q (c ∷ rows) = (here, moved-At id t q rows)
    where
      here :
          is_target restaurant_id id (if is_target restaurant_id id c then moved_to t q c else c)
            ≡ true
          → (if is_target restaurant_id id c then moved_to t q c else c).position ≡ q
      here h = elim (Bool-cases (is_target restaurant_id id c)) [
        | inl e ↦ rw e refl
        | inr e ↦ absurd (cc (e, h))
      ]

  other-At :
      (id other : Uuid) (t : Time) (p q : ℤ) (rows : List Category)
      → (id == other) ≡ false
      → At id q rows
      → At id q (update_where (is_target restaurant_id other) (moved_to t p) rows)
  other-At id other t p q [] ne h = tt
  other-At id other t p q (c ∷ rows) ne h = (here, other-At id other t p q rows ne h.1)
    where
      here :
          is_target restaurant_id id (if is_target restaurant_id other c then moved_to t p c else c)
            ≡ true
          → (if is_target restaurant_id other c then moved_to t p c else c).position ≡ q
      here k = elim (Bool-cases (is_target restaurant_id other c)) [
        | inl e ↦ absurd (ground (arith, e, ne, rw e at k))
        | inr e ↦ rw e (h.0 (rw e at k))
      ]

  rest-At :
      (id : Uuid) (q : ℤ) (p : ℕ) (ids : List Uuid) (rows : List Category)
      → any (λ other. id == other) ids ≡ false
      → At id q rows
      → At id q (place_from clock p restaurant_id ids rows)
  unfolding place_from
  rest-At id q p [] rows ne h = h
  rest-At id q p (other ∷ ids) rows ne h =
      rest-At id q (suc p) ids _ (ground arith)
        (other-At id other (clock p) (pos p) q rows (ground arith) h)

  places_from :
      (before : List Uuid) (id : Uuid) (after : List Uuid) (p q : ℕ) (rows : List Category)
      → any (λ other. id == other) after ≡ false
      → q ≡ p + length before
      → At id (pos q) (place_from clock p restaurant_id (before ++ id ∷ after) rows)
  unfolding place_from
  places_from [] id after p q rows last e =
      let is : q ≡ p = omega (arith, e) in
      rest-At id (pos q) (suc p) after _ last (rw is (moved-At id (clock p) (pos p) rows))
  places_from (other ∷ before) id after p q rows last e =
      places_from before id after (suc p) q _ last (omega (arith, e))

  -- After `reorder_categories` a category of the restaurant stands at the index of its id in the list,
  -- the last one if the id is repeated.
  pub reorder_categories_places :
      (before : List Uuid) (id : Uuid) (after : List Uuid) (db db' : Db)
      → any (λ other. id == other) after ≡ false
      → reorder_categories clock restaurant_id (before ++ id ∷ after) db ≡ ok (tt, db')
      → All
          (λ c. is_target restaurant_id id c ≡ true → c.position ≡ pos (length before))
          db'.categories
  unfolding reorder_categories
  reorder_categories_places before id after db db' last h =
      let is : place_from clock 0 restaurant_id (before ++ id ∷ after) db.categories
          ≡ db'.categories =
        ap (λ (r : Result (Unit {0} × Db)). elim r [ ok z ↦ z.1.categories | err _ ↦ [] ]) h in
      rw⁻¹ is (places_from before id after 0 (length before) db.categories last (omega arith))
