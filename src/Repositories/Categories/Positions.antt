-- ===== src/Repositories/Categories/Positions.antt =====
-- `get_next_position` of api/app/repositories/category_repo.py.
use proyecto_1_back.Prelude.{
  ◌≡◌, refl, ap, ◌∙◌, ◌⊎◌, Bool, false, Option, none, some, List, [], ◌∷◌, ◌++◌, map, filter, All,
  All-map_imp, arith, Bool-cases, inl, inr,
}
use proyecto_1_back.Prelude.Int.{ℤ, pos, negsuc, ◌≤ℤ◌, ◌<ℤ◌, ltb_ℤ, eqb_ℤ, ≤ℤ_trans}
use proyecto_1_back.Http.{ok}
use proyecto_1_back.Text.{Text}
use proyecto_1_back.Models.{Uuid, Category, Db, Defaults}
use proyecto_1_back.Sql.{max_of, larger}
use proyecto_1_back.Repositories.Restaurants.{belongs_to}
use proyecto_1_back.Repositories.Categories.{after_max, positions_of, get_next_position, create}
use proyecto_1_back.Repositories.Inserts.{category_insert}

larger_upper :
    (p : ℤ) (ps : List ℤ) (o : Option ℤ) (m : ℤ)
    → ((q : ℤ) → o ≡ some q → All (λ x. x ≤ℤ q) ps)
    → (o ≡ none → ps ≡ [])
    → larger p o ≡ some m
    → All (λ x. x ≤ℤ m) (p ∷ ps)
unfolding larger
larger_upper p ps none m f g h = rw (g refl) (ground (arith, h), tt)
larger_upper p ps (some q) m f g h = elim (Bool-cases (ltb_ℤ p q)) [
  | inl e ↦ let is : q ≡ m = cc (rw e at h) in (ground (arith, rw is at e), f m (ap some is))
  | inr e ↦
      let is : p ≡ m = cc (rw e at h) in
      (
        ground (arith, is),
        All-map_imp (λ x. x ≤ℤ q) (λ x. x ≤ℤ m) ps
            (λ x le. ≤ℤ_trans x q m le (ground (arith, rw is at e))) (f q refl),
      )
]

none_empty : (ps : List ℤ) → max_of ps ≡ none → ps ≡ []
unfolding max_of larger
none_empty [] h = refl
none_empty (p ∷ ps) h = larger_some p (max_of ps) h
  where
    larger_some : (p : ℤ) (o : Option ℤ) → larger p o ≡ none → p ∷ ps ≡ []
    larger_some p none h = absurd (cc h)
    larger_some p (some q) h = absurd (cc h)

-- `func.max` bounds the column.
max_of_upper : (ps : List ℤ) (m : ℤ) → max_of ps ≡ some m → All (λ x. x ≤ℤ m) ps
unfolding max_of
max_of_upper [] m h = tt
max_of_upper (p ∷ ps) m h =
    larger_upper p ps (max_of ps) m (λ q e. max_of_upper ps q e) (none_empty ps) h

after_max_above : (m : ℤ) → eqb_ℤ m (pos 0) ≡ false → m <ℤ after_max (some m)
unfolding after_max
after_max_above (pos n) h = rw h (ground arith)
after_max_above (negsuc n) h = ground arith

-- the maximum of positions that are all 0
zeros : (ps : List ℤ) → All (λ p. p ≡ pos 0) ps → (max_of ps ≡ none) ⊎ (max_of ps ≡ some (pos 0))
unfolding max_of larger
zeros [] h = inl refl
zeros (p ∷ ps) h = inr (rw h.0 (elim (zeros ps h.1) [ inl e ↦ rw e refl | inr e ↦ rw e refl ]))

after_zeros : (ps : List ℤ) → All (λ p. p ≡ pos 0) ps → after_max (max_of ps) ≡ pos 0
unfolding after_max
after_zeros ps h = elim (zeros ps h) [ inl e ↦ rw e refl | inr e ↦ rw e refl ]

module _ (restaurant_id : Uuid) where
  -- A restaurant whose highest category position is not 0 has its next position above all of them.
  pub get_next_position_above :
      (db : Db) (m : ℤ)
      → max_of (positions_of restaurant_id db) ≡ some m
      → eqb_ℤ m (pos 0) ≡ false
      → All (λ p. p <ℤ get_next_position restaurant_id db) (positions_of restaurant_id db)
  unfolding get_next_position
  get_next_position_above db m h nonzero =
      let ps = positions_of restaurant_id db in
      All-map_imp (λ x. x ≤ℤ m) (λ x. x <ℤ after_max (max_of ps)) ps
        (λ x le. rw h (≤_<ℤ x m (after_max (some m)) le (after_max_above m nonzero)))
        (max_of_upper ps m h)
    where
      ≤_<ℤ : (a b c : ℤ) → a ≤ℤ b → b <ℤ c → a <ℤ c
      ≤_<ℤ a b c h k = omega arith

  abbrev pub AllAtZero : Db → Type 0
  AllAtZero db = All (λ p. p ≡ pos 0) (positions_of restaurant_id db)

  abbrev positions : List Category → List ℤ
  positions cs = map (λ (c : Category). c.position) (filter (belongs_to restaurant_id) cs)

  positions_insert :
      (c : Category) (q : ℤ)
      → c.position ≡ q
      → (cs : List Category) → All (λ p. p ≡ q) (positions cs)
      → All (λ p. p ≡ q) (positions (cs ++ c ∷ []))
  positions_insert c q e [] h = elim (Bool-cases (belongs_to restaurant_id c)) [
    | inl b ↦ rw b (e, tt)
    | inr b ↦ rw b tt
  ]
  positions_insert c q e (x ∷ cs) h = elim (Bool-cases (belongs_to restaurant_id x)) [
    | inl b ↦ rw b (let h' = rw b at h in (h'.0, positions_insert c q e cs h'.1))
    | inr b ↦ rw b (positions_insert c q e cs (rw b at h))
  ]

  -- A category that is created without a position, in a restaurant whose categories all stand at 0,
  -- stands at 0 too. So do all the categories of a restaurant that were made this way.
  pub create-AllAtZero :
      (d : Defaults) (name : Text) (description : Option Text) (active : Bool) (db : Db)
      (c : Category) (db' : Db)
      → AllAtZero db
      → create d restaurant_id name description none active db ≡ ok (c, db')
      → (c.position ≡ pos 0) × AllAtZero db'
  unfolding get_next_position
  create-AllAtZero d name description active db c db' zero h =
      let (is, stored) = category_insert d restaurant_id name description none active db c db' h in
      let at_zero : c.position ≡ pos 0 =
        ap (λ (c : Category). c.position) is ∙ after_zeros (positions_of restaurant_id db) zero in
      (
        at_zero,
        rw (ap (λ (z : Db). z.categories) stored.stored)
            (positions_insert c (pos 0) at_zero db.categories zero),
      )
