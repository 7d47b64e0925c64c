-- ===== src/Services/Restaurants/FreeSlug/Terminates.antt =====
-- The loop of `_ensure_unique_slug`, api/app/services/restaurant_service.py, on the fuel of its model.
use proyecto_1_back.Prelude.{
  ℕ, zero, suc, ◌≡◌, ◌⊎◌, inl, inr, refl, ap, Bool, true, Option, none, some, List, [], ◌∷◌, map,
  filter, length, arith, Bool-cases, if◌then◌else◌,
}
use proyecto_1_back.Http.{Result, ok}
use proyecto_1_back.Text.{Text, text_eq, text_eq_iff}
use proyecto_1_back.Models.{Uuid, Restaurant, Db}
use proyecto_1_back.Sql.Distinct.{Distinct, Distinct-filter_one}
use proyecto_1_back.Slug.{candidate, is_member}
use proyecto_1_back.Slug.Unique.{AllTaken, AllTaken-length}
use proyecto_1_back.Repositories.Restaurants
use proyecto_1_back.Services.Restaurants.FreeSlug.{is_usable, search_slug, ensure_unique_slug}

abbrev pub same_slug : Restaurant → Restaurant → Bool
same_slug r s = text_eq r.slug s.slug

abbrev pub slugs : List Restaurant → List Text
slugs rs = map (λ r. r.slug) rs

-- what one query of the loop tells
record Query (slug : Text) (exclude_id : Option Uuid) (db : Db) : Type 0 where
  pub found : Option Restaurant
  pub is : Restaurants.get_by_slug slug db ≡ ok found
  pub usable_or_taken :
      (is_usable exclude_id found ≡ true) ⊎ (is_member slug (slugs db.restaurants) ≡ true)

is_member-slug :
    (slug : Text) (rs : List Restaurant) (r : Restaurant)
    → filter (λ r. text_eq r.slug slug) rs ≡ r ∷ []
    → is_member slug (slugs rs) ≡ true
unfolding is_member
is_member-slug slug [] r h = ground arith
is_member-slug slug (s ∷ rs) r h =
    ground (arith, is_member-slug slug rs r, text_eq_iff s.slug slug, text_eq_iff slug s.slug)

same_as : (a b slug : Text) → text_eq a slug ≡ true → text_eq b slug ≡ true → text_eq a b ≡ true
same_as a b slug p q = ground (arith, text_eq_iff a slug, text_eq_iff b slug, text_eq_iff a b)

look :
    (slug : Text) (exclude_id : Option Uuid) (db : Db)
    → Distinct same_slug db.restaurants
    → Query slug exclude_id db
unfolding Restaurants.get_by_slug is_usable
look slug exclude_id db d =
    elim (Distinct-filter_one same_slug (λ r. text_eq r.slug slug) db.restaurants
      (λ r s p q. same_as r.slug s.slug slug p q) d) [
        | inl e ↦ record { found = none; is = rw e refl; usable_or_taken = inl refl }
        | inr (r, e) ↦ record {
          found = some r;
          is = rw e refl;
          usable_or_taken = inr (is_member-slug slug db.restaurants r e);
        }
      ]

-- the search found a slug that no other restaurant has
abbrev pub Finds : Result Text → Option Uuid → Db → Type 0
Finds result exclude_id db =
    (slug : Text) × (found : Option Restaurant) × (result ≡ ok slug)
    × (Restaurants.get_by_slug slug db ≡ ok found)
    × (is_usable exclude_id found ≡ true)

-- One round of the loop, `next` the result of the rounds after it.
round :
    (slug : Text) (exclude_id : Option Uuid) (db : Db) (q : Query slug exclude_id db)
    (next : Result Text)
    → Finds (if is_usable exclude_id q.found then ok slug else next) exclude_id db
      ⊎ ((is_member slug (slugs db.restaurants) ≡ true)
          × ((if is_usable exclude_id q.found then ok slug else next) ≡ next))
round slug exclude_id db q next = elim (Bool-cases (is_usable exclude_id q.found)) [
  | inl e ↦ rw e (inl (slug, q.found, refl, q.is, e))
  | inr e ↦ rw e (elim q.usable_or_taken [
    | inl usable ↦ absurd (ground (arith, e, usable))
    | inr taken ↦ inr (taken, refl)
  ])
]

-- The search finds a slug, or every candidate that it tried belongs to a restaurant.
search_slug-cases :
    (fuel counter : ℕ) (base : Text) (exclude_id : Option Uuid) (db : Db)
    → Distinct same_slug db.restaurants
    → Finds (search_slug fuel counter base exclude_id db) exclude_id db
      ⊎ AllTaken fuel counter base (slugs db.restaurants)
unfolding search_slug
search_slug-cases zero counter base exclude_id db d = inr tt
search_slug-cases (suc fuel) counter base exclude_id db d =
    let next = search_slug fuel (suc counter) base exclude_id db in
    let q = look (candidate base counter) exclude_id db d in
    let rest = search_slug-cases fuel (suc counter) base exclude_id db d in
    rw q.is (elim (round (candidate base counter) exclude_id db q next) [
      | inl finds ↦ inl finds
      | inr (taken, is) ↦ rw is (elim rest [ inl finds ↦ inl finds | inr all ↦ inr (taken, all) ])
    ])

slugs-length : (rs : List Restaurant) → length (slugs rs) ≡ length rs
slugs-length [] = refl
slugs-length (r ∷ rs) = ap suc (slugs-length rs)

-- In a database whose restaurants have distinct slugs, `_ensure_unique_slug` returns a slug, and the
-- restaurant with that slug is the excluded one or there is none.
pub ensure_unique_slug-Finds :
    (base : Text) (exclude_id : Option Uuid) (db : Db)
    → Distinct same_slug db.restaurants
    → Finds (ensure_unique_slug base exclude_id db) exclude_id db
unfolding ensure_unique_slug
ensure_unique_slug-Finds base exclude_id db d =
    let fuel = suc (length db.restaurants) in
    let q = look base exclude_id db d in
    rw q.is (elim (round base exclude_id db q (search_slug fuel 1 base exclude_id db)) [
      | inl finds ↦ finds
      | inr (taken, is) ↦ rw is (elim (search_slug-cases fuel 1 base exclude_id db d) [
        | inl finds ↦ finds
        | inr all ↦ absurd (
            omega (
              arith,
              AllTaken-length fuel 1 base (slugs db.restaurants) all,
              slugs-length db.restaurants,
            ))
      ])
    ])
