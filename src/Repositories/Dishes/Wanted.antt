-- ===== src/Repositories/Dishes/Wanted.antt =====
-- What the filters of `list_dishes` of api/app/repositories/dish_repo.py ask for, in plain words, and that
-- the WHERE clause says it.
use proyecto_1_back.Prelude.{
  ℕ, ◌≤◌, ◌≡◌, refl, ◌⊎◌, inl, inr, Bool, true, false, ◌&&◌, ◌||◌, Option, none, some, List, [],
  ◌∷◌, ◌++◌, any, leb, ◌==◌, ==_refl, arith,
}
use mathlib.Core.List.{Memᴰ}
use proyecto_1_back.Text.{Text, text_eq, text_eq_iff}
use proyecto_1_back.Env.{Env}
use proyecto_1_back.Models.{Category, Dish, Db}
use proyecto_1_back.Sql.Members.{Mem-any, any-Mem}
use proyecto_1_back.Repositories.Restaurants.{belongs_to}
use proyecto_1_back.Repositories.Categories.{is_kept}
use proyecto_1_back.Repositories.Dishes.{
  DishFilter, unless_given, unless_filled, same_bool, on_value, search_filter, matches, counted,
}

abbrev pub Given : {A : Type 0} → Option A → (A → Type 0) → Type 0
Given none P = Unit {0}
Given (some a) P = P a

-- a text that is not empty
abbrev pub Filled : Option Text → (Text → Type 0) → Type 0
Filled none P = Unit {0}
Filled (some []) P = Unit {0}
Filled (some (c ∷ s)) P = P (c ∷ s)

-- `%query%`
abbrev pub within : Text → Text
within q = 37 ∷ q ++ 37 ∷ []

-- the dish answers the query parameters
pub record Wanted (env : Env) (f : DishFilter) (db : Db) (d : Dish) : Type 0 where
  pub at_restaurant :
      Given f.restaurant_id (λ r.
        (c : Category) × Memᴰ c db.categories × (c.id ≡ d.category_id) × (c.restaurant_id ≡ r))
  pub kept : (f.include_deleted ≡ true) ⊎ (d.deleted_at ≡ none)
  pub in_category : Given f.category_id (λ c. d.category_id ≡ c)
  pub available : Given f.available (λ b. d.available ≡ b)
  pub featured : Given f.featured (λ b. d.featured ≡ b)
  pub found : Filled f.search_query (λ q.
      (env.ilike d.name (within q) ≡ true)
      ⊎ ((s : Text) × (d.description ≡ some s) × (env.ilike s (within q) ≡ true)))
  pub tagged : Filled f.tag (λ t. (ts : List Text) × (d.tags ≡ some ts) × Memᴰ t ts)
  pub at_least : Given f.min_price (λ p. p ≤ d.price)
  pub at_most : Given f.max_price (λ p. d.price ≤ p)

-- a test says whether `P`
abbrev Says : Bool → Type 0 → Type 0
Says b P = (b ≡ true → P) × (P → b ≡ true)

given :
    {A : Type 0}
    → (o : Option A) (test : A → Bool) (P : A → Type 0) → ((a : A) → Says (test a) (P a))
    → Says (unless_given o test) (Given o P)
given none test P h = (λ _. tt, λ _. refl)
given (some a) test P h = h a

filled :
    (o : Option Text) (test : Text → Bool) (P : Text → Type 0)
    → ((a : Text) → Says (test a) (P a))
    → Says (unless_filled o test) (Filled o P)
filled none test P h = (λ _. tt, λ _. refl)
filled (some []) test P h = (λ _. tt, λ _. refl)
filled (some (c ∷ s)) test P h = h (c ∷ s)

on_value-Says :
    {A : Type 0}
    → (o : Option A) (test : A → Bool) (P : A → Type 0) → ((a : A) → Says (test a) (P a))
    → Says (on_value o test) ((a : A) × (o ≡ some a) × P a)
on_value-Says none test P h = (λ e. cc e, λ (a, e, p). cc e)
on_value-Says (some a) test P h =
    (λ e. (a, refl, (h a).0 e), λ (b, e, p). let is : a ≡ b = cc e in (h a).1 (rw is p))

same_bool-Says : (b c : Bool) → Says (same_bool b c) (c ≡ b)
same_bool-Says true c = (λ e. e, λ e. e)
same_bool-Says false true = (λ e. cc e, λ e. cc e)
same_bool-Says false false = (λ e. refl, λ e. refl)

or-Says : (a b : Bool) (P Q : Type 0) → Says a P → Says b Q → Says (a || b) (P ⊎ Q)
or-Says true b P Q h k = (λ e. inl (h.0 refl), λ e. refl)
or-Says false b P Q h k = (λ e. inr (k.0 e), λ x. elim x [ inl p ↦ cc (h.1 p) | inr q ↦ k.1 q ])

is_kept-Says : (d : Dish) → Says (is_kept d) (d.deleted_at ≡ none)
is_kept-Says d = go d.deleted_at
  where
    go : {A : Type 0} → (o : Option A) → Says (elim o [ none ↦ true | some _ ↦ false ]) (o ≡ none)
    go none = (λ e. refl, λ e. refl)
    go (some a) = (λ e. cc e, λ e. cc e)

text_eq-Mem : (t : Text) (ts : List Text) → Says (any (text_eq t) ts) (Memᴰ t ts)
text_eq-Mem t ts = (
  λ e. let (s, there, same) = any-Mem (text_eq t) ts e in rw ((text_eq_iff t s).0 same) there,
  λ m. Mem-any (text_eq t) t ts m ((text_eq_iff t t).1 refl),
)

module _ (db : Db) (d : Dish) where
  joined :
      (r : ℕ)
      → Says
          (any (λ c. c.id == d.category_id && belongs_to r c) db.categories)
          ((c : Category) × Memᴰ c db.categories × (c.id ≡ d.category_id) × (c.restaurant_id ≡ r))
  joined r =
      let p = λ (c : Category). c.id == d.category_id && belongs_to r c in
      (
        λ e.
            let (c, there, passed) = any-Mem p db.categories e in
            (c, there, ground (arith, passed), ground (arith, passed)),
        λ (c, there, is, inside).
            Mem-any p c db.categories there
              (rw is (rw inside (rw (==_refl d.category_id) (rw (==_refl r) refl)))),
      )

and-Says : {a b : Bool} {P Q : Type 0} → Says a P → Says b Q → Says (a && b) (P × Q)
and-Says {a = true} h k = (λ e. (h.0 refl, k.0 e), λ (p, q). k.1 q)
and-Says {a = false} h k = (λ e. cc e, λ (p, q). cc (h.1 p))

module _ (env : Env) (f : DishFilter) (db : Db) (d : Dish) where
  search_filter-Says :
      (q : Text)
      → Says (search_filter env q d) (
          (env.ilike d.name (within q) ≡ true)
          ⊎ ((s : Text) × (d.description ≡ some s) × (env.ilike s (within q) ≡ true)))
  search_filter-Says q =
      or-Says _ _ _ _ (λ e. e, λ e. e)
        (on_value-Says d.description (λ s. env.ilike s (within q))
          (λ s. env.ilike s (within q) ≡ true) (λ s. (λ e. e, λ e. e)))

  restaurant_clause :
      Says
        (unless_given f.restaurant_id
          (λ r. any (λ c. c.id == d.category_id && belongs_to r c) db.categories))
        (Given f.restaurant_id (λ r.
          (c : Category) × Memᴰ c db.categories × (c.id ≡ d.category_id) × (c.restaurant_id ≡ r)))
  restaurant_clause = given f.restaurant_id _ _ (joined db d)

  kept_clause :
      Says (f.include_deleted || is_kept d) ((f.include_deleted ≡ true) ⊎ (d.deleted_at ≡ none))
  kept_clause =
      or-Says f.include_deleted (is_kept d) (f.include_deleted ≡ true) (d.deleted_at ≡ none)
        (λ e. e, λ e. e) (is_kept-Says d)

  category_clause :
      Says
        (unless_given f.category_id (λ c. d.category_id == c))
        (Given f.category_id (λ c. d.category_id ≡ c))
  category_clause =
      given f.category_id (λ c. d.category_id == c) (λ c. d.category_id ≡ c)
        λ c. (λ e. ground (arith, e), λ e. ground (arith, e))

  tag_clause :
      Says
        (unless_filled f.tag (λ t. on_value d.tags (any (text_eq t))))
        (Filled f.tag (λ t. (ts : List Text) × (d.tags ≡ some ts) × Memᴰ t ts))
  tag_clause = filled f.tag _ _ λ t. on_value-Says d.tags (any (text_eq t)) _ (text_eq-Mem t)

  min_clause :
      Says (unless_given f.min_price (λ p. leb p d.price)) (Given f.min_price (λ p. p ≤ d.price))
  min_clause =
      given f.min_price (λ p. leb p d.price) (λ p. p ≤ d.price)
        λ p. (λ e. ground (arith, e), λ e. ground (arith, e))

  max_clause :
      Says (unless_given f.max_price (λ p. leb d.price p)) (Given f.max_price (λ p. d.price ≤ p))
  max_clause =
      given f.max_price (λ p. leb d.price p) (λ p. d.price ≤ p)
        λ p. (λ e. ground (arith, e), λ e. ground (arith, e))

  available_clause :
      Says
        (unless_given f.available (λ b. same_bool b d.available))
        (Given f.available (λ b. d.available ≡ b))
  available_clause = given f.available _ _ λ b. same_bool-Says b d.available

  featured_clause :
      Says
        (unless_given f.featured (λ b. same_bool b d.featured))
        (Given f.featured (λ b. d.featured ≡ b))
  featured_clause = given f.featured _ _ λ b. same_bool-Says b d.featured

  search_clause : Says (unless_filled f.search_query (λ q. search_filter env q d)) (
      Filled f.search_query (λ q.
        (env.ilike d.name (within q) ≡ true)
        ⊎ ((s : Text) × (d.description ≡ some s) × (env.ilike s (within q) ≡ true))))
  search_clause = filled f.search_query _ _ search_filter-Says

  abbrev Kept : Type 0
  Kept =
      Given f.restaurant_id (λ r.
        (c : Category) × Memᴰ c db.categories × (c.id ≡ d.category_id) × (c.restaurant_id ≡ r))
      × ((f.include_deleted ≡ true) ⊎ (d.deleted_at ≡ none))

  abbrev Chosen : Type 0
  Chosen =
      ((Kept × Given f.category_id (λ c. d.category_id ≡ c))
        × Given f.available (λ b. d.available ≡ b))
      × Given f.featured (λ b. d.featured ≡ b)

  abbrev Searched : Type 0
  Searched =
      (Chosen
        × Filled f.search_query (λ q.
          (env.ilike d.name (within q) ≡ true)
          ⊎ ((s : Text) × (d.description ≡ some s) × (env.ilike s (within q) ≡ true))))
      × Filled f.tag (λ t. (ts : List Text) × (d.tags ≡ some ts) × Memᴰ t ts)

  -- the nine tests of the WHERE clause, in its order
  clauses :
      Says
        (matches env f db d)
        ((Searched × Given f.min_price (λ p. p ≤ d.price)) × Given f.max_price (λ p. d.price ≤ p))
  unfolding matches
  clauses =
      and-Says
        (and-Says
          (and-Says
            (and-Says
              (and-Says
                (and-Says (and-Says (and-Says restaurant_clause kept_clause) category_clause)
                  available_clause)
                featured_clause)
              search_clause)
            tag_clause)
          min_clause)
        max_clause

  pub matches-Wanted : matches env f db d ≡ true → Wanted env f db d
  unfolding matches
  matches-Wanted e =
      let ((((((((a, b), c), g), h), i), j), k), l) = clauses.0 e in
      record {
        at_restaurant = a;
        kept = b;
        in_category = c;
        available = g;
        featured = h;
        found = i;
        tagged = j;
        at_least = k;
        at_most = l;
      }

  pub Wanted-matches : Wanted env f db d → matches env f db d ≡ true
  unfolding matches
  Wanted-matches w = clauses.1 (
    (
      (
        (((((w.at_restaurant, w.kept), w.in_category), w.available), w.featured), w.found),
        w.tagged,
      ),
      w.at_least,
    ),
    w.at_most,
  )

  -- `count_query` takes the rows that `query` takes
  pub counted-matches : counted env f db d ≡ matches env f db d
  unfolding counted matches
  counted-matches = refl
