-- ===== src/Consistency.antt =====
-- The constraints of the tables of api/app/models/*.py: primary keys, unique columns, and foreign keys.
pub mod Tables
pub mod Accounts
pub mod Catalogue
pub mod Runs
use proyecto_1_back.Prelude.{ℕ, ◌≡◌, Bool, true, List, any, All, ◌==◌}
use proyecto_1_back.Text.{Text, text_eq}
use proyecto_1_back.Models.{User, Restaurant, Category, Dish, ScanEvent, RefreshToken, Db}
use proyecto_1_back.Sql.Distinct.{Distinct}

module _ {A : Type 0} where
  -- a column of numbers without duplicates
  abbrev pub UniqueId : (A → ℕ) → List A → Type 0
  UniqueId column rows = Distinct (λ x y. column x == column y) rows

  -- a column of texts without duplicates
  abbrev pub UniqueText : (A → Text) → List A → Type 0
  UniqueText column rows = Distinct (λ x y. text_eq (column x) (column y)) rows

module _ {A B : Type 0} where
  -- a column that refers to a primary key
  abbrev pub Refers : (A → ℕ) → List A → (B → ℕ) → List B → Type 0
  Refers column rows key parents = All (λ x. any (λ y. key y == column x) parents ≡ true) rows

pub record UsersOk (users : List User) : Type 0 where
  pub ids : UniqueId (λ u. u.id) users
  pub emails : UniqueText (λ u. u.email) users

pub record TokensOk (users : List User) (tokens : List RefreshToken) : Type 0 where
  pub ids : UniqueId (λ t. t.id) tokens
  pub hashes : UniqueText (λ t. t.token_hash) tokens
  pub owned : Refers (λ t. t.user_id) tokens (λ u. u.id) users

pub record RestaurantsOk (users : List User) (restaurants : List Restaurant) : Type 0 where
  pub ids : UniqueId (λ r. r.id) restaurants
  pub owners : UniqueId (λ r. r.owner_user_id) restaurants
  pub slugs : UniqueText (λ r. r.slug) restaurants
  pub owned : Refers (λ r. r.owner_user_id) restaurants (λ u. u.id) users

pub record CategoriesOk (restaurants : List Restaurant) (categories : List Category) : Type 0 where
  pub ids : UniqueId (λ c. c.id) categories
  pub inside : Refers (λ c. c.restaurant_id) categories (λ r. r.id) restaurants

pub record DishesOk (categories : List Category) (dishes : List Dish) : Type 0 where
  pub ids : UniqueId (λ d. d.id) dishes
  pub inside : Refers (λ d. d.category_id) dishes (λ c. c.id) categories

pub record ScansOk (restaurants : List Restaurant) (scans : List ScanEvent) : Type 0 where
  pub ids : UniqueId (λ e. e.id) scans
  pub inside : Refers (λ e. e.restaurant_id) scans (λ r. r.id) restaurants

pub record IsConsistent (db : Db) : Type 0 where
  pub users : UsersOk db.users
  pub tokens : TokensOk db.users db.refresh_tokens
  pub restaurants : RestaurantsOk db.users db.restaurants
  pub categories : CategoriesOk db.restaurants db.categories
  pub dishes : DishesOk db.categories db.dishes
  pub scans : ScansOk db.restaurants db.scan_events
