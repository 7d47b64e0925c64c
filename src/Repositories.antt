-- ===== src/Repositories.antt =====
-- api/app/repositories/: the queries and the commits, over the rows of api/app/models/.
-- A query is `Db → Result A`; a method that commits is `Db → Result (A × Db)`. The unique columns,
-- the primary keys and the foreign keys that the models declare are checked at the insert.
pub mod Users
pub mod Analytics
pub mod RefreshTokens
pub mod Restaurants
pub mod Categories
pub mod Dishes
pub mod Inserts
