-- ===== src/Services.antt =====
-- api/app/services/: the business logic, as effects on the database and the cache.
-- What a method reads from the clock, from `uuid4` and from the salt of a hash are its arguments.
pub mod Auth
pub mod Restaurants
pub mod Analytics
pub mod Uploads
pub mod Categories
pub mod Dishes
pub mod Menu
pub mod Settled
