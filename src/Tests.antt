-- ===== src/Tests.antt =====
-- Concrete states and calls.
mod Sample
mod Accounts
mod Tokens
mod Catalogue
mod Listings
mod Sections
mod Runs
mod Dashboards
mod Buckets
