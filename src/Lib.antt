-- ===== src/Lib.antt =====
-- LiveMenu backend: restaurants publish a menu, edited by their owners and read by anybody.
--
-- The program is a FastAPI service, api/app. A router (api/routers) takes a request, reads the user from
-- the bearer token (api/deps.py, core/security/jwt.py), and calls a service (services). A service checks
-- ownership, queries and commits by the repositories (repositories) over the tables of models, and
-- drops the cached menus (core/cache.py) after a change. The public menu (services/menu_service.py) is
-- built from the database and kept in the cache for five minutes.
--
-- Models          the rows of models/*.py, and `Db`, the six tables as lists
-- Schemas         schemas/*.py: the bodies, with a field of an update absent, null or given, and responses
-- Text, Slug      Python's `str`; utils/slug.py
-- Sql             the WHERE, UPDATE, DELETE, ORDER BY, LIMIT and max that the repositories build; Sql.Members:
--                 its rows as members of a table
-- Cache           core/cache.py: an association list with expiry times
-- Env             the libraries as a parameter: bcrypt, SHA-256, JWT, UUID texts, ILIKE, `str.lower` above
--                 ASCII; and two settings
-- Http, App       exceptions as values; a method is `World → Result A × World`, where `World` is the
--                 database and the cache, so what was committed before a raise stays
-- Repositories    repositories/*.py, one child each: a query is `Db → Result A`, a commit
--                 `Db → Result (A × Db)`; the primary keys, unique columns and foreign keys of the models
--                 refuse a commit with IntegrityError
-- Security        core/security/jwt.py and `get_current_user_id` of api/deps.py
-- Services        services/*.py, one child each; Services.Restaurants.FreeSlug is `_ensure_unique_slug`
-- Api             the endpoints that change or read these tables, as `Request`, and runs over them;
--                 Api.Routes: each route of api/routers with its response; Api.Pages: the HTML page;
--                 Api.Reports: analytics and QR codes
--                 Api.Uploads: the routes of api/routers/upload.py, on the state and the bucket
-- Trace           what requests do to the state, as a step relation: one commit, or one use of the cache
-- Consistency     the primary keys, unique columns and foreign keys of models/*.py as a predicate on `Db`
-- Cacheless       the service without its cache, a specification
-- Csv             utils/csv_export.py with the dialect of csv.DictWriter; Csv.Reader, a reader as in RFC 4180
-- Config          core/config.py and core/secrets.py
-- Storage         core/storage.py; Services.Uploads is services/upload_service.py
-- Middleware      core/middleware/*.py
-- Pagination      utils/pagination.py
-- Tests           concrete states and calls
--
-- A method keeps the name that it has in the source. The clock, the fresh ids, the fresh `jti` of a token
-- and the salt of a hash are arguments. A UUID is a number that is only compared, a price is in
-- hundredths, a position is an integer. The order in which the cache holds its keys is not observed.
--
-- The `while True` loop of `_ensure_unique_slug` runs on fuel, one round more than there are restaurants;
-- the candidates differ, so this is enough. `str(n)` runs on `n + 1` rounds, more than its digits.
--
-- Requests are handled one after another: the interleaving of two requests at an `await` is not modelled.
-- The groups of a query stand in a list of the model's choice where ORDER BY leaves them open. The resizing
-- threads share no state; the uploads of one image end in an order that is an argument. PostgreSQL's
-- date_trunc and extract, Pillow and the clients of the buckets are parameters.
--
-- Not modelled: the drawing of QR codes, the template of the HTML page, the limiter of slowapi, sessions,
-- logging, the validation of bodies by pydantic, and the deployment. What pydantic reads from the text of a
-- time is a parameter. The job queue of api/app/services/upload_service.py (`_process_job`, `_worker`), which
-- nothing starts or fills, is not modelled either.
--
-- Some bounds of the platform are not modelled: a time is any number of microseconds, so that nothing
-- overflows at the end of the year 9999; a position outside int4 and a price outside Numeric(10,2) are not
-- refused; `str.lower` maps each code point by itself, without the rule for a final sigma.
pub mod Prelude
pub mod Text
pub mod Slug
pub mod Http
pub mod Models
pub mod Schemas
pub mod Sql
pub mod Cache
pub mod Env
pub mod App
pub mod Repositories
pub mod Security
pub mod Services
pub mod Api
pub mod Tests
pub mod Trace
pub mod Consistency
pub mod Csv
pub mod Config
pub mod Storage
pub mod Middleware
pub mod Cacheless
pub mod Pagination
