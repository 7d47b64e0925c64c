-- ===== src/Cacheless.antt =====
-- The service without its menu cache (api/app/core/cache.py), as a specification: every request of
-- api/app/api/routers/ acts on the database alone.
pub mod Blind
pub mod Methods
pub mod Catalogue
pub mod Accounts
pub mod Refines
use proyecto_1_back.Prelude.{List, [], ◌∷◌}
use proyecto_1_back.Http.{Result, ok, err}
use proyecto_1_back.Text.{Text}
use proyecto_1_back.Env.{Env}
use proyecto_1_back.Models.{Db}
use proyecto_1_back.Schemas.{MenuResponse}
use proyecto_1_back.Services.Menu.{Scan, event_of, add_scan}
use proyecto_1_back.Services.Menu.Build.{fresh_menu}
use proyecto_1_back.Api.{Request, get_menu, handle}

-- the database after a change that may be refused
abbrev pub changed : Db → Result (Unit {0} × Db) → Db
changed db (ok (done, after)) = after
changed db (err e) = db

-- a shown menu is scanned
abbrev pub scanned : Scan → Result MenuResponse → Db → Db
scanned scan (err e) db = db
scanned scan (ok menu) db = changed db (add_scan (event_of scan menu.restaurant_id) db)

-- a request: a menu is built from the database, and the others are those of the API
unfoldable pub serve : Env → Request → Db → Db
unfolding handle fresh_menu add_scan
serve env (get_menu read_at stored_at scan slug) db = scanned scan (fresh_menu slug db) db
serve env r db = (handle env r (record { db = db; cache = [] })).db

unfoldable pub serve_all : Env → List Request → Db → Db
unfolding serve
serve_all env [] db = db
serve_all env (r ∷ requests) db = serve_all env requests (serve env r db)
