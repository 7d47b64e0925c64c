-- ===== src/Services/Menu.antt =====
-- api/app/services/menu_service.py, and the scan that the public endpoints record
-- (`get_menu` of api/app/api/routers/menu.py).
pub mod Build
pub mod Coherence
pub mod Shown
use proyecto_1_back.Prelude.{
  ℕ, Bool, not, ◌||◌, Option, none, some, List, [], ◌∷◌, ◌++◌, any, ◌==◌, if◌then◌else◌,
}
use proyecto_1_back.Http.{Exc, Result, ok, err}
use proyecto_1_back.Text.{Text, codes}
use proyecto_1_back.Models.{Uuid, Time, ScanEvent, Db}
use proyecto_1_back.Schemas.{MenuResponse}
use proyecto_1_back.Sql.{unless_violated}
use proyecto_1_back.Cache.{cache_get, cache_set}
use proyecto_1_back.App.{World, Exec, pure, query, commit, on_cache, ◌>>=◌, ◌>>◌}
use Build.{fresh_menu}

-- `f"menu:{slug}"`
abbrev pub cache_key : Text → Text
cache_key slug = codes "menu:" ++ slug

-- MENU_CACHE_TTL, 5 minutes
abbrev pub menu_cache_ttl : ℕ
menu_cache_ttl = 300

-- `cache_get`, which may drop an expired entry
abbrev pub from_cache : Time → Text → Exec (Option MenuResponse)
from_cache now key w =
    let (found, cache) = cache_get now key w.cache in (ok found, record w { cache = cache })

-- the rest of the method, behind the lookup
unfoldable pub menu_or_build : Time → Text → Option MenuResponse → Exec MenuResponse
menu_or_build now slug (some cached) = pure cached
menu_or_build now slug none = do
  menu ← query (fresh_menu slug)
  on_cache (cache_set now (cache_key slug) menu menu_cache_ttl)
  pure menu

-- the clock at `cache_get` and at `cache_set`
unfoldable pub get_menu_by_slug : Time → Time → Text → Exec MenuResponse
unfolding menu_or_build
get_menu_by_slug read_at stored_at slug = do
  cached ← from_cache read_at (cache_key slug)
  menu_or_build stored_at slug cached

-- the row of a scan: the primary key, and the foreign key to `restaurants`
unfoldable pub add_scan : ScanEvent → Db → Result (Unit {0} × Db)
add_scan event db =
    unless_violated
      (any (λ e. e.id == event.id) db.scan_events
        || not (any (λ r. r.id == event.restaurant_id) db.restaurants))
      (tt, record db { scan_events = db.scan_events ++ event ∷ [] })

-- `try: … except Exception: logger.debug(…)`
abbrev pub best_effort : Exec (Unit {0}) → Exec (Unit {0})
best_effort m w = (ok tt, (m w).1)

-- What a request shows of its client: the fresh id and time of the row, and three headers.
pub record Scan : Type 0 where
  pub id : Uuid
  pub timestamp : Time
  pub user_agent : Text
  pub ip_hash : Text
  pub referrer : Option Text

abbrev pub event_of : Scan → Uuid → ScanEvent
event_of scan restaurant_id = record {
  id = scan.id;
  restaurant_id = restaurant_id;
  timestamp = scan.timestamp;
  user_agent = scan.user_agent;
  ip_hash = scan.ip_hash;
  referrer = scan.referrer;
}

unfoldable pub get_menu : Time → Time → Scan → Text → Exec MenuResponse
unfolding get_menu_by_slug add_scan
get_menu read_at stored_at scan slug = do
  menu ← get_menu_by_slug read_at stored_at slug
  best_effort (commit (add_scan (event_of scan menu.restaurant_id)))
  pure menu
