-- ===== src/Trace.antt =====
-- What the requests do to the state, as a relation: one committed change, or one use of the menu cache
-- (api/app/core/cache.py), and sequences of these.
pub mod Change
pub mod Made
pub mod Rules
pub mod Methods
pub mod Requests
use proyecto_1_back.Prelude.{◌≡◌, refl}
use proyecto_1_back.Http.{ok}
use proyecto_1_back.Text.{Text}
use proyecto_1_back.Models.{Time, Restaurant, Db}
use proyecto_1_back.Schemas.{MenuResponse}
use proyecto_1_back.Cache.{cache_get, cache_set}
use proyecto_1_back.App.{World}
use proyecto_1_back.Repositories.Inserts.{RestaurantInsert}
use proyecto_1_back.Services.Settled.{forgotten}
use proyecto_1_back.Services.Menu.{cache_key, menu_cache_ttl}
use proyecto_1_back.Services.Menu.Build.{fresh_menu}
use Change.{AccountChange, CatalogueChange}

pub data Step (w w' : World) : Type 0 where
  -- a commit that no menu shows
  account : (db : Db) → AccountChange w.db db → w' ≡ record w { db = db } → Step w w'
  -- a new restaurant, whose service does not touch the cache
  restaurant_added :
      (r : Restaurant) (db : Db)
      → RestaurantInsert w.db r db
      → w' ≡ record w { db = db }
      → Step w w'
  -- a commit after which every menu is dropped
  catalogue : (db : Db) → CatalogueChange w.db db → w' ≡ forgotten w db → Step w w'
  -- a lookup, which may drop an expired menu
  looked_up :
      (now : Time) (slug : Text)
      → w' ≡ record w { cache = (cache_get now (cache_key slug) w.cache).1 }
      → Step w w'
  -- a menu built from the database, kept
  menu_kept :
      (now : Time) (slug : Text) (menu : MenuResponse)
      → fresh_menu slug w.db ≡ ok menu
      → w' ≡ record w { cache = cache_set now (cache_key slug) menu menu_cache_ttl w.cache }
      → Step w w'

pub data Reach (s : World) : World → Type 0 where
  here : Reach s s
  next : {t u : World} → Reach s t → Step t u → Reach s u

pub Reach-trans : {s t u : World} → Reach s t → Reach t u → Reach s u
Reach-trans r here = r
Reach-trans r (next q st) = next (Reach-trans r q) st

-- A property that each step keeps is kept by a sequence of them.
pub Reach-keeps :
    (P : World → Type 0)
    → ((t u : World) → Step t u → P t → P u)
    → {s t : World} → Reach s t
    → P s
    → P t
Reach-keeps P keep here h = h
Reach-keeps P keep (next {t} {u} r st) h = keep t u st (Reach-keeps P keep r h)
