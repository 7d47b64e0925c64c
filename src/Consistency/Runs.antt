-- ===== src/Consistency/Runs.antt =====
-- Sequences of requests of api/app/api/routers/, and the constraints of the tables.
use proyecto_1_back.Prelude.{List}
use proyecto_1_back.Prelude.{Option}
use proyecto_1_back.Text.{Text}
use proyecto_1_back.Env.{Env}
use proyecto_1_back.Models.{Uuid}
use proyecto_1_back.App.{World}
use proyecto_1_back.Services.Restaurants.FreeSlug.{ensure_unique_slug}
use proyecto_1_back.Services.Restaurants.FreeSlug.Terminates.{Finds, ensure_unique_slug-Finds}
use proyecto_1_back.Api.{Request, run}
use proyecto_1_back.Trace.{
  Step, account, restaurant_added, catalogue, looked_up, menu_kept, Reach-keeps,
}
use proyecto_1_back.Trace.Requests.{run-Reach}
use proyecto_1_back.Consistency.{IsConsistent}
use proyecto_1_back.Consistency.Accounts.{AccountChange-IsConsistent}
use proyecto_1_back.Consistency.Catalogue.{
  CatalogueChange-IsConsistent, restaurant_added-IsConsistent,
}

-- The database of a state has its constraints.
abbrev pub Stored : World → Type 0
Stored w = IsConsistent w.db

-- Every step keeps the constraints.
Step-IsConsistent : (w w' : World) → Step w w' → Stored w → Stored w'
Step-IsConsistent w w' (account db change e) c = rw e (AccountChange-IsConsistent w.db db change c)
Step-IsConsistent w w' (restaurant_added r db insert e) c =
    rw e (restaurant_added-IsConsistent r w.db db insert c)
Step-IsConsistent w w' (catalogue db change e) c =
    rw e (CatalogueChange-IsConsistent w.db db change c)
Step-IsConsistent w w' (looked_up now slug e) c = rw e c
Step-IsConsistent w w' (menu_kept now slug menu h e) c = rw e c

-- Any sequence of requests keeps the constraints of the tables: the primary keys, the unique e-mails,
-- token hashes, owners and slugs, and the foreign keys, also where a delete cascades.
pub run-IsConsistent :
    (env : Env) (requests : List Request) (w : World)
    → IsConsistent w.db
    → IsConsistent (run env requests w).db
run-IsConsistent env requests w = Reach-keeps Stored Step-IsConsistent (run-Reach env requests w)

-- After any sequence of requests from a database with its constraints, such as an empty one,
-- `_ensure_unique_slug` ends with a slug that no other restaurant has.
pub slug_after_requests :
    (env : Env) (requests : List Request) (w : World) (base : Text) (exclude_id : Option Uuid)
    → IsConsistent w.db
    → Finds
        (ensure_unique_slug base exclude_id (run env requests w).db)
        exclude_id
        (run env requests w).db
slug_after_requests env requests w base exclude_id c =
    ensure_unique_slug-Finds base exclude_id (run env requests w).db
      (run-IsConsistent env requests w c).restaurants.slugs
