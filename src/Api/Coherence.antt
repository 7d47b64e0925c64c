-- ===== src/Api/Coherence.antt =====
-- The menu cache under every request of api/app/api/routers/, and under sequences of them.
pub mod Listing
use proyecto_1_back.Prelude.{◌≡◌, refl, List}
use proyecto_1_back.Text.{Text}
use proyecto_1_back.Env.{Env}
use proyecto_1_back.Models.{Time, Db}
use proyecto_1_back.App.{World}
use proyecto_1_back.Repositories.Restaurants.{get_by_slug}
use proyecto_1_back.Services.Menu
use proyecto_1_back.Services.Menu.Build.{fresh_menu}
use proyecto_1_back.Services.Menu.Coherence.{
  IsCoherent, SameMenus-IsCoherent, forgotten-IsCoherent, looked_up-IsCoherent, stored-IsCoherent,
  get_menu_by_slug-eq-fresh,
}
use proyecto_1_back.Trace.{
  Step, account, restaurant_added, catalogue, looked_up, menu_kept, Reach-keeps,
}
use proyecto_1_back.Trace.Change.{
  AccountChange, user_added, token_added, tokens_revoked, scan_added,
}
use proyecto_1_back.Trace.Requests.{handle-Reach, run-Reach}
use proyecto_1_back.Api.{Request, handle, run}
use Listing.{restaurant_added-IsCoherent}

-- The menus do not read the tables of accounts and scans.
AccountChange-unread :
    (db db' : Db) → AccountChange db db' → (slug : Text) → fresh_menu slug db' ≡ fresh_menu slug db
unfolding fresh_menu get_by_slug
AccountChange-unread db db' (user_added u i) slug = rw i.stored refl
AccountChange-unread db db' (token_added t i) slug = rw i.stored refl
AccountChange-unread db db' (tokens_revoked test now e) slug = rw e refl
AccountChange-unread db db' (scan_added s i) slug = rw i.stored refl

-- Every step keeps every cached menu equal to the menu that its slug has in the database.
Step-IsCoherent : (w w' : World) → Step w w' → IsCoherent w → IsCoherent w'
Step-IsCoherent w w' (account db change e) c =
    rw e (SameMenus-IsCoherent w db (AccountChange-unread w.db db change) c)
Step-IsCoherent w w' (restaurant_added r db insert e) c =
    rw e (restaurant_added-IsCoherent w r db insert c)
Step-IsCoherent w w' (catalogue db change e) c = rw e (forgotten-IsCoherent w db)
Step-IsCoherent w w' (looked_up now slug e) c = rw e (looked_up-IsCoherent now slug w c)
Step-IsCoherent w w' (menu_kept now slug menu h e) c = rw e (stored-IsCoherent now slug menu w h c)

-- Every request keeps every cached menu equal to the menu that its slug has in the database.
pub handle-IsCoherent :
    (env : Env) (r : Request) (w : World) → IsCoherent w → IsCoherent (handle env r w)
handle-IsCoherent env r w = Reach-keeps IsCoherent Step-IsCoherent (handle-Reach env r w)

-- After any sequence of requests from a coherent state, such as one with an empty cache, a request
-- for a menu returns what a build from the database returns.
pub menu_after_requests :
    (env : Env) (requests : List Request) (w : World) (read_at stored_at : Time) (slug : Text)
    → IsCoherent w
    → (Menu.get_menu_by_slug read_at stored_at slug (run env requests w)).0
      ≡ fresh_menu slug (run env requests w).db
menu_after_requests env requests w read_at stored_at slug c =
    get_menu_by_slug-eq-fresh read_at stored_at slug (run env requests w)
      (Reach-keeps IsCoherent Step-IsCoherent (run-Reach env requests w) c)
