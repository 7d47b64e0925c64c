-- ===== src/Cacheless/Refines.antt =====
-- The service with its cache, as the requests of api/app/api/routers/ see it, against the one without.
use proyecto_1_back.Prelude.{false, ◌≡◌, refl, ap, ◌∙◌, Option, none, some, List, [], ◌∷◌, inl, inr}
use proyecto_1_back.Http.{Result, Result-cases, ok, err}
use proyecto_1_back.Text.{Text}
use proyecto_1_back.Env.{Env}
use proyecto_1_back.Models.{Uuid, Time, Db}
use proyecto_1_back.Schemas.{MenuResponse}
use proyecto_1_back.Cache.{cache_get}
use proyecto_1_back.App.{World, Exec, pure, lift, commit, committed, continue, ◌>>◌}
use proyecto_1_back.Security.{get_current_user_id}
use proyecto_1_back.Services.Auth
use proyecto_1_back.Services.Menu
use proyecto_1_back.Services.Menu.{Scan, event_of, add_scan, best_effort, cache_key}
use proyecto_1_back.Services.Menu.Build.{fresh_menu}
use proyecto_1_back.Services.Menu.Coherence.{IsCoherent, get_menu_by_slug-eq-fresh}
use proyecto_1_back.Api.{
  Bearer, Request, register, login, refresh, logout, get_restaurant, create_restaurant,
  update_restaurant, delete_restaurant, list_categories, create_category, update_category,
  delete_category, reorder_categories, list_dishes, get_dish, create_dish, update_dish, delete_dish,
  toggle_dish_availability, get_menu, as_user, handle, run,
}
use proyecto_1_back.Api.Coherence.{handle-IsCoherent}
use proyecto_1_back.Cacheless.{changed, scanned, serve, serve_all}
use proyecto_1_back.Cacheless.Blind.{Blind, lift-Blind, bind-Blind}
use proyecto_1_back.Cacheless.Methods.{
  get_by_owner-Blind, list_categories-Blind, create_category-Blind, update_category-Blind,
  delete_category-Blind, reorder-Blind,
}
use proyecto_1_back.Cacheless.Catalogue.{
  create_restaurant-Blind, update_restaurant-Blind, delete_restaurant-Blind, list_dishes-Blind,
  get_dish-Blind, create_dish-Blind, update_dish-Blind, delete_dish-Blind,
  toggle_availability-Blind,
}
use proyecto_1_back.Cacheless.Accounts.{register-Blind, login-Blind, refresh-Blind, logout-Blind}

menu_or_build-db :
    (now : Time) (slug : Text) (o : Option MenuResponse) (w : World)
    → (Menu.menu_or_build now slug o w).1.db ≡ w.db
unfolding Menu.menu_or_build
menu_or_build-db now slug (some menu) w = refl
menu_or_build-db now slug none w = elim (Result-cases (fresh_menu slug w.db)) [
  | inl (e, h) ↦ rw h refl
  | inr (menu, h) ↦ rw h refl
]

get_menu_by_slug-db :
    (read_at stored_at : Time) (slug : Text) (w : World)
    → (Menu.get_menu_by_slug read_at stored_at slug w).1.db ≡ w.db
unfolding Menu.get_menu_by_slug
get_menu_by_slug-db read_at stored_at slug w =
    menu_or_build-db stored_at slug (cache_get read_at (cache_key slug) w.cache).0
      (record w { cache = (cache_get read_at (cache_key slug) w.cache).1 })

committed-changed : (w : World) (r : Result (Unit {0} × Db)) → (committed w r).1.db ≡ changed w.db r
committed-changed w (ok (done, db)) = refl
committed-changed w (err e) = refl

-- the scan after a menu
abbrev scan_menu : Scan → MenuResponse → Exec MenuResponse
scan_menu scan menu =
    best_effort (commit (add_scan (event_of scan menu.restaurant_id))) >> pure menu

scan_menu-scanned :
    (scan : Scan) (p : Result MenuResponse × World)
    → (continue (scan_menu scan) p).1.db ≡ scanned scan p.0 p.1.db
scan_menu-scanned scan (ok menu, w) =
    committed-changed w (add_scan (event_of scan menu.restaurant_id) w.db)
scan_menu-scanned scan (err e, w) = refl

get_menu-scanned :
    (read_at stored_at : Time) (scan : Scan) (slug : Text) (w : World)
    → IsCoherent w
    → (Menu.get_menu read_at stored_at scan slug w).1.db ≡ scanned scan (fresh_menu slug w.db) w.db
unfolding Menu.get_menu
get_menu-scanned read_at stored_at scan slug w c =
    scan_menu-scanned scan (Menu.get_menu_by_slug read_at stored_at slug w)
    ∙ rw
        (
          get_menu_by_slug-eq-fresh read_at stored_at slug w c,
          get_menu_by_slug-db read_at stored_at slug w,
        )
        refl

module _ (env : Env) where
  as_user-Blind :
      {A : Type 0} (b : Bearer) (f : Uuid → Exec A)
      → ((u : Uuid) → Blind (f u))
      → Blind (as_user env b f)
  unfolding as_user
  as_user-Blind b f = bind-Blind (lift (get_current_user_id env b.at b.token)) f (lift-Blind _)

  -- without the cache
  abbrev bare : World → World
  bare w = record { db = w.db; cache = [] }

  same_db : {A : Type 0} (m : Exec A) (w : World) → Blind m → (m w).1.db ≡ (m (bare w)).1.db
  same_db m w blind = (blind w (bare w) refl).1

  same_user_db :
      {A : Type 0} (b : Bearer) (f : Uuid → Exec A) (w : World)
      → ((u : Uuid) → Blind (f u))
      → (as_user env b f w).1.db ≡ (as_user env b f (bare w)).1.db
  same_user_db b f w blind = same_db (as_user env b f) w (as_user-Blind b f blind)

  -- A request to a service whose cached menus are current leaves the database that the service without a
  -- cache leaves.
  handle-serve : (r : Request) (w : World) → IsCoherent w → (handle env r w).db ≡ serve env r w.db
  unfolding handle serve
  handle-serve (register salt d i email password) w c =
      same_db (Auth.register env salt d i email password) w
        (register-Blind env salt d i email password)
  handle-serve (login i email password) w c =
      same_db (Auth.login env i email password) w (login-Blind env i email password)
  handle-serve (refresh r token) w c =
      same_db (Auth.refresh env r token) w (refresh-Blind env r token)
  handle-serve (logout b now) w c = same_user_db b _ w (logout-Blind now)
  handle-serve (get_restaurant b) w c = same_user_db b _ w get_by_owner-Blind
  handle-serve (create_restaurant b d body) w c =
      same_user_db b _ w (λ u. create_restaurant-Blind env d u body)
  handle-serve (update_restaurant b stamp body) w c =
      same_user_db b _ w (λ u. update_restaurant-Blind env stamp u body)
  handle-serve (delete_restaurant b) w c = same_user_db b _ w delete_restaurant-Blind
  handle-serve (list_categories b) w c = same_user_db b _ w (λ u. list_categories-Blind u false)
  handle-serve (create_category b d body) w c =
      same_user_db b _ w (λ u. create_category-Blind d u body)
  handle-serve (update_category b stamp id body) w c =
      same_user_db b _ w (λ u. update_category-Blind stamp id u body)
  handle-serve (delete_category b id) w c = same_user_db b _ w (delete_category-Blind id)
  handle-serve (reorder_categories b clock ids) w c =
      same_user_db b _ w (λ u. reorder-Blind clock u ids)
  handle-serve (list_dishes b f limit offset) w c =
      same_user_db b _ w (λ u. list_dishes-Blind env u f limit offset)
  handle-serve (get_dish b id) w c = same_user_db b _ w (get_dish-Blind id)
  handle-serve (create_dish b d body) w c = same_user_db b _ w (λ u. create_dish-Blind d u body)
  handle-serve (update_dish b stamp id body) w c =
      same_user_db b _ w (λ u. update_dish-Blind stamp id u body)
  handle-serve (delete_dish b now stamp id) w c =
      same_user_db b _ w (delete_dish-Blind now stamp id)
  handle-serve (toggle_dish_availability b stamp id) w c =
      same_user_db b _ w (toggle_availability-Blind stamp id)
  handle-serve (get_menu read_at stored_at scan slug) w c =
      get_menu-scanned read_at stored_at scan slug w c

-- After any sequence of requests to a service whose cached menus are current, such as one with an empty
-- cache, the database is the one that the service without a cache has after these requests.
pub run-serve_all :
    (env : Env) (requests : List Request) (w : World)
    → IsCoherent w
    → (run env requests w).db ≡ serve_all env requests w.db
unfolding run serve_all
run-serve_all env [] w c = refl
run-serve_all env (r ∷ requests) w c =
    run-serve_all env requests (handle env r w) (handle-IsCoherent env r w c)
    ∙ ap (serve_all env requests) (handle-serve env r w c)
