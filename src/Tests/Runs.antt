-- ===== src/Tests/Runs.antt =====
-- Sequences of requests to a small service.
use proyecto_1_back.Prelude.{arith, ◌≡◌, refl, none, List, [], ◌∷◌}
use proyecto_1_back.Text.{codes}
use proyecto_1_back.Api.{Request, run}
use proyecto_1_back.Api.Responses.{Times}
use proyecto_1_back.Api.Routes.{respond}
use proyecto_1_back.Api.Routes.Atomic.{error_changes_nothing}
use proyecto_1_back.Consistency.{IsConsistent}
use proyecto_1_back.Consistency.Runs.{run-IsConsistent}
use proyecto_1_back.Cache.{find}
use proyecto_1_back.Services.Menu.{Scan}
use proyecto_1_back.Services.Menu.Coherence.{IsCoherent}
use proyecto_1_back.Cacheless.{serve_all}
use proyecto_1_back.Cacheless.Refines.{run-serve_all}
use proyecto_1_back.Tests.Sample.{env, world, stored}

-- the owner deletes the restaurant, with its categories and their dishes
abbrev closing : List Request
closing =
    Request.toggle_dish_availability (record { at = 17; token = 1 ∷ 101 ∷ codes "access" }) 18 30
    ∷ Request.delete_restaurant (record { at = 19; token = 1 ∷ 101 ∷ codes "access" })
    ∷ []

stored-IsConsistent : IsConsistent stored
unfolding proyecto_1_back.Text.text_eq
stored-IsConsistent = record {
  users = record { ids = (refl, tt); emails = (refl, tt) };
  tokens = record { ids = (refl, tt); hashes = (refl, tt); owned = (refl, tt) };
  restaurants = record {
    ids = (refl, tt);
    owners = (refl, tt);
    slugs = (refl, tt);
    owned = (refl, tt);
  };
  categories = record { ids = (refl, (refl, tt)); inside = (refl, (refl, tt)) };
  dishes = record { ids = (refl, tt); inside = (refl, tt) };
  scans = record { ids = tt; inside = tt };
}

run-IsConsistent_example : IsConsistent (run env closing world).db
run-IsConsistent_example = run-IsConsistent env closing world stored-IsConsistent

-- nothing is cached
world-IsCoherent : IsCoherent world
unfolding find
world-IsCoherent = record { at_slug = λ slug e h. cc h }

abbrev scan : Scan
scan = record {
  id = 70;
  timestamp = 16;
  user_agent = codes "curl";
  ip_hash = codes "h";
  referrer = none;
}

-- two visitors, the second of whom gets the cached menu, and the end of the restaurant
abbrev visits : List Request
visits =
    Request.get_menu 16 16 scan (codes "bar")
    ∷ Request.get_menu 17 17 (record scan { id = 71 }) (codes "bar")
    ∷ closing

run-serve_all_example : (run env visits world).db ≡ serve_all env visits world.db
run-serve_all_example = run-serve_all env visits world world-IsCoherent

abbrev times : Times
times = record { isoformat = λ t. t ∷ []; datetime_of = λ s. 0 }

-- a delete with a token of user 2, who has no restaurant
abbrev intrusion : Request
intrusion = Request.delete_restaurant (record { at = 17; token = 2 ∷ 101 ∷ codes "access" })

error_changes_nothing_example : (respond times env (codes "r1") intrusion world).1 ≡ world
unfolding proyecto_1_back.Api.Routes.Atomic.commits_once respond
    proyecto_1_back.Security.get_current_user_id proyecto_1_back.Text.text_eq
    proyecto_1_back.Services.Restaurants.delete
    proyecto_1_back.Repositories.Restaurants.get_by_owner_id proyecto_1_back.Middleware.handled
error_changes_nothing_example =
    error_changes_nothing times env (codes "r1") intrusion world refl (omega arith)
