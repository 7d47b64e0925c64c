-- ===== src/Cacheless/Methods.antt =====
-- The methods of api/app/services/ that do not look into the cache.
use proyecto_1_back.Prelude.{ℕ, Bool, Option, none, List, [], ◌∷◌, refl}
use proyecto_1_back.Http.{Exc, Result, ok, not_found, conflict, http, require, category_outside}
use proyecto_1_back.Models.{Uuid, Time, Defaults, Db}
use proyecto_1_back.Schemas.{CategoryCreate, CategoryUpdate}
use proyecto_1_back.App.{Exec, pure, query, lift, raise_if, commit, ◌>>=◌, ◌>>◌}
use proyecto_1_back.Repositories.Restaurants as Shops
use proyecto_1_back.Repositories.Categories as Sections
use proyecto_1_back.Services.Restaurants
use proyecto_1_back.Services.Restaurants.{forget_menus}
use proyecto_1_back.Services.Categories
use proyecto_1_back.Cacheless.Blind.{Blind, lift-Blind, query-Blind, commit-Blind, bind-Blind}

module _ {A B : Type 0} where
  pub after-query :
      (q : Db → Result A) (f : A → Exec B) → ((a : A) → Blind (f a)) → Blind (query q >>= f)
  after-query q f = bind-Blind (query q) f (query-Blind q)

  pub after-lift : (r : Result A) (f : A → Exec B) → ((a : A) → Blind (f a)) → Blind (lift r >>= f)
  after-lift r f = bind-Blind (lift r) f (lift-Blind r)

-- `if test: raise e`, and what follows
pub after-raise_if :
    {A : Type 0} (test : Bool) (e : Exc) (m : Exec A) → Blind m → Blind (raise_if test e >> m)
after-raise_if test e m blind =
    bind-Blind (raise_if test e) (λ _. m) (λ w w' h. (refl, h)) (λ _. blind)

module _ {A : Type 0} where
  -- a commit, after which the menus are dropped
  pub changing-Blind : (t : Db → Result (A × Db)) → Blind (commit t >>= λ a. forget_menus >> pure a)
  changing-Blind t =
      bind-Blind (commit t) (λ a. forget_menus >> pure a) (commit-Blind t) (λ a w w' h. (refl, h))

pub removing-Blind : (t : Db → Result (Unit {0} × Db)) → Blind (commit t >> forget_menus)
removing-Blind t =
    bind-Blind (commit t) (λ _. forget_menus) (commit-Blind t) (λ a w w' h. (refl, h))

pub get_by_owner-Blind : (u : Uuid) → Blind (Restaurants.get_by_owner u)
unfolding Restaurants.get_by_owner
get_by_owner-Blind u = after-query (Shops.get_by_owner_id u) _ λ o w w' h. (refl, h)

verify_restaurant_ownership-Blind :
    (id u : Uuid) → Blind (Categories.verify_restaurant_ownership id u)
unfolding Categories.verify_restaurant_ownership
verify_restaurant_ownership-Blind id u =
    after-query (Shops.get_by_id id) _
      λ o. after-lift (require o (not_found "Restaurant not found")) _ λ r w w' h. (refl, h)

owned_category-Blind : (id u : Uuid) → Blind (Categories.owned_category id u)
unfolding Categories.owned_category
owned_category-Blind id u = after-query (Sections.get_by_id id) _ λ o.
    after-lift (require o (not_found "Category not found")) _ λ c.
      bind-Blind (Categories.verify_restaurant_ownership c.restaurant_id u) _
        (verify_restaurant_ownership-Blind c.restaurant_id u) λ d w w' h. (refl, h)

pub update_category-Blind :
    (stamp : Option Time) (id u : Uuid) (body : CategoryUpdate)
    → Blind (Categories.update stamp id u body)
unfolding Categories.update
update_category-Blind stamp id u body =
    bind-Blind (Categories.owned_category id u) _ (owned_category-Blind id u)
      λ c. changing-Blind (Sections.update stamp c body)

pub delete_category-Blind : (id u : Uuid) → Blind (Categories.delete id u)
unfolding Categories.delete
delete_category-Blind id u =
    bind-Blind (Categories.owned_category id u) _ (owned_category-Blind id u) λ c.
      after-query (λ db. ok (Sections.has_active_dishes id db))
        (λ active.
          raise_if active (conflict "Cannot delete category with active dishes")
          >> (commit (Sections.delete c) >> forget_menus))
        λ active.
          after-raise_if active (conflict "Cannot delete category with active dishes")
            (commit (Sections.delete c) >> forget_menus) (removing-Blind (Sections.delete c))

pub create_category-Blind :
    (d : Defaults) (u : Uuid) (body : CategoryCreate) → Blind (Categories.create d u body)
unfolding Categories.create
create_category-Blind d u body =
    bind-Blind (Restaurants.get_by_owner u) _ (get_by_owner-Blind u)
      λ r. changing-Blind (Sections.create d r.id body.name body.description none body.active)

pub list_categories-Blind :
    (u : Uuid) (active_only : Bool) → Blind (Categories.list_categories u active_only)
unfolding Categories.list_categories
list_categories-Blind u active_only =
    bind-Blind (Restaurants.get_by_owner u) _ (get_by_owner-Blind u)
      λ r. query-Blind (λ db. ok (Sections.list_by_restaurant r.id active_only db))

verify_all-Blind : (id : Uuid) (ids : List Uuid) → Blind (Categories.verify_all id ids)
unfolding Categories.verify_all
verify_all-Blind id [] = lift-Blind (ok tt)
verify_all-Blind id (c ∷ ids) = after-query (Sections.get_by_id c) _ λ o.
    bind-Blind (raise_if (Categories.is_foreign id o) (http 400 (category_outside c))) _
      (λ w w' h. (refl, h)) λ d. verify_all-Blind id ids

pub reorder-Blind :
    (clock : ℕ → Time) (u : Uuid) (ids : List Uuid) → Blind (Categories.reorder clock u ids)
unfolding Categories.reorder
reorder-Blind clock u ids = bind-Blind (Restaurants.get_by_owner u) _ (get_by_owner-Blind u) λ r.
    bind-Blind (Categories.verify_all r.id ids) _ (verify_all-Blind r.id ids)
      λ d. removing-Blind (Sections.reorder_categories clock r.id ids)
