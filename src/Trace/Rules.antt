-- ===== src/Trace/Rules.antt =====
-- Rules for the steps of a method of api/app/services/.
use proyecto_1_back.Prelude.{◌≡◌, refl, Bool, inl, inr}
use proyecto_1_back.Http.{Exc, Result, ok, err, Result-cases}
use proyecto_1_back.Env.{Env}
use proyecto_1_back.Models.{Uuid, Db}
use proyecto_1_back.App.{World, Exec, query, lift, raise_if, commit, continue, ◌>>=◌}
use proyecto_1_back.App.Steps.{Reading}
use proyecto_1_back.Security.{get_current_user_id}
use proyecto_1_back.Services.Settled.{Settled}
use proyecto_1_back.Api.{Bearer, as_user}
use proyecto_1_back.Trace.{Step, Reach, here, next, Reach-trans}
use proyecto_1_back.Trace.Change.{AccountChange, CatalogueChange}
use proyecto_1_back.Trace.Made.{Makes}

-- The state that a method leaves is reached by steps, whether it returns or raises.
abbrev pub Reaches : {A : Type 0} → Exec A → Type 0
Reaches m = (w : World) → Reach w (m w).1

module _ {A B : Type 0} where
  pub Reaches-bind :
      (m : Exec A) (f : A → Exec B) → Reaches m → ((a : A) → Reaches (f a)) → Reaches (m >>= f)
  Reaches-bind m f km kf w = go (m w) (km w)
    where
      go : (x : Result A × World) → Reach w x.1 → Reach w (continue f x).1
      go (ok a, w') r = Reach-trans r (kf a w')
      go (err e, w') r = r

  -- a query, and a method that follows it
  pub after-query :
      (q : Db → Result A) (f : A → Exec B) → ((a : A) → Reaches (f a)) → Reaches (query q >>= f)
  after-query q f = Reaches-bind (query q) f (λ w. here)

  pub after-lift :
      (r : Result A) (f : A → Exec B) → ((a : A) → Reaches (f a)) → Reaches (lift r >>= f)
  after-lift r f = Reaches-bind (lift r) f (λ w. here)

module _ {B : Type 0} where
  pub after-raise_if :
      (b : Bool) (e : Exc) (f : Unit {0} → Exec B)
      → ((a : Unit {0}) → Reaches (f a))
      → Reaches (raise_if b e >>= f)
  after-raise_if b e f = Reaches-bind (raise_if b e) f (λ w. here)

module _ {A : Type 0} {R : World → A → Type 0} where
  pub Reaches-of_Reading : (m : Exec A) → ((w : World) → Reading m w (R w)) → Reaches m
  Reaches-of_Reading m r w = go (r w)
    where
      go : Reading m w (R w) → Reach w (m w).1
      go (inl (e, h)) = rw h here
      go (inr (a, h, _)) = rw h here

module _ {A : Type 0} where
  pub Reaches-account : (t : Db → Result (A × Db)) → Makes AccountChange t → Reaches (commit t)
  Reaches-account t made w = elim (Result-cases (t w.db)) [
    | inl (e, h) ↦ rw h here
    | inr ((a, db), h) ↦ rw h (next here (Step.account db (made w.db a db h) refl))
  ]

  pub Reaches-as_user :
      (env : Env) (b : Bearer) (f : Uuid → Exec A)
      → ((u : Uuid) → Reaches (f u))
      → Reaches (as_user env b f)
  unfolding as_user
  Reaches-as_user env b f kf = after-lift (get_current_user_id env b.at b.token) f kf

  pub Settled-Reach :
      {Granted : Type 0} (w : World) (t : Granted → Db → Result (A × Db)) (x : Result A × World)
      → ((g : Granted) (a : A) (db : Db) → t g w.db ≡ ok (a, db) → CatalogueChange w.db db)
      → Settled w Granted t x
      → Reach w x.1
  Settled-Reach w t x made (inl (e, h)) = rw h here
  Settled-Reach w t x made (inr (g, a, db, c, h)) =
      rw h (next here (Step.catalogue db (made g a db c) refl))
