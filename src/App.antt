-- ===== src/App.antt =====
-- The state of the running service and the handlers' effects: the database behind the session, the
-- module-level cache, and exceptions. What was committed before a raise stays committed.
pub mod Steps
use proyecto_1_back.Prelude.{Bool, Option, if◌then◌else◌}
use proyecto_1_back.Http.{Exc, Result, ok, err, require}
use proyecto_1_back.Cache.{Cache}
use proyecto_1_back.Models.{Db}
use proyecto_1_back.Schemas.{MenuResponse}

pub record World : Type 0 where
  pub db : Db
  pub cache : Cache MenuResponse

abbrev pub Exec : Type 0 → Type 0
Exec A = World → Result A × World

module _ {A : Type 0} where
  abbrev pub pure : A → Exec A
  pure a w = (ok a, w)

  abbrev pub raise : Exc → Exec A
  raise e w = (err e, w)

  abbrev pub lift : Result A → Exec A
  lift r w = (r, w)

  -- a query
  abbrev pub query : (Db → Result A) → Exec A
  query q w = (q w.db, w)

  abbrev pub committed : World → Result (A × Db) → Result A × World
  committed w (ok (a, db)) = (ok a, record w { db = db })
  committed w (err e) = (err e, w)

  -- changes that end in a commit: all of them, or an exception and none
  abbrev pub commit : (Db → Result (A × Db)) → Exec A
  commit t w = committed w (t w.db)

  -- `if not x: raise e`
  abbrev pub or_raise : Option A → Exc → Exec A
  or_raise o e = lift (require o e)

abbrev pub on_cache : (Cache MenuResponse → Cache MenuResponse) → Exec (Unit {0})
on_cache f w = (ok tt, record w { cache = f w.cache })

-- `if test: raise e`
abbrev pub raise_if : Bool → Exc → Exec (Unit {0})
raise_if test e w = (if test then err e else ok tt, w)

module _ {A B : Type 0} where
  abbrev pub continue : (A → Exec B) → Result A × World → Result B × World
  continue f (ok a, w) = f a w
  continue f (err e, w) = (err e, w)

  infixl 5 ◌>>=◌ ◌>>◌
  abbrev pub ◌>>=◌ : Exec A → (A → Exec B) → Exec B
  ◌>>=◌ m f w = continue f (m w)

  abbrev pub ◌>>◌ : Exec A → Exec B → Exec B
  m >> k = m >>= λ _. k
