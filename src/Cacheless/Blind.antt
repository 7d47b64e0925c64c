-- ===== src/Cacheless/Blind.antt =====
-- Steps of the handlers whose result and database do not depend on the cache.
use proyecto_1_back.Prelude.{◌≡◌, refl, ap}
use proyecto_1_back.Http.{Result, ok, err}
use proyecto_1_back.Models.{Db}
use proyecto_1_back.App.{World, Exec, query, lift, commit, committed, continue, ◌>>=◌}

-- two outcomes with the same result and the same database
abbrev pub Agree : {A : Type 0} → Result A × World → Result A × World → Type 0
Agree p q = (p.0 ≡ q.0) × (p.1.db ≡ q.1.db)

abbrev pub Blind : {A : Type 0} → Exec A → Type 0
Blind m = (w w' : World) → w.db ≡ w'.db → Agree (m w) (m w')

module _ {A : Type 0} where
  pub lift-Blind : (r : Result A) → Blind (lift r)
  lift-Blind r w w' h = (refl, h)

  pub query-Blind : (q : Db → Result A) → Blind (query q)
  query-Blind q w w' h = (ap q h, h)

  committed-Agree :
      (w w' : World) (r r' : Result (A × Db))
      → w.db ≡ w'.db
      → r ≡ r'
      → Agree (committed w r) (committed w' r')
  committed-Agree w w' r (ok (a, db)) h e = rw e (refl, refl)
  committed-Agree w w' r (err x) h e = rw e (refl, h)

  pub commit-Blind : (t : Db → Result (A × Db)) → Blind (commit t)
  commit-Blind t w w' h = committed-Agree w w' (t w.db) (t w'.db) h (ap t h)

module _ {A B : Type 0} where
  continue-Agree :
      (f : A → Exec B) (p q : Result A × World)
      → ((a : A) → Blind (f a))
      → Agree p q
      → Agree (continue f p) (continue f q)
  continue-Agree f (ok a, w) (ok b, w') blind (e, h) =
      let same : a ≡ b = cc e in rw same (blind b w w' h)
  continue-Agree f (err e, w) (err d, w') blind (k, h) =
      let same : e ≡ d = cc k in rw same (refl, h)
  continue-Agree f (ok a, w) (err d, w') blind (e, h) = absurd (cc e)
  continue-Agree f (err d, w) (ok a, w') blind (e, h) = absurd (cc e)

  pub bind-Blind :
      (m : Exec A) (f : A → Exec B) → Blind m → ((a : A) → Blind (f a)) → Blind (m >>= f)
  bind-Blind m f blind rest w w' h = continue-Agree f (m w) (m w') rest (blind w w' h)
