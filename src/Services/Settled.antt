-- ===== src/Services/Settled.antt =====
-- The two ends of a method of api/app/services/ that changes the menus: refused, or committed with the
-- cached menus forgotten.
use proyecto_1_back.Prelude.{◌≡◌, refl, ◌⊎◌, inl, inr}
use proyecto_1_back.Http.{Exc, Result, ok, err, Result-cases}
use proyecto_1_back.Text.{codes}
use proyecto_1_back.Models.{Db}
use proyecto_1_back.Cache.{cache_invalidate_prefix}
use proyecto_1_back.App.{World, Exec, pure, commit, ◌>>=◌, ◌>>◌}
use proyecto_1_back.App.Steps.{Reading, through}
use proyecto_1_back.Services.Restaurants.{forget_menus}

-- the state after the commit and `cache_invalidate_prefix("menu:")`
abbrev pub forgotten : World → Db → World
forgotten w db = record { db = db; cache = cache_invalidate_prefix (codes "menu:") w.cache }

-- `Granted` is what the method has checked, and `t` the change that it commits.
abbrev pub Settled :
    {A : Type 0}
    → World
    → (Granted : Type 0) → (Granted → Db → Result (A × Db))
    → Result A × World
    → Type 0
Settled {A} w Granted t x =
    ((e : Exc) × (x ≡ (err e, w)))
    ⊎ ((g : Granted) × (a : A) × (db : Db) × (t g w.db ≡ ok (a, db)) × (x ≡ (ok a, forgotten w db)))

module _ {A : Type 0} {Granted : Type 0} (t : Granted → Db → Result (A × Db)) (g : Granted) where
  pub commit_forget :
      (w : World) → Settled w Granted t ((commit (t g) >>= λ a. forget_menus >> pure a) w)
  commit_forget w = elim (Result-cases (t g w.db)) [
    | inl (e, h) ↦ rw h (inl (e, refl))
    | inr ((a, db), h) ↦ inr (g, a, db, h, rw h)
  ]

module _ {Granted : Type 0} (t : Granted → Db → Result (Unit {0} × Db)) (g : Granted) where
  pub commit_then_forget : (w : World) → Settled w Granted t ((commit (t g) >> forget_menus) w)
  commit_then_forget w = elim (Result-cases (t g w.db)) [
    | inl (e, h) ↦ rw h (inl (e, refl))
    | inr ((a, db), h) ↦ inr (g, a, db, h, rw h)
  ]

module _ {A B Granted : Type 0} {R : A → Type 0} (t : Granted → Db → Result (B × Db)) where
  -- a step that only reads, before the rest
  pub Settled-through :
      (m : Exec A) (f : A → Exec B) (w : World)
      → Reading m w R
      → ((a : A) → R a → Settled w Granted t (f a w))
      → Settled w Granted t ((m >>= f) w)
  Settled-through m f w r rest = through m f w (Settled w Granted t) r (λ e. inl (e, refl)) rest
