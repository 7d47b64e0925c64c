-- ===== src/App/Steps.antt =====
-- Reasoning about a method step by step: what a step that only reads has shown when it returns, and
-- a rule that goes through such a step.
use proyecto_1_back.Prelude.{◌≡◌, refl, Bool, true, false, Option, none, some, ◌⊎◌, inl, inr}
use proyecto_1_back.Http.{Exc, Result, ok, err}
use proyecto_1_back.Models.{Db}
use proyecto_1_back.App.{World, Exec, pure, query, or_raise, lift, raise_if, ◌>>=◌}

-- `m` raises, or returns an `a` with `R a`; it leaves the state alone either way.
abbrev pub Reading : {A : Type 0} → Exec A → World → (A → Type 0) → Type 0
Reading {A} m w R = ((e : Exc) × (m w ≡ (err e, w))) ⊎ ((a : A) × (m w ≡ (ok a, w)) × R a)

-- the rule: the rest of the method runs in the state before the step, on a value with `R`
pub through :
    {A B : Type 0} {R : A → Type 0}
    → (m : Exec A) (f : A → Exec B) (w : World) (P : Result B × World → Type 0) → Reading m w R
    → ((e : Exc) → P (err e, w))
    → ((a : A) → R a → P (f a w))
    → P ((m >>= f) w)
through m f w P (inl (e, h)) refused rest = rw h (refused e)
through m f w P (inr (a, h, r)) refused rest = rw h (rest a r)

module _ {A : Type 0} where
  pub query-Reading : (q : Db → Result A) (w : World) → Reading (query q) w (λ a. q w.db ≡ ok a)
  query-Reading q w = go (q w.db)
    where
      go :
          (r : Result A)
          → ((e : Exc) × (◌≡◌ {A = Result A × World} (r, w) (err e, w)))
            ⊎ ((a : A) × (◌≡◌ {A = Result A × World} (r, w) (ok a, w)) × (r ≡ ok a))
      go (ok a) = inr (a, refl, refl)
      go (err e) = inl (e, refl)

  pub or_raise-Reading :
      (o : Option A) (e : Exc) (w : World) → Reading (or_raise o e) w (λ a. o ≡ some a)
  or_raise-Reading none e w = inl (e, refl)
  or_raise-Reading (some a) e w = inr (a, refl, refl)

  pub lift-Reading : (r : Result A) (w : World) → Reading (lift r) w (λ a. r ≡ ok a)
  lift-Reading (ok a) w = inr (a, refl, refl)
  lift-Reading (err e) w = inl (e, refl)

  pub pure-Reading : (a : A) (w : World) → Reading (pure a) w (λ b. a ≡ b)
  pure-Reading a w = inr (a, refl, refl)

pub raise_if-Reading :
    (test : Bool) (e : Exc) (w : World) → Reading (raise_if test e) w (λ _. test ≡ false)
raise_if-Reading true e w = inl (e, refl)
raise_if-Reading false e w = inr (tt, refl, refl)

module _ {A B : Type 0} where
  pub bind-Reading :
      {R : A → Type 0} {S : B → Type 0} (m : Exec A) (f : A → Exec B) (w : World)
      → Reading m w R
      → ((a : A) → R a → Reading (f a) w S)
      → Reading (m >>= f) w S
  bind-Reading {S} m f w r rest =
      through m f w (λ x. ((e : Exc) × (x ≡ (err e, w))) ⊎ ((b : B) × (x ≡ (ok b, w)) × S b)) r
        (λ e. inl (e, refl)) rest

module _ {A B : Type 0} {S : B → Type 0} where
  pub after_query :
      (q : Db → Result A) (f : A → Exec B) (w : World)
      → ((a : A) → q w.db ≡ ok a → Reading (f a) w S)
      → Reading (query q >>= f) w S
  after_query q f w rest = bind-Reading (query q) f w (query-Reading q w) rest

  pub after_or_raise :
      (o : Option A) (e : Exc) (f : A → Exec B) (w : World)
      → ((a : A) → o ≡ some a → Reading (f a) w S)
      → Reading (or_raise o e >>= f) w S
  after_or_raise o e f w rest = bind-Reading (or_raise o e) f w (or_raise-Reading o e w) rest

-- a weaker description of what was read
pub weaken-Reading :
    {A : Type 0} {R : A → Type 0} (S : A → Type 0) (m : Exec A) (w : World)
    → Reading m w R
    → ((a : A) → R a → S a)
    → Reading m w S
weaken-Reading S m w (inl refused) f = inl refused
weaken-Reading S m w (inr (a, h, r)) f = inr (a, h, f a r)
