-- ===== src/Http.antt =====
-- What a handler can raise: `HTTPException(status_code, detail)` and the exceptions of the libraries
-- that reach the handlers of api/app/core/middleware/errors.py.
use Prim.Native.String.{String}
use proyecto_1_back.Prelude.{ℕ, ◌≡◌, refl, ◌⊎◌, inl, inr, Option, none, some, List}

pub data Detail : Type 0 where
  message : String → Detail
  category_outside : ℕ → Detail
  no_menu : List ℕ → Detail
  -- of an upload: the limit in MB, and the allowed types in the order that the set has
  too_large : ℕ → Detail
  invalid_type : List (List ℕ) → Detail

pub data Exc : Type 0 where
  http : ℕ → Detail → Exc
  integrity_error multiple_results jwt_error attribute_error key_error value_error : Exc
  -- `ValueError(detail)`, `RuntimeError` of the storage, and an exception of a library
  value_error_of : Detail → Exc
  runtime_error library_error : Exc
  -- no exception of the program: a `while True` loop did not end within the fuel of its model
  out_of_fuel : Exc

pub data Result {ℓ} (A : Type ℓ) : Type ℓ where
  ok : A → Result A
  err : Exc → Result A

infixl 5 ◌>>=◌ ◌>>◌
abbrev pub ◌>>=◌ {ℓ κ} : {A : Type ℓ} {B : Type κ} → Result A → (A → Result B) → Result B
ok a >>= f = f a
err e >>= f = err e

abbrev pub ◌>>◌ {ℓ κ} : {A : Type ℓ} {B : Type κ} → Result A → Result B → Result B
m >> k = m >>= λ _. k

-- `if not x: raise e`
abbrev pub require {ℓ} : {A : Type ℓ} → Option A → Exc → Result A
require none e = err e
require (some a) e = ok a

abbrev pub bad_request : String → Exc
bad_request detail = http 400 (message detail)

abbrev pub unauthorized : String → Exc
unauthorized detail = http 401 (message detail)

abbrev pub forbidden : String → Exc
forbidden detail = http 403 (message detail)

abbrev pub not_found : String → Exc
not_found detail = http 404 (message detail)

abbrev pub conflict : String → Exc
conflict detail = http 409 (message detail)

pub Result-cases {ℓ} :
    {A : Type ℓ} (r : Result A) → ((e : Exc) × (r ≡ err e)) ⊎ ((a : A) × (r ≡ ok a))
Result-cases (err e) = inl (e, refl)
Result-cases (ok a) = inr (a, refl)
