-- ===== src/Env.antt =====
-- What the program calls and does not implement, as a parameter: the Unicode table of `str.lower`,
-- hashlib, passlib, python-jose, uuid and PostgreSQL's ILIKE; and the settings that the core reads.
use proyecto_1_back.Prelude.{ℕ, Bool, Option}
use proyecto_1_back.Http.{Result}
use proyecto_1_back.Text.{Text}
use proyecto_1_back.Models.{Uuid, Time}

-- The claims of a token; a claim may be missing.
pub record Payload : Type 0 where
  pub sub : Option Text
  pub email : Option Text
  pub kind : Option Text
  pub iat : Option Time
  pub nbf : Option Time
  pub exp : Option Time
  pub jti : Option Text

pub record Env : Type 0 where
  -- `str.lower` of a code point above ASCII
  pub wide : ℕ → Text
  -- `hashlib.sha256(token.encode()).hexdigest()`
  pub sha256 : Text → Text
  -- `pwd_context.hash(password)`, with its random salt first, and `pwd_context.verify`
  pub bcrypt_hash : Text → Text → Text
  pub bcrypt_verify : Text → Text → Bool
  -- `jwt.encode` and `jwt.decode` under the configured secret and algorithm; the clock first
  pub jwt_encode : Payload → Text
  pub jwt_decode : Time → Text → Result Payload
  -- `str(uuid)` and `uuid.UUID(text)`
  pub uuid_text : Uuid → Text
  pub uuid_parse : Text → Result Uuid
  -- `text ILIKE pattern`
  pub ilike : Text → Text → Bool
  -- settings of api/app/core/config.py
  pub jwt_access_ttl_min : ℕ
  pub jwt_refresh_ttl_days : ℕ
