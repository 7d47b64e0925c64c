-- ===== src/Security.antt =====
-- api/app/core/security/jwt.py and `get_current_user_id` of api/app/api/deps.py.
-- The clock and the fresh `jti` of a token are arguments.
pub mod Kinds
use proyecto_1_back.Prelude.{ℕ, ◌+◌, ◌*◌, Bool, Option, none, some, if◌then◌else◌}
use proyecto_1_back.Http.{
  Exc, http, jwt_error, key_error, Result, ok, err, unauthorized, require, ◌>>=◌,
}
use proyecto_1_back.Text.{Text, codes, text_eq}
use proyecto_1_back.Env.{Env, Payload}
use proyecto_1_back.Models.{Uuid, Time}
use proyecto_1_back.Cache.{second}
use proyecto_1_back.Repositories.RefreshTokens.{day}

abbrev pub access : Text
access = codes "access"

abbrev pub refresh : Text
refresh = codes "refresh"

module _ (env : Env) where
  -- the claims of a token of this kind
  unfoldable pub claims : Text → Time → Time → Text → Uuid → Text → Payload
  claims kind now exp jti user_id email = record {
    sub = some (env.uuid_text user_id);
    email = some email;
    kind = some kind;
    iat = some now;
    nbf = some now;
    exp = some exp;
    jti = some jti;
  }

  unfoldable pub create_access_token : Time → Text → Uuid → Text → Text
  unfolding claims
  create_access_token now jti user_id email =
      env.jwt_encode
        (claims access now (now + env.jwt_access_ttl_min * (60 * second)) jti user_id email)

  unfoldable pub create_refresh_token : Time → Text → Uuid → Text → Text
  unfolding claims
  create_refresh_token now jti user_id email =
      env.jwt_encode (claims refresh now (now + env.jwt_refresh_ttl_days * day) jti user_id email)

  abbrev pub decode_token : Time → Text → Result Payload
  decode_token now token = env.jwt_decode now token

  -- `payload.get("type") != kind`
  unfoldable pub check_kind : Text → Payload → Result Payload
  check_kind kind payload = elim payload.kind [
    | none ↦ err jwt_error
    | some k ↦ if text_eq k kind then ok payload else err jwt_error
  ]

  unfoldable pub verify_access_token : Time → Text → Result Payload
  unfolding check_kind
  verify_access_token now token = do payload ← decode_token now token; check_kind access payload

  unfoldable pub verify_refresh_token : Time → Text → Result Payload
  unfolding check_kind
  verify_refresh_token now token = do payload ← decode_token now token; check_kind refresh payload

  -- `uuid.UUID(payload["sub"])`
  unfoldable pub subject : Payload → Result Uuid
  subject payload = do sub ← require payload.sub key_error; env.uuid_parse sub

  -- the two `except` clauses: JWTError, and everything else
  abbrev pub as_unauthorized : Exc → Exc
  as_unauthorized jwt_error = unauthorized "token_expired"
  as_unauthorized _ = unauthorized "Invalid authentication credentials"

  abbrev pub catch : Result Uuid → Result Uuid
  catch (ok user_id) = ok user_id
  catch (err e) = err (as_unauthorized e)

  unfoldable pub get_current_user_id : Time → Text → Result Uuid
  unfolding verify_access_token subject
  get_current_user_id now token =
      catch (do payload ← verify_access_token now token; subject payload)
