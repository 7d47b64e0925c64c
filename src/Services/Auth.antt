-- ===== src/Services/Auth.antt =====
-- api/app/services/auth_service.py
pub mod Rotation
pub mod Sessions
use proyecto_1_back.Prelude.{Bool, true, false, not, ◌||◌, Option, none, some, if◌then◌else◌}
use proyecto_1_back.Http.{Exc, http, key_error, Result, ok, err, conflict, unauthorized}
use proyecto_1_back.Text.{Text}
use proyecto_1_back.Env.{Env, Payload}
use proyecto_1_back.Models.{Uuid, Time, User, RefreshToken, Defaults}
use proyecto_1_back.App.{World, Exec, pure, raise_if, lift, query, commit, or_raise, ◌>>=◌, ◌>>◌}
use proyecto_1_back.Security.{
  create_access_token, create_refresh_token, verify_refresh_token, subject,
}
use proyecto_1_back.Repositories.Users
use proyecto_1_back.Repositories.RefreshTokens

-- What issuing a pair of tokens reads from outside.
pub record Issue : Type 0 where
  pub access_at : Time
  pub access_jti : Text
  pub refresh_at : Time
  pub refresh_jti : Text
  pub row : Defaults
  pub stored_at : Time

-- What `refresh` reads from the clock before it issues.
pub record RefreshReads : Type 0 where
  pub decoded_at : Time
  pub checked_at : Time
  pub revoked_at : Time
  pub issue : Issue

-- `except HTTPException: raise`, `except Exception: raise HTTPException(401, …)`
abbrev pub as_http : Exc → Exc
as_http (http code detail) = http code detail
as_http _ = unauthorized "Invalid or expired refresh token"

abbrev pub reraised : {A : Type 0} → Result A × World → Result A × World
reraised (ok a, w) = (ok a, w)
reraised (err e, w) = (err (as_http e), w)

abbrev pub guarded : {A : Type 0} → Exec A → Exec A
guarded m w = reraised (m w)

module _ (env : Env) where
  -- the two tokens, the second stored by its hash
  unfoldable pub issue_tokens : Issue → Uuid → Text → Exec (Text × Text)
  issue_tokens i user_id email =
      let access_token : Text = create_access_token env i.access_at i.access_jti user_id email in
      let refresh_token : Text =
        create_refresh_token env i.refresh_at i.refresh_jti user_id email in
      do
        commit (
            RefreshTokens.create env i.row i.stored_at user_id refresh_token
              env.jwt_refresh_ttl_days)
        pure (access_token, refresh_token)

  unfoldable pub register : Text → Defaults → Issue → Text → Text → Exec (User × Text × Text)
  unfolding issue_tokens
  register salt d i email password = do
    taken ← query (Users.exists_by_email env email)
    raise_if taken (conflict "Email already registered")
    user ← commit (Users.create env d email (env.bcrypt_hash salt password))
    tokens ← issue_tokens i user.id user.email
    pure (user, tokens.0, tokens.1)

  -- `not user or not verify_password(password, user.password_hash)`
  unfoldable pub checked_user : Text → Option User → Result User
  checked_user password none = err (unauthorized "Invalid credentials")
  checked_user password (some user) =
      if env.bcrypt_verify password user.password_hash
      then ok user
      else err (unauthorized "Invalid credentials")

  unfoldable pub login : Issue → Text → Text → Exec (User × Text × Text)
  unfolding issue_tokens checked_user
  login i email password = do
    found ← query (Users.get_by_email env email)
    user ← lift (checked_user password found)
    tokens ← issue_tokens i user.id user.email
    pure (user, tokens.0, tokens.1)

  -- the body of the `try`
  unfoldable pub rotate : RefreshReads → Text → Exec (Text × Text)
  unfolding issue_tokens
  rotate r refresh_token = do
    payload ← lift (verify_refresh_token env r.decoded_at refresh_token)
    user_id ← lift (subject env payload)
    email ← or_raise payload.email key_error
    valid ← query (RefreshTokens.is_valid env r.checked_at refresh_token)
    raise_if (not valid) (unauthorized "Invalid or expired refresh token")
    commit (RefreshTokens.revoke env r.revoked_at refresh_token)
    issue_tokens r.issue user_id email

  unfoldable pub refresh : RefreshReads → Text → Exec (Text × Text)
  unfolding rotate
  refresh r refresh_token = guarded (rotate r refresh_token)

unfoldable pub logout : Time → Uuid → Exec (Unit {0})
logout now user_id = commit (RefreshTokens.revoke_all_for_user now user_id)
