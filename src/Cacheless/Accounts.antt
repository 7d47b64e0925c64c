-- ===== src/Cacheless/Accounts.antt =====
-- The methods of api/app/services/auth_service.py, which do not look into the cache.
use proyecto_1_back.Prelude.{Bool, not, refl, ◌≡◌}
use proyecto_1_back.Http.{Result, ok, err, conflict, unauthorized, key_error, require}
use proyecto_1_back.Text.{Text}
use proyecto_1_back.Env.{Env}
use proyecto_1_back.Models.{Uuid, Time, Defaults, User, Db}
use proyecto_1_back.App.{World, Exec, pure, query, lift, raise_if, commit, ◌>>=◌, ◌>>◌}
use proyecto_1_back.Security.{
  create_access_token, create_refresh_token, verify_refresh_token, subject,
}
use proyecto_1_back.Repositories.Users
use proyecto_1_back.Repositories.RefreshTokens
use proyecto_1_back.Services.Auth
use proyecto_1_back.Services.Auth.{Issue, RefreshReads, reraised, guarded}
use proyecto_1_back.Cacheless.Blind.{Agree, Blind, lift-Blind, commit-Blind, bind-Blind}
use proyecto_1_back.Cacheless.Methods.{after-query, after-lift, after-raise_if}

module _ (env : Env) where
  issue_tokens-Blind :
      (i : Issue) (u : Uuid) (email : Text) → Blind (Auth.issue_tokens env i u email)
  unfolding Auth.issue_tokens
  issue_tokens-Blind i u email =
      let access : Text = create_access_token env i.access_at i.access_jti u email in
      let token : Text = create_refresh_token env i.refresh_at i.refresh_jti u email in
      let made = RefreshTokens.create env i.row i.stored_at u token env.jwt_refresh_ttl_days in
      bind-Blind (commit made) (λ _. pure (access, token)) (commit-Blind made)
        (λ _. lift-Blind (ok (access, token)))

  -- the tokens of a user, in the response with the user
  abbrev signed_in : Issue → User → Exec (User × Text × Text)
  signed_in i user =
      Auth.issue_tokens env i user.id user.email >>= λ tokens. pure (user, tokens.0, tokens.1)

  signed_in-Blind : (i : Issue) (user : User) → Blind (signed_in i user)
  signed_in-Blind i user =
      bind-Blind (Auth.issue_tokens env i user.id user.email)
        (λ tokens. pure (user, tokens.0, tokens.1)) (issue_tokens-Blind i user.id user.email)
        (λ tokens. lift-Blind (ok (user, tokens.0, tokens.1)))

  pub register-Blind :
      (salt : Text) (d : Defaults) (i : Issue) (email password : Text)
      → Blind (Auth.register env salt d i email password)
  unfolding Auth.register
  register-Blind salt d i email password =
      let made = Users.create env d email (env.bcrypt_hash salt password) in
      let rest = commit made >>= signed_in i in
      after-query (Users.exists_by_email env email)
        (λ taken. raise_if taken (conflict "Email already registered") >> rest)
        λ taken.
          after-raise_if taken (conflict "Email already registered") rest
            (bind-Blind (commit made) (signed_in i) (commit-Blind made) (signed_in-Blind i))

  pub login-Blind : (i : Issue) (email password : Text) → Blind (Auth.login env i email password)
  unfolding Auth.login
  login-Blind i email password =
      after-query (Users.get_by_email env email)
        (λ found. lift (Auth.checked_user env password found) >>= signed_in i)
        λ found. after-lift (Auth.checked_user env password found) (signed_in i) (signed_in-Blind i)

  rotate-Blind : (r : RefreshReads) (token : Text) → Blind (Auth.rotate env r token)
  unfolding Auth.rotate
  rotate-Blind r token = after-lift (verify_refresh_token env r.decoded_at token) _ λ payload.
      after-lift (subject env payload) _ λ user_id.
        after-lift (require payload.email key_error) (λ email. checked user_id email)
          λ email.
            after-query (RefreshTokens.is_valid env r.checked_at token)
              (λ valid. guard valid >> renewed user_id email)
              λ valid.
                after-raise_if (not valid) (unauthorized "Invalid or expired refresh token")
                  (renewed user_id email)
                  (bind-Blind (commit revoked) (λ _. Auth.issue_tokens env r.issue user_id email)
                    (commit-Blind revoked) (λ _. issue_tokens-Blind r.issue user_id email))
    where
      revoked : Db → Result (Unit {0} × Db)
      revoked = RefreshTokens.revoke env r.revoked_at token

      renewed : Uuid → Text → Exec (Text × Text)
      renewed user_id email = commit revoked >> Auth.issue_tokens env r.issue user_id email

      guard : Bool → Exec (Unit {0})
      guard valid = raise_if (not valid) (unauthorized "Invalid or expired refresh token")

      checked : Uuid → Text → Exec (Text × Text)
      checked user_id email = query (RefreshTokens.is_valid env r.checked_at token) >>= λ valid.
          guard valid >> renewed user_id email

  reraised-Agree :
      {A : Type 0} (p q : Result A × World) → Agree p q → Agree (reraised p) (reraised q)
  reraised-Agree {A} (ok a, w) (ok b, w') (e, h) = (e, h)
  reraised-Agree {A} (err d, w) (err x, w') (e, h) = let same : d ≡ x = cc e in rw same (refl, h)
  reraised-Agree {A} (ok a, w) (err d, w') (e, h) = absurd (cc e)
  reraised-Agree {A} (err d, w) (ok a, w') (e, h) = absurd (cc e)

  pub refresh-Blind : (r : RefreshReads) (token : Text) → Blind (Auth.refresh env r token)
  unfolding Auth.refresh
  refresh-Blind r token w w' h =
      reraised-Agree (Auth.rotate env r token w) (Auth.rotate env r token w')
        (rotate-Blind r token w w' h)

pub logout-Blind : (now : Time) (u : Uuid) → Blind (Auth.logout now u)
unfolding Auth.logout
logout-Blind now u = commit-Blind (RefreshTokens.revoke_all_for_user now u)
