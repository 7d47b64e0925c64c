-- ===== src/Tests/Accounts.antt =====
-- Calls of the security functions and of the auth service.
use proyecto_1_back.Prelude.{◌≡◌, refl, false, none, some, [], ◌∷◌, arith}
use proyecto_1_back.Http.{Exc, ok, err}
use proyecto_1_back.Text.{Text, codes, text_eq}
use proyecto_1_back.Env.{Payload}
use proyecto_1_back.Models.{User}
use proyecto_1_back.Security
use proyecto_1_back.Security.{
  access, verify_refresh_token, verify_access_token, get_current_user_id, create_access_token,
  create_refresh_token,
}
use proyecto_1_back.Repositories.Users
use proyecto_1_back.Repositories.RefreshTokens.{is_valid, get_by_token}
use proyecto_1_back.Services.Auth.{register, refresh, logout, checked_user}
use proyecto_1_back.Services.Auth.Rotation.{refresh_works_once, refresh_spends_token}
use proyecto_1_back.Services.Auth.Sessions.{
  logout_ends_sessions, logout_keeps_others, register_then_login,
}
use proyecto_1_back.Tests.Sample.{
  env, world, defaults, issue, reads, reads_later, old_token, session,
}

abbrev new_tokens : Text × Text
new_tokens = (1 ∷ 101 ∷ codes "access", 1 ∷ 102 ∷ codes "refresh")

refreshed :
    refresh env reads old_token world ≡ (ok new_tokens, (refresh env reads old_token world).1)
unfolding refresh verify_refresh_token text_eq Security.subject is_valid get_by_token
    proyecto_1_back.Repositories.RefreshTokens.row_is_valid
    proyecto_1_back.Repositories.RefreshTokens.revoke
    proyecto_1_back.Repositories.RefreshTokens.create
    proyecto_1_back.Repositories.RefreshTokens.revoke_found create_refresh_token create_access_token
refreshed = refl

refresh_works_once_example :
    (e : Exc) × (refresh env reads_later old_token (refresh env reads old_token world).1
      ≡ (err e, (refresh env reads old_token world).1))
refresh_works_once_example =
    refresh_works_once env old_token reads reads_later world new_tokens
      (refresh env reads old_token world).1 refreshed

refresh_spends_token_example :
    is_valid env 13 old_token (refresh env reads old_token world).1.db ≡ ok false
refresh_spends_token_example =
    refresh_spends_token env old_token reads world new_tokens (refresh env reads old_token world).1
      refreshed 13

found : get_by_token env old_token world.db ≡ ok (some session)
unfolding get_by_token text_eq
found = refl

logout_ends_sessions_example : is_valid env 13 old_token (logout 12 1 world).1.db ≡ ok false
logout_ends_sessions_example = logout_ends_sessions env 12 1 world old_token session found refl 13

logout_keeps_others_example :
    is_valid env 13 old_token (logout 12 2 world).1.db ≡ is_valid env 13 old_token world.db
logout_keeps_others_example =
    logout_keeps_others env 12 2 world old_token session found (λ e. omega (arith, e)) 13

-- an account with another e-mail address, written in capitals
abbrev joined : User
joined = record {
  id = 50;
  email = codes "bob@x";
  password_hash = codes "hush";
  created_at = 11;
  updated_at = 11;
}

registered : register env (codes "salt") defaults issue (codes "BOB@x") (codes "hush") world ≡ (
  ok (joined, 50 ∷ 101 ∷ codes "access", 50 ∷ 102 ∷ codes "refresh"),
  (register env (codes "salt") defaults issue (codes "BOB@x") (codes "hush") world).1,
)
unfolding register Users.exists_by_email Users.get_by_email text_eq proyecto_1_back.Text.lower
    Users.create proyecto_1_back.Repositories.RefreshTokens.create create_refresh_token
    create_access_token
registered = refl

register_then_login_example :
    (Users.get_by_email env
        (codes "BOB@x")
        (register env (codes "salt") defaults issue (codes "BOB@x") (codes "hush") world).1.db
      ≡ ok (some joined))
    × (checked_user env (codes "hush") (some joined) ≡ ok joined)
register_then_login_example =
    register_then_login env (codes "salt") defaults issue (codes "BOB@x") (codes "hush") world refl
      joined (50 ∷ 101 ∷ codes "access") (50 ∷ 102 ∷ codes "refresh")
      (register env (codes "salt") defaults issue (codes "BOB@x") (codes "hush") world).1 registered

abbrev access_token : Text
access_token = 1 ∷ 101 ∷ codes "access"

abbrev access_payload : Payload
access_payload = record {
  sub = some (1 ∷ []);
  email = some (codes "ana@x");
  kind = some (codes "access");
  iat = none;
  nbf = none;
  exp = none;
  jti = some (101 ∷ []);
}

verified : verify_access_token env 12 access_token ≡ ok access_payload
unfolding verify_access_token text_eq
verified = refl
