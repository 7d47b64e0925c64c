-- ===== src/Security/Kinds.antt =====
-- The kinds of token of api/app/core/security/jwt.py, access and refresh, at their two verifiers.
use proyecto_1_back.Prelude.{
  ◌+◌, ◌*◌, ◌≤◌, ◌≡◌, refl, true, false, Option, none, some, Bool-cases, inl, inr,
}
use proyecto_1_back.Http.{jwt_error, ok, err, unauthorized, Result-cases}
use proyecto_1_back.Text.{Text, text_eq, text_eq_iff}
use proyecto_1_back.Env.{Env, Payload}
use proyecto_1_back.Models.{Uuid, Time}
use proyecto_1_back.Cache.{second}
use proyecto_1_back.Repositories.RefreshTokens.{day}
use proyecto_1_back.Security.{
  claims, access, refresh, create_access_token, create_refresh_token, check_kind,
  verify_access_token, verify_refresh_token, get_current_user_id, subject,
}

not_refresh : (k : Text) → text_eq k access ≡ true → text_eq k refresh ≡ false
unfolding text_eq
not_refresh k e = rw ((text_eq_iff k access).0 e) refl

-- a claim of a time, which is in the past or in the future
abbrev pub Since : Option Time → Time → Type 0
Since none now = Unit
Since (some nbf) now = nbf ≤ now

abbrev pub Until : Option Time → Time → Type 0
Until none now = Unit
Until (some exp) now = now ≤ exp

-- What `jwt.decode` gives for an encoded payload: its claims that are texts, as they were.
pub record Read (env : Env) (p : Payload) (now : Time) : Type 0 where
  pub payload : Payload
  pub is : env.jwt_decode now (env.jwt_encode p) ≡ ok payload
  pub sub : payload.sub ≡ p.sub
  pub email : payload.email ≡ p.email
  pub kind : payload.kind ≡ p.kind
  pub jti : payload.jti ≡ p.jti

-- What the documentation of python-jose says of `jwt.encode` and `jwt.decode`, under one secret: what
-- was encoded is decoded again, between `nbf` and `exp`.
pub record IsJose (env : Env) : Type 0 where
  pub keeps : (p : Payload) (now : Time) → Since p.nbf now × Until p.exp now → Read env p now

module _ (env : Env) where
  kind_other :
      (kind : Option Text) (p q : Payload)
      → p.kind ≡ kind
      → check_kind env access p ≡ ok q
      → check_kind env refresh p ≡ err jwt_error
  unfolding check_kind
  kind_other none p q k h = rw k refl
  kind_other (some kind) p q k h = elim (Bool-cases (text_eq kind access)) [
    | inl e ↦ rw k (rw (not_refresh kind e) refl)
    | inr e ↦ cc (rw e at (rw k at h))
  ]

  -- A token that `verify_access_token` accepts is refused by `verify_refresh_token` at the same time.
  pub access_token_is_no_refresh_token :
      (now : Time) (token : Text) (payload : Payload)
      → verify_access_token env now token ≡ ok payload
      → verify_refresh_token env now token ≡ err jwt_error
  unfolding verify_access_token verify_refresh_token
  access_token_is_no_refresh_token now token payload h =
      elim (Result-cases (env.jwt_decode now token)) [
        | inl (e, d) ↦ cc (rw d at h)
        | inr (p, d) ↦ rw d (kind_other p.kind p payload refl (rw d at h))
      ]

  module _ (jose : IsJose env) (issued now : Time) (jti : Text) (user_id : Uuid)
      (email : Text) where
    -- From the time it is issued to its expiry, with jose and uuid that read what they wrote, an access
    -- token authenticates the user it was issued to, and no other user.
    pub access_token_authenticates :
        issued ≤ now
        → now ≤ issued + env.jwt_access_ttl_min * (60 * second)
        → env.uuid_parse (env.uuid_text user_id) ≡ ok user_id
        → get_current_user_id env now (create_access_token env issued jti user_id email)
          ≡ ok user_id
    unfolding get_current_user_id verify_access_token check_kind subject text_eq create_access_token
        claims
    access_token_authenticates early late u =
        let exp = issued + env.jwt_access_ttl_min * (60 * second) in
        let read = jose.keeps (claims env access issued exp jti user_id email) now (early, late) in
        rw read.is (rw read.kind (rw read.sub (rw u refl)))

    -- From the time it is issued to its expiry, with jose that reads what it wrote, a refresh token is
    -- refused wherever an access token is asked for.
    pub refresh_token_authenticates_nobody :
        issued ≤ now
        → now ≤ issued + env.jwt_refresh_ttl_days * day
        → get_current_user_id env now (create_refresh_token env issued jti user_id email)
          ≡ err (unauthorized "token_expired")
    unfolding get_current_user_id verify_access_token check_kind subject text_eq
        create_refresh_token claims
    refresh_token_authenticates_nobody early late =
        let exp = issued + env.jwt_refresh_ttl_days * day in
        let read = jose.keeps (claims env refresh issued exp jti user_id email) now (early, late) in
        rw read.is (rw read.kind refl)
