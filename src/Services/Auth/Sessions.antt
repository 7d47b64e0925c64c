-- ===== src/Services/Auth/Sessions.antt =====
-- `AuthService.logout` and `AuthService.register` of api/app/services/auth_service.py: what they leave
-- for the calls after them.
use proyecto_1_back.Prelude.{
  ◌≡◌, ◌≢◌, refl, sym, ap, ◌∙◌, Bool, true, false, none, some, [], ◌∷◌, ◌++◌, filter, ◌==◌, ==_iff,
  ==_refl, Bool-cases, inl, inr, if◌then◌else◌,
}
use proyecto_1_back.Http.{Result, ok, Result-cases, conflict}
use proyecto_1_back.Text.{Text, text_eq, text_eq_iff, lower}
use proyecto_1_back.Env.{Env}
use proyecto_1_back.Models.{Uuid, Time, User, RefreshToken, Db, Defaults}
use proyecto_1_back.Sql.Laws.{filter-append, scalar_some, scalar_none, filter-update_where}
use proyecto_1_back.App.{World, Exec, pure, query, commit, raise_if, ◌>>=◌}
use proyecto_1_back.App.Steps.{through, query-Reading, raise_if-Reading}
use proyecto_1_back.Repositories.Users
use proyecto_1_back.Repositories.RefreshTokens.{
  is_valid, get_by_token, row_is_valid, revoke_row, revocable, hash_token, is_open, create,
  revoke_all_for_user,
}
use proyecto_1_back.Repositories.Inserts.{user_insert, token_insert}
use proyecto_1_back.Security.{create_refresh_token}
use proyecto_1_back.Services.Auth.{Issue, issue_tokens, register, checked_user, logout}

module _ (env : Env) (now : Time) (user_id : Uuid) (w : World) where
  -- the row of a token after the logout
  abbrev after : RefreshToken → RefreshToken
  after t = if revocable user_id t then revoke_row now t else t

  get_by_token-logout :
      (token : Text) (t : RefreshToken)
      → get_by_token env token w.db ≡ ok (some t)
      → get_by_token env token (logout now user_id w).1.db ≡ ok (some (after t))
  unfolding get_by_token logout revoke_all_for_user
  get_by_token-logout token t h =
      let rows = w.db.refresh_tokens in
      let test : RefreshToken → Bool = λ r. text_eq r.token_hash (hash_token env token) in
      rw (filter-update_where test (revocable user_id) (revoke_row now) rows (λ _. refl))
        (rw (scalar_some (filter test rows) t h) refl)

  after_invalid :
      (at : Time) (t : RefreshToken)
      → t.user_id ≡ user_id
      → row_is_valid at (some (after t)) ≡ false
  unfolding row_is_valid
  after_invalid at t u = elim (Bool-cases (is_open t)) [
    | inl e ↦ rw u (rw (==_refl user_id) (rw e refl))
    | inr e ↦ rw u (rw (==_refl user_id) (rw e (rw e refl)))
  ]

  -- After a logout every refresh token of the user is invalid, at any time.
  pub logout_ends_sessions :
      (token : Text) (t : RefreshToken)
      → get_by_token env token w.db ≡ ok (some t)
      → t.user_id ≡ user_id
      → (at : Time) → is_valid env at token (logout now user_id w).1.db ≡ ok false
  unfolding is_valid
  logout_ends_sessions token t h u at =
      rw (get_by_token-logout token t h) (ap ok (after_invalid at t u))

  after_same : (t : RefreshToken) → t.user_id ≢ user_id → after t ≡ t
  after_same t ne = elim (Bool-cases (t.user_id == user_id)) [
    | inl e ↦ absurd (ne ((==_iff t.user_id user_id).0 e))
    | inr e ↦ rw e refl
  ]

  -- A logout leaves the validity of every other user's refresh token as it was.
  pub logout_keeps_others :
      (token : Text) (t : RefreshToken)
      → get_by_token env token w.db ≡ ok (some t)
      → t.user_id ≢ user_id
      → (at : Time) → is_valid env at token (logout now user_id w).1.db ≡ is_valid env at token w.db
  unfolding is_valid
  logout_keeps_others token t h ne at =
      rw (get_by_token-logout token t h) (rw h (rw (after_same t ne) refl))

module _ (env : Env) (salt : Text) (d : Defaults) (i : Issue) (email password : Text) where
  abbrev Registered : Result (User × Text × Text) × World → Type 0
  Registered x =
      (user : User) (access refresh : Text) (w' : World)
      → x ≡ (ok (user, access, refresh), w')
      → (Users.get_by_email env email w'.db ≡ ok (some user))
        × (checked_user env password (some user) ≡ ok user)

  -- the rest of `register` once the e-mail is found free
  abbrev sign_up : Exec (User × Text × Text)
  sign_up = do
    user ← commit (Users.create env d email (env.bcrypt_hash salt password))
    tokens ← issue_tokens env i user.id user.email
    pure (user, tokens.0, tokens.1)

  -- the account is found once it is stored
  found :
      (db : Db)
      → filter (λ u. text_eq u.email (lower env.wide email)) db.users ≡ []
      → filter
          (λ u. text_eq u.email (lower env.wide email))
          (db.users ++ Users.new_user env d email (env.bcrypt_hash salt password) ∷ [])
        ≡ Users.new_user env d email (env.bcrypt_hash salt password) ∷ []
  found db h =
      rw
        (filter-append (λ (u : User). text_eq u.email (lower env.wide email)) db.users
          (Users.new_user env d email (env.bcrypt_hash salt password) ∷ []))
        (rw h (rw ((text_eq_iff (lower env.wide email) (lower env.wide email)).1 refl) refl))

  sign_up_lem :
      (w : World)
      → env.bcrypt_verify password (env.bcrypt_hash salt password) ≡ true
      → Users.get_by_email env email w.db ≡ ok none
      → Registered (sign_up w)
  unfolding issue_tokens Users.get_by_email checked_user
  sign_up_lem w law free user access refresh w' h =
      let hash = env.bcrypt_hash salt password in
      elim (Result-cases (Users.create env d email hash w.db)) [
        | inl (x, c) ↦ absurd (cc (rw c at h))
        | inr ((u, db1), c) ↦
            let new = create_refresh_token env i.refresh_at i.refresh_jti u.id u.email in
            let (is_new, stored) = user_insert env d email hash w.db u db1 c in
            elim (Result-cases
              (create env i.row i.stored_at u.id new env.jwt_refresh_ttl_days db1)) [
                | inl (x, k) ↦ absurd (cc (rw k at (rw c at h)))
                | inr ((x, db2), k) ↦
                    let end = rw k at (rw c at h) in
                    let t =
                      (token_insert env i.row i.stored_at u.id new env.jwt_refresh_ttl_days db1 x
                        db2 k).1 in
                    let same_user : u ≡ user = cc end in
                    let users : w'.db.users ≡ w.db.users ++ u ∷ [] =
                      sym (ap (λ (z : Result (User × Text × Text) × World). z.1.db.users) end)
                      ∙ ap (λ (z : Db). z.users) t.stored
                      ∙ ap (λ (z : Db). z.users) stored.stored in
                    rw⁻¹ same_user (
                      rw users (
                        rw is_new (
                          rw
                            (found w.db (
                              scalar_none
                                (filter (λ u. text_eq u.email (lower env.wide email)) w.db.users)
                                free))
                            (rw law (refl, refl)))))
              ]
      ]

  not_taken :
      (w : World) (taken : Bool)
      → Users.exists_by_email env email w.db ≡ ok taken
      → taken ≡ false
      → Users.get_by_email env email w.db ≡ ok none
  unfolding Users.exists_by_email
  not_taken w taken h free = elim (Result-cases (Users.get_by_email env email w.db)) [
    | inl (e, g) ↦ absurd (cc (rw g at h))
    | inr (none, g) ↦ g
    | inr (some u, g) ↦ absurd (cc (rw g at h, free))
  ]

  -- With bcrypt that verifies the password that it hashed: after `register` has returned a user, the
  -- account is found under the e-mail, and the password is accepted for it.
  pub register_then_login :
      (w : World)
      → env.bcrypt_verify password (env.bcrypt_hash salt password) ≡ true
      → (user : User) (access refresh : Text) (w' : World)
      → register env salt d i email password w ≡ (ok (user, access, refresh), w')
      → (Users.get_by_email env email w'.db ≡ ok (some user))
        × (checked_user env password (some user) ≡ ok user)
  unfolding register
  register_then_login w law =
      through (query (Users.exists_by_email env email)) _ w Registered
        (query-Reading (Users.exists_by_email env email) w)
        (λ e user access refresh w' h. absurd (cc h))
        λ taken t.
          let refused = conflict "Email already registered" in
          through (raise_if taken refused) _ w Registered (raise_if-Reading taken refused w)
            (λ e user access refresh w' h. absurd (cc h))
            λ _ free. sign_up_lem w law (not_taken w taken t free)
