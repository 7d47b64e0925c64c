-- ===== src/Services/Auth/Rotation.antt =====
-- `AuthService.refresh` of api/app/services/auth_service.py: the token that it was given, afterwards.
use proyecto_1_back.Prelude.{
  ◌≡◌, refl, ap, ◌∙◌, Bool, true, false, not, Option, none, some, List, [], ◌∷◌, filter, any, ◌==◌,
  ==_refl, arith, Bool-cases, inl, inr,
}
use proyecto_1_back.Http.{Exc, Result, ok, err, Result-cases, unauthorized, key_error}
use proyecto_1_back.Text.{Text, text_eq, text_eq_iff}
use proyecto_1_back.Env.{Env}
use proyecto_1_back.Models.{Uuid, Time, RefreshToken, Db}
use proyecto_1_back.Sql.Laws.{filter-append, scalar_some, any-of_filter, filter-update_where}
use proyecto_1_back.App.{World, Exec, lift, query, commit, or_raise, raise_if, ◌>>◌}
use proyecto_1_back.App.Steps.{
  through, query-Reading, lift-Reading, or_raise-Reading, raise_if-Reading,
}
use proyecto_1_back.Repositories.RefreshTokens.{
  is_valid, get_by_token, row_is_valid, revoke, revoke_found, revoke_row, hash_token, create,
}
use proyecto_1_back.Repositories.Inserts.{TokenInsert, token_insert}
use proyecto_1_back.Security.{verify_refresh_token, subject, create_refresh_token}
use proyecto_1_back.Services.Auth.{
  Issue, RefreshReads, issue_tokens, rotate, refresh, reraised, as_http,
}

module _ (env : Env) (token : Text) where
  abbrev has_hash : RefreshToken → Bool
  has_hash t = text_eq t.token_hash (hash_token env token)

  -- the row of the token, revoked
  abbrev Spent : Db → Type 0
  Spent db = (at : Time) → is_valid env at token db ≡ ok false

  revoked_row :
      (now : Time) (t : RefreshToken) (db : Db)
      → filter has_hash db.refresh_tokens ≡ t ∷ []
      → filter has_hash (revoke_found now (some t) db).refresh_tokens ≡ revoke_row now t ∷ []
  unfolding revoke_found
  revoked_row now t db h =
      filter-update_where has_hash (λ r. r.id == t.id) (revoke_row now) db.refresh_tokens
        (λ _. refl)
      ∙ rw h (rw (==_refl t.id) refl)

  other_hash :
      (x t : RefreshToken) (rows : List RefreshToken)
      → filter has_hash rows ≡ t ∷ []
      → any (λ y. text_eq y.token_hash x.token_hash) rows ≡ false
      → has_hash x ≡ false
  other_hash x t rows h free = elim (Bool-cases (has_hash x)) [
    | inl e ↦ cc (
      any-of_filter has_hash rows t h,
      rw ((text_eq_iff x.token_hash (hash_token env token)).0 e) at free,
    )
    | inr e ↦ e
  ]

  spent :
      (now : Time) (t x : RefreshToken) (db db' : Db)
      → filter has_hash db.refresh_tokens ≡ t ∷ []
      → TokenInsert (revoke_found now (some t) db) x db'
      → Spent db'
  unfolding is_valid get_by_token row_is_valid
  spent now t x db db' h i at =
      let rows = (revoke_found now (some t) db).refresh_tokens in
      rw i.stored (
        rw (filter-append has_hash rows (x ∷ [])) (
          rw (revoked_row now t db h)
            (rw (other_hash x (revoke_row now t) rows (revoked_row now t db h) i.hash_free) refl)))

  -- the rest of `rotate` once the token is found valid
  abbrev finish : RefreshReads → Uuid → Text → Exec (Text × Text)
  finish r user_id email =
      commit (revoke env r.revoked_at token) >> issue_tokens env r.issue user_id email

  -- What holds of a run that returned.
  abbrev Returned : Result (Text × Text) × World → Type 0
  Returned x = (tokens : Text × Text) (w' : World) → x ≡ (ok tokens, w') → Spent w'.db

  -- what the second commit stores is the new token
  issued_spent :
      (i : Issue) (now : Time) (t : RefreshToken) (user_id : Uuid) (email : Text) (w : World)
      → filter has_hash w.db.refresh_tokens ≡ t ∷ []
      → Returned
          (issue_tokens env i user_id email (record w { db = revoke_found now (some t) w.db }))
  unfolding issue_tokens
  issued_spent i now t user_id email w h tokens w' e =
      let new = create_refresh_token env i.refresh_at i.refresh_jti user_id email in
      let revoked = revoke_found now (some t) w.db in
      elim (Result-cases
        (create env i.row i.stored_at user_id new env.jwt_refresh_ttl_days revoked)) [
          | inl (x, c) ↦ cc (rw c at e)
          | inr ((x, db'), c) ↦
              let is : db' ≡ w'.db =
                ap (λ (z : Result (Text × Text) × World). z.1.db) (rw c at e) in
              rw⁻¹ is (
                spent now t x w.db db' h
                  (token_insert env i.row i.stored_at user_id new env.jwt_refresh_ttl_days revoked x
                    db' c).1)
        ]

  finish_found :
      (r : RefreshReads) (user_id : Uuid) (email : Text) (w : World) (found : Option RefreshToken)
      → get_by_token env token w.db ≡ ok found
      → row_is_valid r.checked_at found ≡ true
      → Returned (finish r user_id email w)
  unfolding revoke get_by_token row_is_valid
  finish_found r user_id email w none g v = absurd (cc v)
  finish_found r user_id email w (some t) g v = rw g (
      issued_spent r.issue r.revoked_at t user_id email w
        (scalar_some (filter has_hash w.db.refresh_tokens) t g))

  not-false : (b : Bool) → not b ≡ false → b ≡ true
  not-false b h = ground arith

  finish_spent :
      (r : RefreshReads) (user_id : Uuid) (email : Text) (w : World)
      → is_valid env r.checked_at token w.db ≡ ok true
      → Returned (finish r user_id email w)
  unfolding is_valid
  finish_spent r user_id email w v = elim (Result-cases (get_by_token env token w.db)) [
    | inl (e, g) ↦ absurd (cc (rw g at v))
    | inr (found, g) ↦ finish_found r user_id email w found g (cc (rw g at v))
  ]

  rotate_spent : (r : RefreshReads) (w : World) → Returned (rotate env r token w)
  unfolding rotate
  rotate_spent r w =
      through (lift (verify_refresh_token env r.decoded_at token)) _ w Returned
        (lift-Reading (verify_refresh_token env r.decoded_at token) w)
        (λ e tokens w' h. absurd (cc h))
        λ payload _.
          through (lift (subject env payload)) _ w Returned (lift-Reading (subject env payload) w)
            (λ e tokens w' h. absurd (cc h))
            λ user_id _.
              through (or_raise payload.email key_error) _ w Returned
                (or_raise-Reading payload.email key_error w) (λ e tokens w' h. absurd (cc h))
                λ email _.
                  through (query (is_valid env r.checked_at token)) _ w Returned
                    (query-Reading (is_valid env r.checked_at token) w)
                    (λ e tokens w' h. absurd (cc h))
                    λ valid v.
                      let invalid = unauthorized "Invalid or expired refresh token" in
                      through (raise_if (not valid) invalid) _ w Returned
                        (raise_if-Reading (not valid) invalid w) (λ e tokens w' h. absurd (cc h))
                        λ _ held. finish_spent r user_id email w (v ∙ ap ok (not-false valid held))

  -- After `refresh` has returned a pair of tokens, the token that it was given is valid at no time.
  pub refresh_spends_token :
      (r : RefreshReads) (w : World) (tokens : Text × Text) (w' : World)
      → refresh env r token w ≡ (ok tokens, w')
      → (at : Time) → is_valid env at token w'.db ≡ ok false
  unfolding refresh
  refresh_spends_token r w tokens w' h =
      rotate_spent r w tokens w' (unguarded (rotate env r token w) h)
    where
      unguarded :
          (x : Result (Text × Text) × World) → reraised x ≡ (ok tokens, w') → x ≡ (ok tokens, w')
      unguarded (ok a, v) k = k
      unguarded (err e, v) k = absurd (cc k)

  abbrev Refused : World → Result (Text × Text) × World → Type 0
  Refused w x = (e : Exc) × (x ≡ (err e, w))

  invalid_not_rotated :
      (r : RefreshReads) (w : World)
      → is_valid env r.checked_at token w.db ≡ ok false
      → Refused w (rotate env r token w)
  unfolding rotate
  invalid_not_rotated r w h =
      through (lift (verify_refresh_token env r.decoded_at token)) _ w (Refused w)
        (lift-Reading (verify_refresh_token env r.decoded_at token) w) (λ e. (e, refl))
        λ payload _.
          through (lift (subject env payload)) _ w (Refused w)
            (lift-Reading (subject env payload) w) (λ e. (e, refl))
            λ user_id _.
              through (or_raise payload.email key_error) _ w (Refused w)
                (or_raise-Reading payload.email key_error w) (λ e. (e, refl))
                λ email _. rw h (unauthorized "Invalid or expired refresh token", refl)

  -- After `refresh` has returned a pair of tokens, a second call with the same token, whatever the
  -- clock says then, raises and changes nothing.
  pub refresh_works_once :
      (r r' : RefreshReads) (w : World) (tokens : Text × Text) (w' : World)
      → refresh env r token w ≡ (ok tokens, w')
      → (e : Exc) × (refresh env r' token w' ≡ (err e, w'))
  unfolding refresh
  refresh_works_once r r' w tokens w' h =
      let (e, is) =
        invalid_not_rotated r' w' (refresh_spends_token r w tokens w' h r'.checked_at) in
      rw is (as_http e, refl)
