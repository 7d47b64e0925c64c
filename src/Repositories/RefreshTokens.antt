-- ===== src/Repositories/RefreshTokens.antt =====
-- api/app/repositories/refresh_token_repo.py
-- `datetime.now(timezone.utc)` is an argument of each method that reads it.
use proyecto_1_back.Prelude.{
  ℕ, ◌+◌, ◌*◌, Bool, true, false, not, ◌&&◌, ◌||◌, Option, none, some, [], ◌∷◌, ◌++◌, filter, any,
  ltb, ◌==◌,
}
use proyecto_1_back.Http.{Result, ok, ◌>>=◌}
use proyecto_1_back.Text.{Text, text_eq}
use proyecto_1_back.Env.{Env}
use proyecto_1_back.Models.{Uuid, Time, RefreshToken, Db, Defaults}
use proyecto_1_back.Sql.{scalar_one_or_none, unless_violated, update_where}
use proyecto_1_back.Cache.{second}

-- `timedelta(days=1)`
abbrev pub day : ℕ
day = 86400 * second

-- `revoked_at is None`
abbrev pub is_open : RefreshToken → Bool
is_open t = elim t.revoked_at [ none ↦ true | some _ ↦ false ]

abbrev pub revoke_row : Time → RefreshToken → RefreshToken
revoke_row now t = record t { revoked_at = some now }

-- the tests of `is_valid` on the row that it found
unfoldable pub row_is_valid : Time → Option RefreshToken → Bool
row_is_valid now none = false
row_is_valid now (some t) = is_open t && not (ltb t.expires_at now)

unfoldable pub revoke_found : Time → Option RefreshToken → Db → Db
revoke_found now none db = db
revoke_found now (some t) db = record db {
  refresh_tokens = update_where (λ row. row.id == t.id) (revoke_row now) db.refresh_tokens;
}

-- the rows of the user that are not revoked yet
abbrev pub revocable : Uuid → RefreshToken → Bool
revocable user_id t = t.user_id == user_id && is_open t

unfoldable pub revoke_all_for_user : Time → Uuid → Db → Result (Unit {0} × Db)
revoke_all_for_user now user_id db = ok (
  tt,
  record db {
    refresh_tokens = update_where (revocable user_id) (revoke_row now) db.refresh_tokens;
  },
)

module _ (env : Env) where
  unfoldable pub hash_token : Text → Text
  hash_token token = env.sha256 token

  unfoldable pub get_by_token : Text → Db → Result (Option RefreshToken)
  unfolding hash_token
  get_by_token token db =
      scalar_one_or_none (filter (λ t. text_eq t.token_hash (hash_token token)) db.refresh_tokens)

  unfoldable pub is_valid : Time → Text → Db → Result Bool
  is_valid now token db = do found ← get_by_token token db; ok (row_is_valid now found)

  unfoldable pub revoke : Time → Text → Db → Result (Unit {0} × Db)
  revoke now token db = do found ← get_by_token token db; ok (tt, revoke_found now found db)

  abbrev pub new_token : Defaults → Time → Uuid → Text → ℕ → RefreshToken
  new_token d now user_id token expires_in_days = record {
    id = d.id;
    user_id = user_id;
    token_hash = env.sha256 token;
    revoked_at = none;
    expires_at = now + expires_in_days * day;
    created_at = d.created_at;
  }

  -- the primary key, the unique hash, and the foreign key to `users`
  unfoldable pub create : Defaults → Time → Uuid → Text → ℕ → Db → Result (RefreshToken × Db)
  unfolding hash_token
  create d now user_id token expires_in_days db =
      unless_violated
        (any (λ t. t.id == d.id) db.refresh_tokens
          || any (λ t. text_eq t.token_hash (hash_token token)) db.refresh_tokens
          || not (any (λ u. u.id == user_id) db.users))
        (
          new_token d now user_id token expires_in_days,
          record db {
            refresh_tokens =
                db.refresh_tokens ++ new_token d now user_id token expires_in_days ∷ [];
          },
        )
