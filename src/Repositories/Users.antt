-- ===== src/Repositories/Users.antt =====
-- api/app/repositories/user_repo.py
use proyecto_1_back.Prelude.{
  Bool, true, false, ◌||◌, Option, none, some, [], ◌∷◌, ◌++◌, filter, any, ◌==◌,
}
use proyecto_1_back.Http.{Result, ok, ◌>>=◌}
use proyecto_1_back.Text.{Text, text_eq, lower}
use proyecto_1_back.Env.{Env}
use proyecto_1_back.Models.{Uuid, User, Db, Defaults}
use proyecto_1_back.Sql.{scalar_one_or_none, unless_violated}

-- `x is not None`
abbrev pub is_some : {A : Type 0} → Option A → Bool
is_some none = false
is_some (some a) = true

unfoldable pub get_by_id : Uuid → Db → Result (Option User)
get_by_id user_id db = scalar_one_or_none (filter (λ u. u.id == user_id) db.users)

module _ (env : Env) where
  unfoldable pub get_by_email : Text → Db → Result (Option User)
  get_by_email email db =
      let wanted = lower env.wide email in
      scalar_one_or_none (filter (λ u. text_eq u.email wanted) db.users)

  unfoldable pub exists_by_email : Text → Db → Result Bool
  exists_by_email email db = do user ← get_by_email email db; ok (is_some user)

  abbrev pub new_user : Defaults → Text → Text → User
  new_user d email password_hash = record {
    id = d.id;
    email = lower env.wide email;
    password_hash = password_hash;
    created_at = d.created_at;
    updated_at = d.updated_at;
  }

  -- the primary key and the unique e-mail
  unfoldable pub create : Defaults → Text → Text → Db → Result (User × Db)
  create d email password_hash db =
      let user : User = new_user d email password_hash in
      unless_violated
        (any (λ u. u.id == user.id) db.users || any (λ u. text_eq u.email user.email) db.users)
        (user, record db { users = db.users ++ user ∷ [] })
